-- ===== src/SpamHeuristics/Decisive.antt =====
-- What the user has said about a message decides its verdict (score, Rule -2), as long as no weight is
-- changed in the settings and the body is not there yet.
use mailove.Common.{
  ℕ, zero, suc, ◌+◌, ◌+ℤ◌, ◌<◌, true, ◌≡◌, refl, inl, inr, Option, none, some, List, [], ◌∷◌, Bytes,
  ℤ, pos, negsuc, codes, less_int, less_int_trans, Bool-cases, arith,
}
use mailove.PublicSuffix.{PublicSuffixList}
use mailove.SpamHeuristics.{SpamPlatform, SpamConfig}
use mailove.SpamHeuristics.Fields.{Field, first_value}
use mailove.SpamHeuristics.Bounds.{
  raised, gain, Under, later, Under-if, hit-Under, hit_if-Under, rule_weight_plain,
  score_rules-Under,
}
use mailove.SpamHeuristics.Header.{
  Sender, score_display_name, score_brand, score_from_domain, score_reply_to, score_id_host,
  score_message_id, score_relays, score_date,
}
use mailove.SpamHeuristics.Content.{
  score_script, score_mailer, score_subject, score_subject_text, score_cyrillic, score_recipients,
  score_programs, score_attachments, Message, sender_of, score_contents, score_head,
}
use mailove.SpamHeuristics.Scoring.{
  Score, Context, ham, hit, blank_score, score_decision, is_exempt, is_from_own, verdict_for,
  set_verdict, append_hit, score_rules,
}
use mailove.SpamHeuristics.Words.{TextPlatform}

together : (a b n : ℕ) {out : Score} → Under ((n + a) + b) out → Under (n + (a + b)) out
together a b n h = record { bound = omega (arith, h.bound) }

module _ (config : SpamConfig) (plain : config.rule_weights ≡ []) (p : SpamPlatform)
    (q : TextPlatform) (suffixes : PublicSuffixList) where
  module _ {n : ℕ} (out : Score) (h : Under n out) where
    score_display_name-Under :
        (s : Sender) → Under (n + 60) (score_display_name p q suffixes config s out)
    unfolding score_display_name gain
    score_display_name-Under s = together 30 30 n (search hit_if-Under depth 12)

    score_brand-Under :
        (ctx : Context) (s : Sender) → Under (n + 80) (score_brand p q config ctx s out)
    unfolding score_brand gain
    score_brand-Under ctx s =
        together 30 50 n (together 25 25 (n + 30) (search hit_if-Under depth 12))

    score_from_domain-Under : (s : Sender) → Under (n + 55) (score_from_domain p q config s out)
    unfolding score_from_domain gain
    score_from_domain-Under s = together 30 25 n (search hit_if-Under depth 12)

    score_reply_to-Under :
        (ctx : Context) (fields : List Field) (s : Sender)
        → Under (n + 28) (score_reply_to p suffixes config ctx fields s out)
    unfolding score_reply_to gain
    score_reply_to-Under ctx fields s = together 8 20 n (search hit_if-Under depth 12)

    score_relays-Under : (fields : List Field) → Under (n + 20) (score_relays p config fields out)
    unfolding score_relays gain
    score_relays-Under fields = search (Under-if, later, hit-Under) depth 9

    score_date-Under : (fields : List Field) → Under (n + 15) (score_date p q config fields out)
    unfolding score_date gain
    score_date-Under fields = search (Under-if, later, hit-Under, hit_if-Under) depth 9

    score_script-Under : (fields : List Field) → Under (n + 40) (score_script p q config fields out)
    unfolding score_script gain
    score_script-Under fields = search (Under-if, later, hit-Under) depth 9

    score_mailer-Under : (fields : List Field) → Under (n + 12) (score_mailer p config fields out)
    unfolding score_mailer gain
    score_mailer-Under fields = search hit_if-Under depth 12

    score_cyrillic-Under :
        (subject name : Bytes) → Under (n + 50) (score_cyrillic q config subject name out)
    unfolding score_cyrillic gain
    score_cyrillic-Under subject name = search hit_if-Under depth 12

    score_recipients-Under :
        (ctx : Context) (fields : List Field)
        → Under (n + 8) (score_recipients p config ctx fields out)
    unfolding score_recipients gain
    score_recipients-Under ctx fields = search (Under-if, later, hit-Under, hit_if-Under) depth 9

    score_id_host-Under :
        (msgid : Bytes) (at : Option ℕ) → Under (n + 18) (score_id_host p config msgid at out)
    unfolding score_id_host gain
    score_id_host-Under msgid none = hit-Under config plain 18 _ _ out refl h
    score_id_host-Under msgid (some zero) = hit-Under config plain 18 _ _ out refl h
    score_id_host-Under msgid (some (suc at)) = search hit_if-Under

    score_message_id-Under :
        (fields : List Field) → Under (n + 18) (score_message_id p config fields out)
    unfolding score_message_id gain
    score_message_id-Under fields = search (Under-if, hit-Under, score_id_host-Under) depth 9

    score_programs-Under : (names : List Bytes) → Under (n + 50) (score_programs p config names out)
    unfolding score_programs gain
    score_programs-Under [] = later config plain 50 h
    score_programs-Under (name ∷ names) =
        let rest = score_programs-Under names in search (Under-if, hit-Under) depth 9

    score_subject_text-Under :
        (raw subject : Bytes) → Under (n + 94) (score_subject_text p q config raw subject out)
    unfolding score_subject_text gain
    score_subject_text-Under raw subject = together 30 64 n (
        together 25 39 (n + 30) (
          together 6 33 (n + 30 + 25)
            (together 25 8 (n + 30 + 25 + 6) (search hit_if-Under depth 12))))

    score_subject-Under :
        (raw subject : Bytes) → Under (n + 94) (score_subject p q config raw subject out)
    unfolding score_subject
    score_subject-Under raw subject =
        Under-if config plain _ out _ (later config plain 94 h)
          (score_subject_text-Under raw subject)

  score_attachments-Under :
      (msg : Message) {n : ℕ} (out : Score)
      → Under n out
      → Under (n + 145) (score_attachments p config msg out)
  unfolding score_attachments gain
  score_attachments-Under msg {n} out h = together 50 95 n (
      together 50 45 (n + 50)
        (together 30 15 (n + 50 + 50) (search (score_programs-Under, hit_if-Under) depth 12)))

  -- All of them together
  score_contents-Under :
      (ctx : Context) (msg : Message) (s : Sender) {n : ℕ} (out : Score)
      → Under n out
      → Under (n + 625) (score_contents p q suffixes config ctx msg s out)
  unfolding score_contents
  score_contents-Under ctx msg s out h =
      let fields = msg.fields in
      let a = score_display_name-Under out h s in
      let b = score_brand-Under _ a ctx s in
      let c = score_from_domain-Under _ b s in
      let d = score_reply_to-Under _ c ctx fields s in
      let e = score_message_id-Under _ d fields in
      let f = score_relays-Under _ e fields in
      let g = score_date-Under _ f fields in
      let i = score_script-Under _ g fields in
      let j = score_mailer-Under _ i fields in
      let k = score_subject-Under _ j (first_value fields (codes "subject")) msg.subject_text in
      let l = score_cyrillic-Under _ k msg.subject_text s.display_name in
      let m = score_recipients-Under _ l ctx fields in
      let z = score_attachments-Under msg _ m in record { bound = omega (arith, z.bound) }

  below_zero : (total : ℤ) → raised total < 2000 → less_int total (pos 0) ≡ true
  unfolding raised less_int
  below_zero (pos n) h = absurd (omega (arith, h))
  below_zero (negsuc n) h = refl

  verdict_below_zero :
      (total : ℤ)
      → less_int total (pos 0) ≡ true
      → less_int (pos 0) config.threshold ≡ true
      → verdict_for config total ≡ ham
  unfolding verdict_for less_int
  verdict_below_zero total h t =
      rw (less_int_trans total (pos 0) config.threshold h t)
        (rw (less_int_trans total (pos 0) (pos 25) h refl) refl)

  -- A message that the user has called no spam is not shown as spam: with the weights of the rules as
  -- they are and a threshold above 0, a message whose body is not there yet has the verdict ham,
  -- whatever its header says.
  pub score_head-user_not_spam :
      (ctx : Context) (msg : Message)
      → ctx.user_not_spam ≡ true
      → less_int (pos 0) config.threshold ≡ true
      → (score_head p q suffixes config ctx msg).verdict ≡ ham
  unfolding score_head set_verdict score_decision hit append_hit raised ◌+ℤ◌
  score_head-user_not_spam ctx msg u t =
      let s = sender_of p suffixes msg in
      let own = is_from_own ctx s.from_addr in
      let filed = score_decision config ctx blank_score in
      let start = decided ctx u in
      let ruled = score_rules-Under config plain p ctx msg.fields s.from_addr own filed start in
      let all = score_contents-Under ctx msg s _ ruled in
      elim (Bool-cases (is_exempt ctx own)) [
        | inl e ↦ rw e refl
        | inr e ↦ rw e (
            verdict_below_zero _
              (below_zero
                (score_contents p q suffixes config ctx msg s
                  (score_rules p config ctx msg.fields s.from_addr own filed)).total
                (omega (arith, all.bound)))
              t)
      ]
    where
      decided :
          (ctx : Context)
          → ctx.user_not_spam ≡ true
          → Under 1001 (score_decision config ctx blank_score)
      decided ctx u =
          rw (u, rule_weight_plain config plain (codes "user-not-spam") (negsuc 998))
            record { bound = omega arith }
