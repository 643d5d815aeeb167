-- ===== src/SpamHeuristics/Contents.antt =====
-- What every hit keeps, the rules on the header and the attachments keep, and the whole score of a
-- message whose body is not there yet.
use mailove.Common.{
  ℕ, refl, inl, inr, Bool, true, false, Option, none, some, zero, suc, List, [], ◌∷◌, Bytes, ℤ,
  if◌then◌else◌, Bool-cases,
}
use mailove.PublicSuffix.{PublicSuffixList}
use mailove.SpamHeuristics.{SpamPlatform, SpamConfig}
use mailove.SpamHeuristics.Fields.{Field}
use mailove.SpamHeuristics.Header.{
  hit_if, Sender, score_display_name, score_brand, score_from_domain, score_reply_to, score_id_host,
  score_message_id, score_relays, score_date,
}
use mailove.SpamHeuristics.Content.{
  score_script, score_mailer, score_subject, score_subject_text, score_cyrillic, score_recipients,
  score_programs, score_attachments, Message, sender_of, score_contents, score_head,
}
use mailove.SpamHeuristics.Rules.{score_decision_keeps, score_rules_keeps}
use mailove.SpamHeuristics.Scoring.{
  Score, Context, hit, blank_score, score_decision, is_exempt, is_from_own, set_verdict,
}
use mailove.SpamHeuristics.Totals.{IsSummed, hit-IsSummed, marked, sum_from}
use mailove.SpamHeuristics.Words.{TextPlatform}

module _ (P : Score → Type 0) (config : SpamConfig)
    (hit_keeps : (id : Bytes) (weight : ℤ) (out : Score) → P out → P (hit config id weight out))
    (p : SpamPlatform) (q : TextPlatform) (suffixes : PublicSuffixList) where
  if_keeps : (b : Bool) (x y : Score) → P x → P y → P (if b then x else y)
  if_keeps true x y s t = s
  if_keeps false x y s t = t

  hit_if_keeps :
      (b : Bool) (id : Bytes) (weight : ℤ) (out : Score) → P out → P (hit_if config b id weight out)
  unfolding hit_if
  hit_if_keeps b id weight out h = if_keeps b _ out (hit_keeps id weight out h) h

  module _ (out : Score) (h : P out) where
    score_display_name_keeps : (s : Sender) → P (score_display_name p q suffixes config s out)
    unfolding score_display_name
    score_display_name_keeps s = search hit_if_keeps depth 12

    score_brand_keeps : (ctx : Context) (s : Sender) → P (score_brand p q config ctx s out)
    unfolding score_brand
    score_brand_keeps ctx s = search hit_if_keeps depth 12

    score_from_domain_keeps : (s : Sender) → P (score_from_domain p q config s out)
    unfolding score_from_domain
    score_from_domain_keeps s = search hit_if_keeps depth 12

    score_reply_to_keeps :
        (ctx : Context) (fields : List Field) (s : Sender)
        → P (score_reply_to p suffixes config ctx fields s out)
    unfolding score_reply_to
    score_reply_to_keeps ctx fields s = search hit_if_keeps depth 12

    score_relays_keeps : (fields : List Field) → P (score_relays p config fields out)
    unfolding score_relays
    score_relays_keeps fields = search (if_keeps, hit_keeps) depth 12

    score_date_keeps : (fields : List Field) → P (score_date p q config fields out)
    unfolding score_date
    score_date_keeps fields = search (if_keeps, hit_keeps, hit_if_keeps) depth 12

    score_script_keeps : (fields : List Field) → P (score_script p q config fields out)
    unfolding score_script
    score_script_keeps fields = search (if_keeps, hit_keeps) depth 12

    score_mailer_keeps : (fields : List Field) → P (score_mailer p config fields out)
    unfolding score_mailer
    score_mailer_keeps fields = search hit_if_keeps depth 12

    score_subject_text_keeps :
        (raw subject : Bytes) → P (score_subject_text p q config raw subject out)
    unfolding score_subject_text
    score_subject_text_keeps raw subject = search hit_if_keeps depth 12

    score_subject_keeps : (raw subject : Bytes) → P (score_subject p q config raw subject out)
    unfolding score_subject
    score_subject_keeps raw subject = search (if_keeps, score_subject_text_keeps) depth 12

    score_cyrillic_keeps : (subject name : Bytes) → P (score_cyrillic q config subject name out)
    unfolding score_cyrillic
    score_cyrillic_keeps subject name = search hit_if_keeps depth 12

    score_recipients_keeps :
        (ctx : Context) (fields : List Field) → P (score_recipients p config ctx fields out)
    unfolding score_recipients
    score_recipients_keeps ctx fields = search (if_keeps, hit_keeps, hit_if_keeps) depth 12

    score_id_host_keeps : (msgid : Bytes) (at : Option ℕ) → P (score_id_host p config msgid at out)
    unfolding score_id_host
    score_id_host_keeps msgid none = hit_keeps _ _ out h
    score_id_host_keeps msgid (some zero) = hit_keeps _ _ out h
    score_id_host_keeps msgid (some (suc at)) = hit_if_keeps _ _ _ out h

    score_message_id_keeps : (fields : List Field) → P (score_message_id p config fields out)
    unfolding score_message_id
    score_message_id_keeps fields = search (if_keeps, hit_keeps, score_id_host_keeps) depth 9

    score_programs_keeps : (names : List Bytes) → P (score_programs p config names out)
    unfolding score_programs
    score_programs_keeps [] = h
    score_programs_keeps (name ∷ names) =
        let rest = score_programs_keeps names in search (if_keeps, hit_keeps) depth 9

  score_attachments_keeps :
      (msg : Message) (out : Score) → P out → P (score_attachments p config msg out)
  unfolding score_attachments
  score_attachments_keeps msg out h = search (score_programs_keeps, hit_if_keeps) depth 12

  pub score_contents_keeps :
      (ctx : Context) (msg : Message) (s : Sender) (out : Score)
      → P out
      → P (score_contents p q suffixes config ctx msg s out)
  unfolding score_contents
  score_contents_keeps ctx msg s out h =
      search
        (
          score_display_name_keeps, score_brand_keeps, score_from_domain_keeps,
          score_reply_to_keeps, score_message_id_keeps, score_relays_keeps, score_date_keeps,
          score_script_keeps, score_mailer_keeps, score_subject_keeps, score_cyrillic_keeps,
          score_recipients_keeps, score_attachments_keeps,
        )
        depth 16

judged : (config : SpamConfig) (out : Score) → IsSummed out → IsSummed (set_verdict config out)
unfolding set_verdict
judged config out s = record { sum = s.sum; counted = s.counted }

-- The score of a message whose body is not there yet, exempt or not, is the sum of the weights of its
-- hits, in their order, and no hit in it weighs nothing.
pub score_head-IsSummed :
    (p : SpamPlatform) (q : TextPlatform) (suffixes : PublicSuffixList) (config : SpamConfig)
    (ctx : Context) (msg : Message)
    → IsSummed (score_head p q suffixes config ctx msg)
unfolding score_head sum_from
score_head-IsSummed p q suffixes config ctx msg =
    let s = sender_of p suffixes msg in
    let own = is_from_own ctx s.from_addr in
    let filed = score_decision config ctx blank_score in
    let h : IsSummed filed =
      score_decision_keeps IsSummed config (hit-IsSummed config) ctx blank_score
        record { sum = refl; counted = tt } in
    let ruled =
      score_rules_keeps IsSummed config (hit-IsSummed config) p ctx msg.fields s.from_addr own filed
        h in
    elim (Bool-cases (is_exempt ctx own)) [
      | inl e ↦ rw e (marked filed h)
      | inr e ↦ rw e (
          judged config _ (
            score_contents_keeps IsSummed config (hit-IsSummed config) p q suffixes ctx msg s _
              ruled))
    ]
