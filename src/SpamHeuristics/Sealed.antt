-- ===== src/SpamHeuristics/Sealed.antt =====
-- What a sealed relay (arc=pass) excuses.
use mailove.Common.{Bool, true, false, ◌&&◌, ◌≡◌, refl, List, Bytes}
use mailove.PublicSuffix.{PublicSuffixList}
use mailove.SpamHeuristics.{SpamPlatform, SpamConfig}
use mailove.SpamHeuristics.Fields.{Field}
use mailove.SpamHeuristics.Words.{TextPlatform}
use mailove.SpamHeuristics.Scoring.{
  Score, Context, is_auth_failed, is_from_own, is_exempt, score_decision, score_junk_content,
  score_authentication, score_known_contact, score_familiarity, is_familiar_org, score_tld,
  score_thread, score_pgp, score_rules, blank_score,
}
use mailove.SpamHeuristics.Header.{Sender, score_brand, score_reply_to}
use mailove.SpamHeuristics.Content.{
  Message, sender_of, score_recipients, score_contents, score_head,
}

and_false : (b : Bool) → (b && false) ≡ false
and_false true = refl
and_false false = refl

-- The context with the two failures set to what is given.
abbrev pub accused : Bool → Bool → Context → Context
accused failed soft_failed ctx = record ctx { auth_failed = failed; auth_soft_failed = soft_failed }

module _ (p : SpamPlatform) (q : TextPlatform) (suffixes : PublicSuffixList) (config : SpamConfig)
    (ctx : Context) (failed soft_failed : Bool) where
  score_rules-arc :
      (fields : List Field) (from_addr : Bytes) (own : Bool) (out : Score)
      → ctx.arc_passed ≡ true
      → score_rules p config (accused failed soft_failed ctx) fields from_addr own out
        ≡ score_rules p config ctx fields from_addr own out
  unfolding is_auth_failed score_rules score_junk_content score_authentication score_known_contact
      score_familiarity is_familiar_org score_tld score_thread score_pgp
  score_rules-arc fields from_addr own out h = simp (h, and_false)

  score_contents-arc :
      (msg : Message) (s : Sender) (out : Score)
      → score_contents p q suffixes config (accused failed soft_failed ctx) msg s out
        ≡ score_contents p q suffixes config ctx msg s out
  unfolding score_contents score_brand score_reply_to score_recipients is_familiar_org
  score_contents-arc msg s out = refl

  is_exempt-arc :
      (own : Bool)
      → ctx.arc_passed ≡ true
      → is_exempt (accused failed soft_failed ctx) own ≡ is_exempt ctx own
  unfolding is_exempt is_auth_failed
  is_exempt-arc own h = simp (h, and_false)

  -- With arc=pass, neither a failure nor a soft failure of the sender's authentication changes the
  -- score of a message whose body is not there yet: no rule on its header, hit or verdict.
  pub score_head-arc :
      (msg : Message)
      → ctx.arc_passed ≡ true
      → score_head p q suffixes config (accused failed soft_failed ctx) msg
        ≡ score_head p q suffixes config ctx msg
  unfolding score_head score_decision is_from_own
  score_head-arc msg h =
      let s = sender_of p suffixes msg in
      let own = is_from_own ctx s.from_addr in
      let filed = score_decision config ctx blank_score in
      let marked = score_rules p config ctx msg.fields s.from_addr own filed in
      rw
        (
          is_exempt-arc own h,
          score_rules-arc msg.fields s.from_addr own filed h,
          score_contents-arc msg s marked,
        )
        refl
