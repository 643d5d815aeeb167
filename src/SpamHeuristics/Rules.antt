-- ===== src/SpamHeuristics/Rules.antt =====
-- What every hit keeps, the rules on the sender keep.
use mailove.Common.{Bool, true, false, List, Bytes, ℤ, if◌then◌else◌}
use mailove.SpamHeuristics.{SpamPlatform, SpamConfig}
use mailove.SpamHeuristics.Fields.{Field, Upstream}
use mailove.SpamHeuristics.Scoring.{
  Score, Context, hit, score_decision, score_junk_content, score_authentication,
  score_known_contact, score_familiarity, score_tld, score_thread, score_upstream, score_pgp,
  score_rules,
}

module _ (P : Score → Type 0) (config : SpamConfig)
    (hit_keeps : (id : Bytes) (weight : ℤ) (out : Score)
      → P out
      → P (hit config id weight out)) where
  if_keeps : (b : Bool) (x y : Score) → P x → P y → P (if b then x else y)
  if_keeps true x y s t = s
  if_keeps false x y s t = t

  module _ (ctx : Context) (out : Score) (s : P out) where
    pub score_decision_keeps : P (score_decision config ctx out)
    unfolding score_decision
    score_decision_keeps = search if_keeps

    score_junk_content_keeps : P (score_junk_content config ctx out)
    unfolding score_junk_content
    score_junk_content_keeps = search if_keeps

    score_authentication_keeps : (own : Bool) → P (score_authentication config ctx own out)
    unfolding score_authentication
    score_authentication_keeps own = search if_keeps depth 9

    score_known_contact_keeps : (own : Bool) → P (score_known_contact config ctx own out)
    unfolding score_known_contact
    score_known_contact_keeps own = search if_keeps

    score_familiarity_keeps : P (score_familiarity config ctx out)
    unfolding score_familiarity
    score_familiarity_keeps = search if_keeps depth 9

    score_tld_keeps :
        (p : SpamPlatform) (from_addr : Bytes) → P (score_tld p config ctx from_addr out)
    unfolding score_tld
    score_tld_keeps p from_addr = search if_keeps

    score_thread_keeps : P (score_thread config ctx out)
    unfolding score_thread
    score_thread_keeps = search if_keeps

    score_upstream_keeps : (up : Upstream) → P (score_upstream config up out)
    unfolding score_upstream
    score_upstream_keeps up = search if_keeps depth 9

    score_pgp_keeps : P (score_pgp config ctx out)
    unfolding score_pgp
    score_pgp_keeps = search if_keeps

  pub score_rules_keeps :
      (p : SpamPlatform) (ctx : Context) (fields : List Field) (from_addr : Bytes) (own : Bool)
      (out : Score)
      → P out
      → P (score_rules p config ctx fields from_addr own out)
  unfolding score_rules
  score_rules_keeps p ctx fields from_addr own out s =
      search
        (
          score_junk_content_keeps, score_authentication_keeps, score_known_contact_keeps,
          score_familiarity_keeps, score_tld_keeps, score_thread_keeps, score_upstream_keeps,
          score_pgp_keeps,
        )
        depth 10
