-- ===== src/SpamHeuristics/Bounds.antt =====
-- How far the rules can raise a score when no weight of a rule is changed in the settings.
use mailove.Common.{
  ℕ, suc, ◌+◌, ◌-◌, ◌≤◌, Bool, true, false, ◌≡◌, refl, inl, inr, List, [], Bytes, ℤ, pos, negsuc,
  ◌+ℤ◌, leb, lookup, if◌then◌else◌, Bool-cases, arith,
}
use mailove.SpamHeuristics.{SpamPlatform, SpamConfig}
use mailove.SpamHeuristics.Fields.{Field, Upstream, read_upstream}
use mailove.SpamHeuristics.Scoring.{
  Score, Context, is_zero, weight_or, rule_weight, append_hit, hit, score_junk_content,
  score_authentication, score_known_contact, score_familiarity, score_tld, score_thread,
  score_upstream, score_pgp, score_rules,
}
use mailove.SpamHeuristics.Header.{hit_if}

-- A total above -2000, and what a weight adds to it.
unfoldable pub raised : ℤ → ℕ
raised (pos n) = 2000 + n
raised (negsuc n) = 2000 - suc n

unfoldable pub gain : ℤ → ℕ
gain (pos n) = n
gain (negsuc n) = 0

raised-add : (t w : ℤ) → raised (t +ℤ w) ≤ raised t + gain w
unfolding raised gain ◌+ℤ◌
raised-add (pos m) (pos n) = ground arith
raised-add (pos m) (negsuc n) = ground arith
raised-add (negsuc m) (pos n) = ground arith
raised-add (negsuc m) (negsuc n) = ground arith

pub record Under (n : ℕ) (out : Score) : Type 0 where
  pub bound : raised out.total ≤ n

module _ (config : SpamConfig) (plain : config.rule_weights ≡ []) where
  pub Under-if :
      {n : ℕ} (b : Bool) (x y : Score) → Under n x → Under n y → Under n (if b then x else y)
  Under-if true x y h k = h
  Under-if false x y h k = k

  pub later : (k : ℕ) {n : ℕ} {out : Score} → Under n out → Under (n + k) out
  later k h = record { bound = omega (arith, h.bound) }

  pub rule_weight_plain : (id : Bytes) (weight : ℤ) → rule_weight config id weight ≡ weight
  unfolding rule_weight weight_or lookup
  rule_weight_plain id weight = rw plain refl

  pub hit-Under :
      (k : ℕ) {n : ℕ} (id : Bytes) (weight : ℤ) (out : Score)
      → leb (gain weight) k ≡ true
      → Under n out
      → Under (n + k) (hit config id weight out)
  unfolding hit append_hit
  hit-Under k id weight out e h =
      rw (rule_weight_plain id weight) (elim (Bool-cases (is_zero weight)) [
        | inl z ↦ rw z (later k h)
        | inr z ↦ rw z record { bound = ground (arith, raised-add out.total weight, h.bound) }
      ])

  pub hit_if-Under :
      (k : ℕ) {n : ℕ} (b : Bool) (id : Bytes) (weight : ℤ) (out : Score)
      → leb (gain weight) k ≡ true
      → Under n out
      → Under (n + k) (hit_if config b id weight out)
  unfolding hit_if
  hit_if-Under k b id weight out e h = Under-if b _ out (hit-Under k id weight out e h) (later k h)

  -- The rules on the sender.
  module _ {n : ℕ} (ctx : Context) (out : Score) (h : Under n out) where
    score_junk_content-Under : Under (n + 50) (score_junk_content config ctx out)
    unfolding score_junk_content gain
    score_junk_content-Under = search (Under-if, later, hit-Under) depth 9

    score_authentication-Under :
        (own : Bool) → Under (n + 100) (score_authentication config ctx own out)
    unfolding score_authentication gain
    score_authentication-Under own = search (Under-if, later, hit-Under) depth 9

    score_known_contact-Under :
        (own : Bool) → Under (n + 0) (score_known_contact config ctx own out)
    unfolding score_known_contact gain
    score_known_contact-Under own = search (Under-if, later, hit-Under) depth 9

    score_familiarity-Under : Under (n + 25) (score_familiarity config ctx out)
    unfolding score_familiarity gain
    score_familiarity-Under = search (Under-if, later, hit-Under) depth 9

    score_tld-Under :
        (p : SpamPlatform) (from_addr : Bytes)
        → Under (n + 15) (score_tld p config ctx from_addr out)
    unfolding score_tld gain
    score_tld-Under p from_addr = search (Under-if, later, hit-Under) depth 9

    score_thread-Under : Under (n + 0) (score_thread config ctx out)
    unfolding score_thread gain
    score_thread-Under = search (Under-if, later, hit-Under) depth 9

    score_upstream-Under : (up : Upstream) → Under (n + 50) (score_upstream config up out)
    unfolding score_upstream gain
    score_upstream-Under up = search (Under-if, later, hit-Under) depth 9

    score_pgp-Under : Under (n + 0) (score_pgp config ctx out)
    unfolding score_pgp gain
    score_pgp-Under = search (Under-if, later, hit-Under) depth 9

  pub score_rules-Under :
      (p : SpamPlatform) (ctx : Context) (fields : List Field) (from_addr : Bytes) (own : Bool)
      {n : ℕ} (out : Score)
      → Under n out
      → Under (n + 240) (score_rules p config ctx fields from_addr own out)
  unfolding score_rules
  score_rules-Under p ctx fields from_addr own out h =
      let a = score_junk_content-Under ctx out h in
      let b = score_authentication-Under ctx _ a own in
      let c = score_known_contact-Under ctx _ b own in
      let d = score_familiarity-Under ctx _ c in
      let e = score_tld-Under ctx _ d p from_addr in
      let f = score_thread-Under ctx _ e in
      let g = score_upstream-Under ctx _ f (read_upstream p fields) in
      let i = score_pgp-Under ctx _ g in record { bound = omega (arith, i.bound) }
