-- ===== src/SpamHeuristics/Senders.antt =====
-- Who is exempt from scoring.
use mailove.Common.{
  Bool, true, false, ◌≡◌, refl, sym, subst, ◌↔◌, ◌⊎◌, inl, inr, List, Bytes, ℤ, Bool-cases, arith,
}
use mailove.SpamHeuristics.{SpamPlatform, SpamConfig}
use mailove.SpamHeuristics.Fields.{Field}
use mailove.SpamHeuristics.Rules.{score_decision_keeps, score_rules_keeps}
use mailove.SpamHeuristics.Scoring.{
  Score, Context, append_hit, hit, is_zero, rule_weight, is_auth_failed, is_from_own, is_exempt,
  score_decision, blank_score, score_sender,
}

-- Someone vouches for the message: the server for a correspondent's domain, or for a login behind
-- the user's own address.
abbrev pub IsVouchedFor : Context → Bytes → Type 0
IsVouchedFor ctx from_addr =
    ((ctx.known_correspondent ≡ true) × (ctx.auth_passed ≡ true))
    ⊎ ((is_from_own ctx from_addr ≡ true) × (ctx.auth_submitted ≡ true))

-- Nothing speaks against it: no failure but one that a sealed relay explains, the junk folder does
-- not hold it, and the caller does not ask for a score all the same.
abbrev pub IsUnopposed : Context → Type 0
IsUnopposed ctx =
    ((ctx.auth_failed ≡ false) ⊎ (ctx.arc_passed ≡ true))
    × (ctx.in_junk_folder ≡ false)
    × (ctx.always_score ≡ false)

is_exempt_iff :
    (ctx : Context) (from_addr : Bytes)
    → (is_exempt ctx (is_from_own ctx from_addr) ≡ true)
      ↔ (IsVouchedFor ctx from_addr × IsUnopposed ctx)
unfolding is_exempt is_auth_failed
is_exempt_iff ctx from_addr = ground arith

abbrev Unmarked : Score → Type 0
Unmarked out = out.exempt ≡ false

hit-Unmarked :
    (config : SpamConfig) (id : Bytes) (weight : ℤ) (out : Score)
    → Unmarked out
    → Unmarked (hit config id weight out)
unfolding hit append_hit
hit-Unmarked config id weight out u = elim (Bool-cases (is_zero (rule_weight config id weight))) [
  | inl e ↦ rw e u
  | inr e ↦ rw e u
]

exempt_iff :
    (p : SpamPlatform) (config : SpamConfig) (ctx : Context) (fields : List Field)
    (from_addr : Bytes)
    → (score_sender p config ctx fields from_addr).exempt
      ≡ is_exempt ctx (is_from_own ctx from_addr)
unfolding score_sender
exempt_iff p config ctx fields from_addr =
    let own = is_from_own ctx from_addr in
    let filed = score_decision config ctx blank_score in
    elim (Bool-cases (is_exempt ctx own)) [
      | inl e ↦ rw e refl
      | inr e ↦ rw e (
          score_rules_keeps Unmarked config (hit-Unmarked config) p ctx fields from_addr own filed
            (score_decision_keeps Unmarked config (hit-Unmarked config) ctx blank_score refl))
    ]

-- A message is exempt exactly if someone vouches for it (the server for the domain of a
-- correspondent, or for a login behind the user's own address) and nothing speaks against it: no
-- authentication failure without arc=pass, not the junk folder, and no request to score always.
pub score_sender-exempt :
    (p : SpamPlatform) (config : SpamConfig) (ctx : Context) (fields : List Field)
    (from_addr : Bytes)
    → ((score_sender p config ctx fields from_addr).exempt ≡ true)
      ↔ (IsVouchedFor ctx from_addr × IsUnopposed ctx)
score_sender-exempt p config ctx fields from_addr =
    subst (λ (b : Bool). (b ≡ true) ↔ (IsVouchedFor ctx from_addr × IsUnopposed ctx))
      (sym (exempt_iff p config ctx fields from_addr)) (is_exempt_iff ctx from_addr)
