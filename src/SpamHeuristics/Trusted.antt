-- ===== src/SpamHeuristics/Trusted.antt =====
-- Which verdicts count: those of a trusted method that is neither ARC nor a login.
use mailove.Common.{
  Bool, true, false, ◌||◌, ◌≡◌, ◌≢◌, ◌⊎◌, List, [], ◌∷◌, Bytes, codes, ends_with, equal,
  if◌then◌else◌,
}
use mailove.SpamHeuristics.{SpamConfig, auth_method_trusted, before_equals, after_equals}

abbrev pub AnyOf : (Bytes → Type 0) → List Bytes → Type 0
AnyOf P [] = ⊥
AnyOf P (v ∷ vs) = P v ⊎ AnyOf P vs

-- The verdict of a method that vouches for the sender and that the settings trust.
abbrev pub IsCounted : SpamConfig → Bytes → Type 0
IsCounted config v =
    (before_equals v ≢ codes "arc")
    × (before_equals v ≢ codes "auth")
    × (auth_method_trusted config (before_equals v) ≡ true)

-- A failure: of compauth the result fail alone, of another method any result that ends in fail, but
-- softfail, and permerror.
abbrev pub IsAccusation : Bytes → Type 0
IsAccusation v =
    ((before_equals v ≡ codes "compauth") × (after_equals v ≡ codes "fail"))
    ⊎ ((before_equals v ≢ codes "compauth")
        × (after_equals v ≢ codes "softfail")
        × ((ends_with (codes "fail") (after_equals v) ≡ true)
            ⊎ (after_equals v ≡ codes "permerror")))

-- The rest of the test, behind the guard.
abbrev accusing : Bytes → Bytes → Bool
accusing name result =
    if equal name (codes "compauth")
    then equal result (codes "fail")
    else if equal result (codes "softfail")
    then false
    else ends_with (codes "fail") result || equal result (codes "permerror")
