-- ===== src/Dkim/Results/Order.antt =====
-- moreInformative is a strict weak order.
use mailove.Common.{
  ℕ, Bool, true, false, not, ◌&&◌, ◌≡◌, arith, ◌==◌, ltb, if◌then◌else◌, Bool-cases, inl, inr,
}
use mailove.Dkim.Results.{DkimResult, rank, more_informative}

-- The comparison on ranks and alignment alone.
abbrev beats : ℕ → Bool → ℕ → Bool → Bool
beats a s b t = if not (a == b) then ltb a b else s && not t

beats_trans :
    (a b c : ℕ) (s t u : Bool) → beats a s b t ≡ true → beats b t c u ≡ true → beats a s c u ≡ true
beats_trans a b c s t u h k = ground arith

beats_asymm : (a b : ℕ) (s t : Bool) → beats a s b t ≡ true → beats b t a s ≡ false
beats_asymm a b s t h = ground arith

beats_ties :
    (a b c : ℕ) (s t u : Bool)
    → beats a s b t ≡ false
    → beats b t c u ≡ false
    → beats a s c u ≡ false
beats_ties a b c s t u h k = ground arith

-- A verdict that beats a second one, which beats a third, beats the third.
pub more_informative_trans :
    (a b c : DkimResult)
    → more_informative a b ≡ true
    → more_informative b c ≡ true
    → more_informative a c ≡ true
unfolding more_informative
more_informative_trans a b c h k =
    beats_trans (rank a.status) (rank b.status) (rank c.status) a.aligned b.aligned c.aligned h k

-- No two verdicts beat each other, and none beats itself.
pub more_informative_asymm :
    (a b : DkimResult) → more_informative a b ≡ true → more_informative b a ≡ false
unfolding more_informative
more_informative_asymm a b h = beats_asymm (rank a.status) (rank b.status) a.aligned b.aligned h

-- If a verdict does not beat a second one, nor that a third, it does not beat the third.
pub more_informative_ties :
    (a b c : DkimResult)
    → more_informative a b ≡ false
    → more_informative b c ≡ false
    → more_informative a c ≡ false
unfolding more_informative
more_informative_ties a b c h k =
    beats_ties (rank a.status) (rank b.status) (rank c.status) a.aligned b.aligned c.aligned h k

pub more_informative_self : (a : DkimResult) → more_informative a a ≡ false
more_informative_self a = elim (Bool-cases (more_informative a a)) [
  | inl e ↦ more_informative_asymm a a e
  | inr e ↦ e
]

-- The verdicts are in a strict weak order: of three, the one that beats the second, which beats the
-- third, beats the third, and one that beats none in turn does not beat the last; no two beat each
-- other.
pub more_informative_order :
    (a b c : DkimResult)
    → (more_informative a b ≡ true → more_informative b c ≡ true → more_informative a c ≡ true)
      × (more_informative a b ≡ false → more_informative b c ≡ false → more_informative a c ≡ false)
      × (more_informative a b ≡ true → more_informative b a ≡ false)
more_informative_order a b c =
    (more_informative_trans a b c, more_informative_ties a b c, more_informative_asymm a b)
