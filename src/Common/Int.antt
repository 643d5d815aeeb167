-- ===== src/Common/Int.antt =====
-- Signed integers over the native numbers: `negsuc n` is -(n + 1).
use Prim.Native.Nat.{ℕ, suc, ◌+◌, ◌-◌, ◌*◌}
use mathlib.Core.Path.{◌≡◌}
use mathlib.Core.Logic.{◌↔◌, inl, inr}
use mathlib.Core.Bool.{Bool, true, false}
use native.Mathlib.Omega.{arith}
use mailove.Common.Tests.{ltb, leb, ◌==◌, if◌then◌else◌, Bool-cases}

pub data ℤ : Type 0 where
  pos : ℕ → ℤ
  negsuc : ℕ → ℤ

unfoldable pub less_int : ℤ → ℤ → Bool
less_int (pos m) (pos n) = ltb m n
less_int (pos m) (negsuc n) = false
less_int (negsuc m) (pos n) = true
less_int (negsuc m) (negsuc n) = ltb n m

unfoldable pub equal_int : ℤ → ℤ → Bool
equal_int (pos m) (pos n) = m == n
equal_int (pos m) (negsuc n) = false
equal_int (negsuc m) (pos n) = false
equal_int (negsuc m) (negsuc n) = m == n

pub less_int_irrefl : (x : ℤ) → less_int x x ≡ false
unfolding less_int
less_int_irrefl (pos m) = ground arith
less_int_irrefl (negsuc m) = ground arith

pub less_int_asymm : (x y : ℤ) → less_int x y ≡ true → less_int y x ≡ false
unfolding less_int
less_int_asymm (pos m) (pos n) h = ground arith
less_int_asymm (pos m) (negsuc n) h = ground arith
less_int_asymm (negsuc m) (pos n) h = ground arith
less_int_asymm (negsuc m) (negsuc n) h = ground arith

pub less_int_trans : (x y z : ℤ) → less_int x y ≡ true → less_int y z ≡ true → less_int x z ≡ true
unfolding less_int
less_int_trans (pos x) (pos y) (pos z) h k = ground arith
less_int_trans (pos x) (pos y) (negsuc z) h k = ground arith
less_int_trans (pos x) (negsuc y) z h k = ground arith
less_int_trans (negsuc x) (pos y) (pos z) h k = ground arith
less_int_trans (negsuc x) (pos y) (negsuc z) h k = ground arith
less_int_trans (negsuc x) (negsuc y) (pos z) h k = ground arith
less_int_trans (negsuc x) (negsuc y) (negsuc z) h k = ground arith

pub less_int_total : (x y : ℤ) → less_int x y ≡ false → less_int y x ≡ false → x ≡ y
unfolding less_int
less_int_total (pos m) (pos n) h k = ground arith
less_int_total (pos m) (negsuc n) h k = ground arith
less_int_total (negsuc m) (pos n) h k = ground arith
less_int_total (negsuc m) (negsuc n) h k = ground arith

pub equal_int_iff : (x y : ℤ) → (equal_int x y ≡ true) ↔ (x ≡ y)
unfolding equal_int
equal_int_iff (pos m) (pos n) = ground arith
equal_int_iff (pos m) (negsuc n) = ground arith
equal_int_iff (negsuc m) (pos n) = ground arith
equal_int_iff (negsuc m) (negsuc n) = ground arith

-- m - n of two natural numbers
unfoldable pub difference : ℕ → ℕ → ℤ
difference m n = if leb n m then pos (m - n) else negsuc (n - m - 1)

infixl 60 ◌+ℤ◌ ◌-ℤ◌
unfoldable pub ◌+ℤ◌ : ℤ → ℤ → ℤ
unfolding difference
pos m +ℤ pos n = pos (m + n)
pos m +ℤ negsuc n = difference m (suc n)
negsuc m +ℤ pos n = difference n (suc m)
negsuc m +ℤ negsuc n = negsuc (m + n + 1)

unfoldable pub ◌-ℤ◌ : ℤ → ℤ → ℤ
unfolding difference
pos m -ℤ pos n = difference m n
pos m -ℤ negsuc n = pos (m + n + 1)
negsuc m -ℤ pos n = negsuc (m + n)
negsuc m -ℤ negsuc n = difference n m

-- (k + 1) times a number
unfoldable pub scale : ℕ → ℤ → ℤ
scale k (pos n) = pos (suc k * n)
scale k (negsuc n) = negsuc (suc k * n + k)

unfoldable pub min_int : ℤ → ℤ → ℤ
unfolding less_int
min_int x y = if less_int y x then y else x

-- What fits in the room that is left keeps the sum within the bound.
pub less_int-sum :
    (bound sum x : ℤ) → less_int (bound -ℤ sum) x ≡ false → less_int bound (sum +ℤ x) ≡ false
unfolding less_int ◌+ℤ◌ ◌-ℤ◌
less_int-sum (pos b) (pos s) (pos x) h = ground arith
less_int-sum (pos b) (pos s) (negsuc x) h = ground arith
less_int-sum (pos b) (negsuc s) (pos x) h = ground arith
less_int-sum (pos b) (negsuc s) (negsuc x) h = ground arith
less_int-sum (negsuc b) (pos s) (pos x) h = ground arith
less_int-sum (negsuc b) (pos s) (negsuc x) h = ground arith
less_int-sum (negsuc b) (negsuc s) (pos x) h = ground arith
less_int-sum (negsuc b) (negsuc s) (negsuc x) h = ground arith

pub min_int_le : (x y : ℤ) → less_int y (min_int x y) ≡ false
unfolding min_int
min_int_le x y = elim (Bool-cases (less_int y x)) [
  | inl e ↦ ground (arith, less_int_irrefl y)
  | inr e ↦ ground arith
]
