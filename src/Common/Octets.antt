-- ===== src/Common/Octets.antt =====
-- Byte strings and texts as lists of numbers, with the operations of QByteArray and QString that
-- the program uses. A QByteArray is a list of bytes, a QString a list of UTF-16 code units.
use Prim.Native.Nat.{ℕ, suc, ◌+◌, ◌-◌}
use Prim.Native.Char.{code}
use Prim.Native.String.{String}
use mathlib.Core.Path.{◌≡◌, refl, sym, ap, ◌∙◌}
use mathlib.Core.Logic.{◌↔◌, inl, inr}
use mathlib.Core.List.{List, [], ◌∷◌, ◌++◌}
use mathlib.Core.Bool.{Bool, true, false, ◌&&◌, ◌||◌}
use mathlib.Core.Option.{Option, none, some}
use native.Mathlib.Omega.{arith}
use mailove.Common.Tests.{leb, ◌==◌, if◌then◌else◌, Bool-cases}
use mailove.Common.Lists.{length, take, length-append, take-length-append}

abbrev pub Bytes : Type 0
Bytes = List ℕ

-- The code points of a literal; every literal here is ASCII.
abbrev pub codes : String → Bytes
codes String.[] = []
codes (String.◌∷◌ c s) = code c ∷ codes s

abbrev pub lf : ℕ
lf = 10

abbrev pub cr : ℕ
cr = 13

abbrev pub space : ℕ
space = 32

abbrev pub crlf : Bytes
crlf = 13 ∷ 10 ∷ []

-- operator==
unfoldable pub equal : Bytes → Bytes → Bool
equal [] [] = true
equal [] (d ∷ right) = false
equal (c ∷ left) [] = false
equal (c ∷ left) (d ∷ right) = c == d && equal left right

pub equal_iff : (left right : Bytes) → (equal left right ≡ true) ↔ (left ≡ right)
unfolding equal
equal_iff [] [] = ground arith
equal_iff [] (c ∷ right) = ground arith
equal_iff (c ∷ left) [] = ground arith
equal_iff (c ∷ left) (d ∷ right) = ground (arith, equal_iff left right)

unfoldable pub is_empty : Bytes → Bool
is_empty [] = true
is_empty (x ∷ xs) = false

unfoldable pub starts_with : Bytes → Bytes → Bool
starts_with [] b = true
starts_with (x ∷ p) [] = false
starts_with (x ∷ p) (y ∷ b) = x == y && starts_with p b

unfoldable pub ends_with : Bytes → Bytes → Bool
unfolding equal
ends_with p [] = equal p []
ends_with p (y ∷ b) = equal p (y ∷ b) || ends_with p b

-- chop(n): the last n bytes are removed
unfoldable pub chop : ℕ → Bytes → Bytes
chop n b = take (length b - n) b

pub ends_with-append : (b p : Bytes) → ends_with p (b ++ p) ≡ true
unfolding ends_with
ends_with-append [] [] = refl
ends_with-append [] (x ∷ p) = ground (arith, equal_iff (x ∷ p) (x ∷ p))
ends_with-append (x ∷ b) p = ground (arith, ends_with-append b p)

-- A text that ends with `p` is a front followed by `p`.
pub ends_with-front : (p b : Bytes) → ends_with p b ≡ true → (a : Bytes) × (b ≡ a ++ p)
unfolding ends_with
ends_with-front p [] h = ([], sym ((equal_iff p []).0 h))
ends_with-front p (y ∷ b) h = elim (Bool-cases (equal p (y ∷ b))) [
  | inl e ↦ ([], sym ((equal_iff p (y ∷ b)).0 e))
  | inr n ↦ let (a, e) = ends_with-front p b (ground arith) in (y ∷ a, ap (◌∷◌ y) e)
]

pub chop-append : (b p : Bytes) → chop (length p) (b ++ p) ≡ b
unfolding chop
chop-append b p =
    let e : length (b ++ p) - length p ≡ length b = omega (arith, length-append b p) in
    ap (λ (n : ℕ). take n (b ++ p)) e ∙ take-length-append b p

-- toLower() of a byte string changes the ASCII capitals only.
unfoldable pub lower_byte : ℕ → ℕ
lower_byte c = if leb b'A' c && leb c b'Z' then c + 32 else c

unfoldable pub to_lower : Bytes → Bytes
unfolding lower_byte
to_lower [] = []
to_lower (c ∷ cs) = lower_byte c ∷ to_lower cs

pub to_lower_idem : (b : Bytes) → to_lower (to_lower b) ≡ to_lower b
unfolding to_lower
to_lower_idem [] = refl
to_lower_idem (c ∷ cs) = ground (arith, to_lower_idem cs)

-- std::isspace in the C locale
unfoldable pub is_space : ℕ → Bool
is_space c = c == 32 || (leb 9 c && leb c 13)

unfoldable pub trim_left : Bytes → Bytes
unfolding is_space
trim_left [] = []
trim_left (c ∷ cs) = if is_space c then trim_left cs else c ∷ cs

-- Drops the spaces at the end: a byte stays if a byte that is no space follows or is it.
unfoldable pub trim_right : Bytes → Bytes
unfolding is_space is_empty
trim_right [] = []
trim_right (c ∷ cs) =
    let rest = trim_right cs in if is_empty rest && is_space c then [] else c ∷ rest

unfoldable pub trimmed : Bytes → Bytes
unfolding trim_left trim_right
trimmed b = trim_right (trim_left b)

-- split(sep): the pieces between the separators, always one at least
unfoldable pub split_cons : ℕ → List Bytes → List Bytes
split_cons c [] = (c ∷ []) ∷ []
split_cons c (p ∷ ps) = (c ∷ p) ∷ ps

unfoldable pub split : ℕ → Bytes → List Bytes
unfolding split_cons
split sep [] = [] ∷ []
split sep (c ∷ cs) = let rest = split sep cs in if c == sep then [] ∷ rest else split_cons c rest

-- join(sep)
unfoldable pub join : ℕ → List Bytes → Bytes
join sep [] = []
join sep (p ∷ []) = p
join sep (p ∷ q ∷ ps) = p ++ (sep ∷ join sep (q ∷ ps))

-- indexOf(c): the position of the first `c`
unfoldable pub index_of : ℕ → Bytes → Option ℕ
index_of c [] = none
index_of c (x ∷ xs) =
    if x == c then some 0 else elim (index_of c xs) [ none ↦ none | some i ↦ some (suc i) ]

-- contains
unfoldable pub contains : Bytes → List Bytes → Bool
unfolding equal
contains a [] = false
contains a (x ∷ xs) = equal a x || contains a xs

-- lastIndexOf(c), counted from `i`, with what was found before
unfoldable pub last_index_from : ℕ → Option ℕ → ℕ → Bytes → Option ℕ
last_index_from i found c [] = found
last_index_from i found c (x ∷ xs) = last_index_from (suc i) (if x == c then some i else found) c xs

unfoldable pub last_index_of : ℕ → Bytes → Option ℕ
unfolding last_index_from
last_index_of c b = last_index_from 0 none c b
