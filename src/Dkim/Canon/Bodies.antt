-- ===== src/Dkim/Canon/Bodies.antt =====
-- The canonical forms of a body, and the simple form of a field: how they end.
use mailove.Common.{
  ℕ, zero, suc, ◌+◌, ◌-◌, ◌≤◌, true, false, [], ◌∷◌, ◌++◌, ◌≡◌, refl, sym, ap, ◌∙◌, ◌⊎◌, inl, inr,
  if◌then◌else◌, Bytes, crlf, is_empty, equal, ends_with, ends_with-append, ends_with-front, chop,
  chop-append, length, length-append, length-take_of_le, append_assoc, Bool-cases, arith,
}
use mailove.Dkim.Canon.{chop_while, chop_blank_lines, body_simple, blank_line}

-- One round of `while (b.endsWith(suffix)) b.chop(n)`.
length-chop :
    (n : ℕ) (p b : Bytes) → n ≤ length p → ends_with p b ≡ true → length (chop n b) + n ≡ length b
unfolding chop
length-chop n p b h e =
    let (a, q) = ends_with-front p b e in
    let l : length b ≡ length a + length p = ap length q ∙ length-append a p in
    omega (arith, length-take_of_le (length b - n) b)

-- With its length as fuel the loop ends by its test.
chop_while_ends :
    (fuel : ℕ) (x : ℕ) (p : Bytes) (n : ℕ) (b : Bytes)
    → length b ≤ fuel
    → 1 ≤ n
    → n ≤ length (x ∷ p)
    → ends_with (x ∷ p) (chop_while fuel (x ∷ p) n b) ≡ false
unfolding chop_while
chop_while_ends zero x p n [] h l m = unfold ends_with in unfold equal in refl
chop_while_ends zero x p n (c ∷ b) h l m = absurd (omega arith)
chop_while_ends (suc fuel) x p n b h l m = elim (Bool-cases (ends_with (x ∷ p) b)) [
  | inl e ↦
      rw (e, chop_while)
        (chop_while_ends fuel x p n (chop n b) (omega (arith, length-chop n (x ∷ p) b m e)) l m)
  | inr e ↦ rw (e, chop_while) e
]

-- More fuel than the length does not matter.
chop_while_fuel :
    (fuel more : ℕ) (x : ℕ) (p : Bytes) (n : ℕ) (b : Bytes)
    → length b ≤ fuel
    → length b ≤ more
    → 1 ≤ n
    → n ≤ length (x ∷ p)
    → chop_while fuel (x ∷ p) n b ≡ chop_while more (x ∷ p) n b
unfolding chop_while
chop_while_fuel zero zero x p n b h k l m = refl
chop_while_fuel zero (suc more) x p n [] h k l m = unfold ends_with in unfold equal in refl
chop_while_fuel zero (suc more) x p n (c ∷ b) h k l m = absurd (omega arith)
chop_while_fuel (suc fuel) zero x p n [] h k l m = unfold ends_with in unfold equal in refl
chop_while_fuel (suc fuel) zero x p n (c ∷ b) h k l m = absurd (omega arith)
chop_while_fuel (suc fuel) (suc more) x p n b h k l m = elim (Bool-cases (ends_with (x ∷ p) b)) [
  | inl e ↦
      let s = length-chop n (x ∷ p) b m e in
      rw (e, chop_while)
        (chop_while_fuel fuel more x p n (chop n b) (omega arith) (omega arith) l m)
  | inr e ↦ rw (e, chop_while)
]

ends_crlf : (a : Bytes) → ends_with crlf (a ++ crlf) ≡ true
ends_crlf a = ends_with-append a crlf

blank_line-front :
    (b : Bytes) → ends_with blank_line b ≡ true → (a : Bytes) × (b ≡ (a ++ crlf) ++ crlf)
blank_line-front b e =
    let (a, p) = ends_with-front blank_line b e in (a, p ∙ sym (append_assoc a crlf crlf))

chop-crlf : (a : Bytes) → chop 2 (a ++ crlf) ≡ a
chop-crlf a = chop-append a crlf

pub chop_blank_lines-ends : (b : Bytes) → ends_with blank_line (chop_blank_lines b) ≡ false
unfolding chop_blank_lines
chop_blank_lines-ends b =
    chop_while_ends (length b) 13 (10 ∷ 13 ∷ 10 ∷ []) 2 b (omega arith) (omega arith) (omega arith)

chop_blank_lines-no : (b : Bytes) → ends_with blank_line b ≡ false → chop_blank_lines b ≡ b
unfolding chop_blank_lines chop_while
chop_blank_lines-no [] e = refl
chop_blank_lines-no (c ∷ b) e = rw (e, chop_while)

chop_while_yes :
    (fuel : ℕ) (suffix : Bytes) (n : ℕ) (b : Bytes)
    → ends_with suffix b ≡ true
    → chop_while (suc fuel) suffix n b ≡ chop_while fuel suffix n (chop n b)
unfolding chop_while
chop_while_yes fuel suffix n b h = rw (h, chop_while)

-- A blank line at the end is chopped.
pub chop_blank_lines-blank :
    (a : Bytes) → chop_blank_lines ((a ++ crlf) ++ crlf) ≡ chop_blank_lines (a ++ crlf)
unfolding chop_blank_lines
chop_blank_lines-blank a =
    let c = a ++ crlf in
    let longer : suc (length c) ≤ length (c ++ crlf) = omega (arith, length-append c crlf) in
    chop_while_fuel (length (c ++ crlf)) (suc (length (c ++ crlf))) 13 (10 ∷ 13 ∷ 10 ∷ []) 2
      (c ++ crlf) (omega arith) (omega arith) (omega arith) (omega arith)
    ∙ chop_while_yes (length (c ++ crlf)) blank_line 2 (c ++ crlf)
        (rw (append_assoc a crlf crlf) (ends_with-append a blank_line))
    ∙ rw (chop-crlf c) (
        chop_while_fuel (length (c ++ crlf)) (length c) 13 (10 ∷ 13 ∷ 10 ∷ []) 2 c (omega arith)
          (omega arith) (omega arith) (omega arith))

-- What is left of lines is nothing, or lines.
abbrev pub IsLines : Bytes → Type 0
IsLines b = (b ≡ []) ⊎ (ends_with crlf b ≡ true)

pub chop_while-IsLines :
    (fuel : ℕ) (b : Bytes) → IsLines b → IsLines (chop_while fuel blank_line 2 b)
unfolding chop_while
chop_while-IsLines zero b h = h
chop_while-IsLines (suc fuel) b h = elim (Bool-cases (ends_with blank_line b)) [
  | inl e ↦
      let (a, p) = blank_line-front b e in
      rw (e, chop_while)
        (chop_while-IsLines fuel (chop 2 b) (inr (rw p (rw (chop-crlf (a ++ crlf)) (ends_crlf a)))))
  | inr e ↦ rw (e, chop_while) h
]

add_line_end-blank :
    (b : Bytes) → ends_with crlf b ≡ false → ends_with blank_line (b ++ crlf) ≡ false
add_line_end-blank b n = elim (Bool-cases (ends_with blank_line (b ++ crlf))) [
  | inl e ↦
      let (a, p) = blank_line-front (b ++ crlf) e in
      let q : b ≡ a ++ crlf = sym (chop-crlf b) ∙ ap (chop 2) p ∙ chop-crlf (a ++ crlf) in
      let y : ends_with crlf b ≡ true = rw q (ends_crlf a) in cc
  | inr e ↦ e
]

-- The last lines of bodySimple.
abbrev close_body : Bytes → Bytes
close_body b = if is_empty b then crlf else if ends_with crlf b then b else b ++ crlf

abbrev IsClosed : Bytes → Type 0
IsClosed b = (ends_with crlf b ≡ true) × (ends_with blank_line b ≡ false)

close_body-IsClosed : (b : Bytes) → ends_with blank_line b ≡ false → IsClosed (close_body b)
unfolding is_empty
close_body-IsClosed [] h = unfold ends_with equal in (refl, refl)
close_body-IsClosed (c ∷ b) h = elim (Bool-cases (ends_with crlf (c ∷ b))) [
  | inl e ↦ rw e (e, h)
  | inr e ↦ rw e (ends_crlf (c ∷ b), add_line_end-blank (c ∷ b) e)
]

close_body-id : (b : Bytes) → ends_with crlf b ≡ true → close_body b ≡ b
unfolding is_empty
close_body-id [] e = unfold ends_with equal in cc
close_body-id (c ∷ b) e = rw e

-- The simple form of a body ends with a line end and not with an empty line, for every body.
pub body_simple-ends :
    (body : Bytes)
    → (ends_with crlf (body_simple body) ≡ true) × (ends_with blank_line (body_simple body) ≡ false)
unfolding body_simple
body_simple-ends body = close_body-IsClosed (chop_blank_lines body) (chop_blank_lines-ends body)

body_simple-id : (b : Bytes) → IsClosed b → body_simple b ≡ b
unfolding body_simple
body_simple-id b h = rw (chop_blank_lines-no b h.1) (close_body-id b h.0)

-- Taking the simple form again changes nothing, and empty lines added behind the last line do not
-- change it.
pub body_simple_idem :
    (body : Bytes)
    → (body_simple (body_simple body) ≡ body_simple body)
      × (body_simple ((body ++ crlf) ++ crlf) ≡ body_simple (body ++ crlf))
body_simple_idem body = (
  body_simple-id (body_simple body) (body_simple-ends body),
  unfold body_simple in rw (chop_blank_lines-blank body),
)

-- The simple form of a body ends with a line end and not with an empty line, for every body; taking
-- it again changes nothing; and empty lines added behind the last line do not change it.
pub body_simple_lem :
    (body : Bytes)
    → (ends_with crlf (body_simple body) ≡ true)
      × (ends_with blank_line (body_simple body) ≡ false)
      × (body_simple (body_simple body) ≡ body_simple body)
      × (body_simple ((body ++ crlf) ++ crlf) ≡ body_simple (body ++ crlf))
body_simple_lem body =
    let (a, b) = body_simple-ends body in let (c, d) = body_simple_idem body in (a, b, c, d)
