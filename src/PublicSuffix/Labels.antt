-- ===== src/PublicSuffix/Labels.antt =====
-- Labels between separators: split and join undo one another.
use mailove.Common.{
  ℕ, zero, suc, ◌-◌, ◌≤◌, false, List, [], ◌∷◌, ◌++◌, ◌≡◌, refl, ap, ◌∙◌, inl, inr, ◌==◌, Bytes,
  length, drop, All, split, split_cons, join, Bool-cases, arith,
}

-- No label holds the separator.
abbrev pub Lacks : ℕ → Bytes → Type 0
Lacks sep = All (λ c. (c == sep) ≡ false)

abbrev pub AreLabels : ℕ → List Bytes → Type 0
AreLabels sep = All (Lacks sep)

split_cons-AreLabels :
    (sep c : ℕ) (ls : List Bytes)
    → (c == sep) ≡ false
    → AreLabels sep ls
    → AreLabels sep (split_cons c ls)
unfolding split_cons
split_cons-AreLabels sep c [] h k = ((h, tt), tt)
split_cons-AreLabels sep c (p ∷ ps) h k = ((h, k.0), k.1)

pub split-AreLabels : (sep : ℕ) (s : Bytes) → AreLabels sep (split sep s)
unfolding split
split-AreLabels sep [] = (tt, tt)
split-AreLabels sep (c ∷ cs) = elim (Bool-cases (c == sep)) [
  | inl e ↦ rw e (tt, split-AreLabels sep cs)
  | inr e ↦ rw e (split_cons-AreLabels sep c (split sep cs) e (split-AreLabels sep cs))
]

split_cons_ne : (c : ℕ) (ls : List Bytes) → 1 ≤ length (split_cons c ls)
unfolding split_cons
split_cons_ne c [] = omega arith
split_cons_ne c (p ∷ ps) = omega arith

-- There is always one piece at least.
pub split_pos : (sep : ℕ) (s : Bytes) → 1 ≤ length (split sep s)
unfolding split
split_pos sep [] = omega arith
split_pos sep (c ∷ cs) = ground (arith, split_cons_ne c (split sep cs))

join_cons :
    (sep : ℕ) (p q : Bytes) (ls : List Bytes)
    → join sep (p ∷ q ∷ ls) ≡ p ++ (sep ∷ join sep (q ∷ ls))
unfolding join
join_cons sep p q ls = refl

split-lone : (sep : ℕ) (p : Bytes) → Lacks sep p → split sep p ≡ p ∷ []
unfolding split split_cons
split-lone sep [] h = refl
split-lone sep (c ∷ p) h = ground (arith, split-lone sep p h.1)

split-front :
    (sep : ℕ) (p rest : Bytes) → Lacks sep p → split sep (p ++ (sep ∷ rest)) ≡ p ∷ split sep rest
unfolding split split_cons
split-front sep [] rest h = ground arith
split-front sep (c ∷ p) rest h = ground (arith, split-front sep p rest h.1)

-- Labels that lack the separator are read back from their join.
pub split-join :
    (sep : ℕ) (p : Bytes) (ls : List Bytes)
    → AreLabels sep (p ∷ ls)
    → split sep (join sep (p ∷ ls)) ≡ p ∷ ls
split-join sep p [] h = unfold join in split-lone sep p h.0
split-join sep p (q ∷ ls) h =
    ap (split sep) (join_cons sep p q ls)
    ∙ split-front sep p (join sep (q ∷ ls)) h.0
    ∙ ap (◌∷◌ p) (split-join sep q ls h.1)

pub drop-AreLabels : (sep n : ℕ) (ls : List Bytes) → AreLabels sep ls → AreLabels sep (drop n ls)
drop-AreLabels sep zero ls h = h
drop-AreLabels sep (suc n) [] h = h
drop-AreLabels sep (suc n) (p ∷ ls) h = drop-AreLabels sep n ls h.1

pub length-drop {ℓ} : {A : Type ℓ} (n : ℕ) (xs : List A) → length (drop n xs) ≡ length xs - n
length-drop zero xs = omega arith
length-drop (suc n) [] = omega arith
length-drop (suc n) (x ∷ xs) = omega (arith, length-drop n xs)
