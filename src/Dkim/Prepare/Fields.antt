-- ===== src/Dkim/Prepare/Fields.antt =====
-- Which field an entry of h= takes.
use mailove.Common.{
  true, false, List, [], ◌∷◌, ◌++◌, ◌≡◌, refl, ap, Option, none, some, Bytes, All, ◌⊎◌, to_lower,
  equal_iff, Option-cases, inl, inr, arith,
}
use mailove.Dkim.Fields.{Field}
use mailove.Dkim.Prepare.{matches, take_last, mark_used}

-- A field of the name that no entry has taken yet.
abbrev pub Fits : Bytes → Field → Type 0
Fits name f = (f.used ≡ false) × (to_lower f.name ≡ name)

matches-Fits : (name : Bytes) (f : Field) → matches name f ≡ true → Fits name f
unfolding matches
matches-Fits name f m = ground (arith, equal_iff (to_lower f.name) name)

matches-not_Fits : (name : Bytes) (f : Field) → matches name f ≡ false → ¬ Fits name f
unfolding matches
matches-not_Fits name f m h = ground (arith, equal_iff (to_lower f.name) name)

-- The fields around the one that is taken.
pub record TakesLast (name : Bytes) (fields : List Field) (f : Field) (rest : List Field)
    : Type 0 where
  pub before : List Field
  pub after : List Field
  pub splits : fields ≡ before ++ (f ∷ after)
  pub marks : rest ≡ before ++ (record f { used = true } ∷ after)
  pub fits : Fits name f
  pub none_after : All (λ g. ¬ Fits name g) after

take_last_none :
    (name : Bytes) (fields : List Field)
    → take_last name fields ≡ none
    → All (λ g. ¬ Fits name g) fields
unfolding take_last
take_last_none name [] e = tt
take_last_none name (x ∷ xs) e = elim (Option-cases (take_last name xs)) [
  | inl q ↦ (matches-not_Fits name x (ground arith), take_last_none name xs (ground arith))
  | inr (r, q) ↦ ground arith
]

module _ (name : Bytes) (x : Field) (xs : List Field) where
  take_last_here :
      take_last name xs ≡ none
      → matches name x ≡ true
      → TakesLast name (x ∷ xs) x (mark_used x ∷ xs)
  take_last_here q m = record {
    before = [];
    after = xs;
    splits = refl;
    marks = refl;
    fits = matches-Fits name x m;
    none_after = take_last_none name xs q;
  }

  take_last_later :
      (f : Field) (ys : List Field) → TakesLast name xs f ys → TakesLast name (x ∷ xs) f (x ∷ ys)
  take_last_later f ys t = record {
    before = x ∷ t.before;
    after = t.after;
    splits = ap (◌∷◌ x) t.splits;
    marks = ap (◌∷◌ x) t.marks;
    fits = t.fits;
    none_after = t.none_after;
  }

take_last_step :
    (name : Bytes) (x : Field) (xs : List Field) (f : Field) (rest : List Field)
    → take_last name (x ∷ xs) ≡ some (f, rest)
    → ((take_last name xs ≡ none) × (matches name x ≡ true) × (f ≡ x) × (rest ≡ mark_used x ∷ xs))
      ⊎ ((ys : List Field) × (take_last name xs ≡ some (f, ys)) × (rest ≡ x ∷ ys))
unfolding take_last
take_last_step name x xs f rest e = elim (Option-cases (take_last name xs)) [
  | inl q ↦ inl (ground arith)
  | inr ((g, ys), q) ↦ inr (ys, ground arith, ground arith)
]

take_last_marked :
    (name : Bytes) (fields : List Field) (f : Field) (rest : List Field)
    → take_last name fields ≡ some (f, rest)
    → TakesLast name fields f rest
take_last_marked name [] f rest e = absurd (unfold take_last in cc)
take_last_marked name (x ∷ xs) f rest e = elim (take_last_step name x xs f rest e) [
  | inl (q, m, same, marked) ↦ rw (same, marked) (take_last_here name x xs q m)
  | inr (ys, q, later) ↦ rw later (take_last_later name x xs f ys (take_last_marked name xs f ys q))
]

-- What an entry of h= finds and leaves.
pub data Taken (name : Bytes) (fields : List Field) : Option (Field × List Field) → Type 0 where
  taken :
      {f : Field} {rest : List Field}
      → TakesLast name fields f rest
      → Taken name fields (some (f, rest))
  missed : All (λ f. ¬ Fits name f) fields → Taken name fields none

-- An entry of h= takes the last field of its name that no earlier entry took: that field is marked,
-- the others stay as they are, and no field after it would fit. It takes none exactly if no field
-- fits.
pub take_last_lem : (name : Bytes) (fields : List Field) → Taken name fields (take_last name fields)
take_last_lem name fields = elim (Option-cases (take_last name fields)) [
  | inl e ↦ rw e (missed (take_last_none name fields e))
  | inr ((f, rest), e) ↦ rw e (taken (take_last_marked name fields f rest e))
]
