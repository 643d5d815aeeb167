-- ===== src/Common/Rows/Sorted.antt =====
-- Sorted lists of indices: they are unique, and inserting keeps them sorted.
use mailove.Common.{
  ℕ, zero, suc, ◌<◌, ◌≡◌, refl, sym, subst, ◌∙◌, ◌≢◌, inl, inr, Bool, true, false, ◌||◌, List, [],
  ◌∷◌, ◌++◌, arith, ◌==◌, ==_iff, Bool-cases, length, take, drop, All,
}
use mailove.Common.Rows.{
  has_index, insert_row, sort_rows, Before, Ascending, All-has_index, All-of-has_index, All-append,
  All-take, All-drop,
}

-- No index stands twice.
abbrev pub Distinct : List ℕ → Type 0
Distinct [] = Unit
Distinct (i ∷ is) = (has_index i is ≡ false) × Distinct is

pub Before-trans :
    (less : ℕ → ℕ → Bool)
    → ((a b c : ℕ) → less a b ≡ true → less b c ≡ true → less a c ≡ true)
    → (i j : ℕ) (js : List ℕ) → less i j ≡ true
    → Before less j js
    → Before less i js
Before-trans less trans i j [] h k = tt
Before-trans less trans i j (x ∷ js) h k = (trans i j x h k.0, Before-trans less trans i j js h k.1)

module _ (less : ℕ → ℕ → Bool)
    (trans : (a b c : ℕ) → less a b ≡ true → less b c ≡ true → less a c ≡ true)
    (irrefl : (a : ℕ) → less a a ≡ false) where
  pub not-has_index-Before : (i : ℕ) (js : List ℕ) → Before less i js → has_index i js ≡ false
  unfolding has_index
  not-has_index-Before i [] h = refl
  not-has_index-Before i (j ∷ js) h = elim (Bool-cases (i == j)) [
    | inl e ↦ absurd (ground (arith, irrefl i, h.0, (==_iff i j).0 e))
    | inr e ↦ ground (arith, not-has_index-Before i js h.1)
  ]

  pub Ascending-Distinct : (js : List ℕ) → Ascending less js → Distinct js
  Ascending-Distinct [] h = tt
  Ascending-Distinct (j ∷ js) h = (not-has_index-Before j js h.0, Ascending-Distinct js h.1)

  same_tail :
      (x : ℕ) (xs ys : List ℕ)
      → has_index x xs ≡ false
      → has_index x ys ≡ false
      → ((i : ℕ) → has_index i (x ∷ xs) ≡ has_index i (x ∷ ys))
      → (i : ℕ) → has_index i xs ≡ has_index i ys
  unfolding has_index
  same_tail x xs ys h k same i = elim (Bool-cases (i == x)) [
    | inl e ↦ rw ((==_iff i x).0 e) (h ∙ sym k)
    | inr e ↦ ground (arith, same i)
  ]

  same_head :
      (x y : ℕ) (xs ys : List ℕ)
      → Before less x xs
      → Before less y ys
      → ((i : ℕ) → has_index i (x ∷ xs) ≡ has_index i (y ∷ ys))
      → x ≡ y
  unfolding has_index
  same_head x y xs ys h k same = elim (Bool-cases (x == y)) [
    | inl e ↦ (==_iff x y).0 e
    | inr e ↦
        let before : less y x ≡ true =
          All-has_index (λ j. less y j ≡ true) x ys k (ground (arith, same x, ==_iff x x)) in
        let after : less x y ≡ true =
          All-has_index (λ j. less x j ≡ true) y xs h (ground (arith, same y, ==_iff y y)) in
        absurd (ground (arith, irrefl x, trans x y x after before))
  ]

  -- Two ascending lists with the same elements are the same.
  pub Ascending-unique :
      (xs ys : List ℕ)
      → Ascending less xs
      → Ascending less ys
      → ((i : ℕ) → has_index i xs ≡ has_index i ys)
      → xs ≡ ys
  unfolding has_index
  Ascending-unique [] [] h k same = refl
  Ascending-unique [] (y ∷ ys) h k same = absurd (ground (arith, same y, ==_iff y y))
  Ascending-unique (x ∷ xs) [] h k same = absurd (ground (arith, same x, ==_iff x x))
  Ascending-unique (x ∷ xs) (y ∷ ys) h k same =
      let e : x ≡ y = same_head x y xs ys h.0 k.0 same in
      let tails =
        same_tail x xs ys (not-has_index-Before x xs h.0) (rw e (not-has_index-Before y ys k.0))
          (subst (λ z. (i : ℕ) → has_index i (x ∷ xs) ≡ has_index i (z ∷ ys)) (sym e) same) in
      cc (e, Ascending-unique xs ys h.1 k.1 tails)

pub Ascending-append :
    (less : ℕ → ℕ → Bool) (xs ys : List ℕ)
    → Ascending less xs
    → Ascending less ys
    → All (λ x. Before less x ys) xs
    → Ascending less (xs ++ ys)
Ascending-append less [] ys h k b = k
Ascending-append less (x ∷ xs) ys h k b =
    (All-append (λ j. less x j ≡ true) xs ys h.0 b.0, Ascending-append less xs ys h.1 k b.1)

module _ (less : ℕ → ℕ → Bool) where
  pub Ascending-take : (k : ℕ) (xs : List ℕ) → Ascending less xs → Ascending less (take k xs)
  Ascending-take zero xs h = tt
  Ascending-take (suc k) [] h = tt
  Ascending-take (suc k) (x ∷ xs) h =
      (All-take (λ j. less x j ≡ true) k xs h.0, Ascending-take k xs h.1)

  pub Ascending-drop : (k : ℕ) (xs : List ℕ) → Ascending less xs → Ascending less (drop k xs)
  Ascending-drop zero xs h = h
  Ascending-drop (suc k) [] h = tt
  Ascending-drop (suc k) (x ∷ xs) h = Ascending-drop k xs h.1

  -- What is in front of a cut is before what is behind it.
  pub Ascending-cut :
      (k : ℕ) (xs : List ℕ) → Ascending less xs → All (λ x. Before less x (drop k xs)) (take k xs)
  Ascending-cut zero xs h = tt
  Ascending-cut (suc k) [] h = tt
  Ascending-cut (suc k) (x ∷ xs) h =
      (All-drop (λ j. less x j ≡ true) k xs h.0, Ascending-cut k xs h.1)

pub has_index-insert_row :
    (less : ℕ → ℕ → Bool) (i j : ℕ) (js : List ℕ)
    → has_index i (insert_row less j js) ≡ (i == j || has_index i js)
unfolding has_index insert_row
has_index-insert_row less i j [] = refl
has_index-insert_row less i j (k ∷ js) = ground (arith, has_index-insert_row less i j js)

pub has_index-sort_rows :
    (less : ℕ → ℕ → Bool) (i : ℕ) (js : List ℕ) → has_index i (sort_rows less js) ≡ has_index i js
unfolding has_index sort_rows
has_index-sort_rows less i [] = refl
has_index-sort_rows less i (j ∷ js) =
    ground (arith, has_index-insert_row less i j (sort_rows less js), has_index-sort_rows less i js)

length-insert_row :
    (less : ℕ → ℕ → Bool) (i : ℕ) (js : List ℕ) → length (insert_row less i js) ≡ suc (length js)
unfolding insert_row
length-insert_row less i [] = refl
length-insert_row less i (j ∷ js) = ground (arith, length-insert_row less i js)

pub length-sort_rows : (less : ℕ → ℕ → Bool) (js : List ℕ) → length (sort_rows less js) ≡ length js
unfolding sort_rows
length-sort_rows less [] = refl
length-sort_rows less (j ∷ js) =
    omega (arith, length-insert_row less j (sort_rows less js), length-sort_rows less js)

-- The indices below `n`, of which no two are level.
module _ (less : ℕ → ℕ → Bool) (n : ℕ)
    (trans : (a b c : ℕ) → less a b ≡ true → less b c ≡ true → less a c ≡ true)
    (connected : (a b : ℕ) → a < n → b < n → a ≢ b → less a b ≡ false → less b a ≡ true) where
  Before-insert_row :
      (i j : ℕ) (js : List ℕ)
      → less i j ≡ true
      → Before less i js
      → Before less i (insert_row less j js)
  unfolding insert_row
  Before-insert_row i j [] h b = (h, tt)
  Before-insert_row i j (k ∷ js) h b = elim (Bool-cases (less k j)) [
    | inl e ↦ rw e (b.0, Before-insert_row i j js h b.1)
    | inr e ↦ rw e (h, b)
  ]

  pub insert_row-Ascending :
      (i : ℕ) (js : List ℕ)
      → i < n
      → All (λ j. j < n) js
      → has_index i js ≡ false
      → Ascending less js
      → Ascending less (insert_row less i js)
  unfolding insert_row has_index
  insert_row-Ascending i [] h a m s = (tt, tt)
  insert_row-Ascending i (j ∷ js) h a m s = elim (Bool-cases (less j i)) [
    | inl e ↦
        rw e (Before-insert_row j i js e s.0, insert_row-Ascending i js h a.1 (ground arith) s.1)
    | inr e ↦
        let before : less i j ≡ true =
          connected j i a.0 h (λ q. absurd (ground (arith, ==_iff i j, q))) e in
        rw e ((before, Before-trans less trans i j js before s.0), s)
  ]

  pub sort_rows-Ascending :
      (js : List ℕ) → All (λ j. j < n) js → Distinct js → Ascending less (sort_rows less js)
  unfolding sort_rows
  sort_rows-Ascending [] a d = tt
  sort_rows-Ascending (j ∷ js) a d =
      let sorted = sort_rows less js in
      insert_row-Ascending j sorted a.0
        (All-of-has_index (λ i. i < n) sorted
          (λ i h. All-has_index (λ k. k < n) i js a.1 (rw (← has_index-sort_rows less i js) h)))
        (has_index-sort_rows less j js ∙ d.0) (sort_rows-Ascending js a.1 d.1)
