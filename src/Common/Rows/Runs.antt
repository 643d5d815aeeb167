-- ===== src/Common/Rows/Runs.antt =====
-- Runs of new elements: the rows stay sorted and hold the old and the new elements.
use mailove.Common.{
  ℕ, zero, suc, ◌<◌, ◌≤◌, ◌≡◌, sym, ap, ◌∙◌, ◌≢◌, inl, inr, Bool, true, false, ◌||◌, List, [], ◌∷◌,
  ◌++◌, arith, ==_iff, Bool-cases, length, take, drop, All, take-append-drop,
}
use mailove.Common.Rows.{
  has_index, Before, Ascending, All-has_index, All-append, All-take, All-drop, All-map,
  has_index-append, upper_bound, run_before, insert_runs,
}
use mailove.Common.Rows.Sorted.{
  not-has_index-Before, Before-trans, Ascending-append, Ascending-take, Ascending-drop,
  Ascending-cut,
}

length-drop : (k : ℕ) (xs : List ℕ) → length (drop k xs) ≤ length xs
length-drop zero xs = omega arith
length-drop (suc k) [] = omega arith
length-drop (suc k) (x ∷ xs) = omega (arith, length-drop k xs)

has_index_self : (i : ℕ) (xs : List ℕ) → has_index i (i ∷ xs) ≡ true
unfolding has_index
has_index_self i xs = ground (arith, ==_iff i i)

pub has_index-split :
    (i k : ℕ) (xs : List ℕ) → has_index i xs ≡ (has_index i (take k xs) || has_index i (drop k xs))
has_index-split i k xs =
    ap (has_index i) (sym (take-append-drop k xs)) ∙ has_index-append i (take k xs) (drop k xs)

pub has_index-insert_runs :
    (less : ℕ → ℕ → Bool) (i fuel : ℕ) (rows fresh : List ℕ)
    → length fresh ≤ fuel
    → has_index i (insert_runs less fuel rows fresh) ≡ (has_index i rows || has_index i fresh)
unfolding insert_runs has_index
has_index-insert_runs less i fuel rows [] h = ground arith
has_index-insert_runs less i zero rows (f ∷ fs) h = absurd (omega arith)
has_index-insert_runs less i (suc fuel) rows (f ∷ fs) h =
    let row = upper_bound less rows f in
    let more = run_before less fs (drop row rows) in
    ground (
      arith,
      has_index-insert_runs less i fuel (take row rows ++ ((f ∷ take more fs) ++ drop row rows))
          (drop more fs) (omega (arith, length-drop more fs)),
      has_index-append i (take row rows) ((f ∷ take more fs) ++ drop row rows),
      has_index-append i (take more fs) (drop row rows),
      has_index-split i row rows,
      has_index-split i more fs,
    )

-- The rows after one round: the run goes in at the bound.
abbrev pub placed : (ℕ → ℕ → Bool) → List ℕ → ℕ → List ℕ → List ℕ
placed less rows f fs =
    let row = upper_bound less rows f in
    take row rows ++ ((f ∷ take (run_before less fs (drop row rows)) fs) ++ drop row rows)

module _ (less : ℕ → ℕ → Bool) (n : ℕ)
    (trans : (a b c : ℕ) → less a b ≡ true → less b c ≡ true → less a c ≡ true)
    (irrefl : (a : ℕ) → less a a ≡ false)
    (connected : (a b : ℕ) → a < n → b < n → a ≢ b → less a b ≡ false → less b a ≡ true) where
  -- What is in front of the bound is before `f`.
  take-upper_bound :
      (rows : List ℕ) (f : ℕ)
      → f < n
      → All (λ j. j < n) rows
      → has_index f rows ≡ false
      → All (λ j. less j f ≡ true) (take (upper_bound less rows f) rows)
  unfolding upper_bound has_index
  take-upper_bound [] f h a m = tt
  take-upper_bound (j ∷ js) f h a m = elim (Bool-cases (less f j)) [
    | inl e ↦ rw e tt
    | inr e ↦ rw e (
      connected f j h a.0 (λ d. absurd (ground (arith, ==_iff f j))) e,
      take-upper_bound js f h a.1 (ground arith),
    )
  ]

  -- `f` is before what is behind the bound.
  drop-upper_bound :
      (rows : List ℕ) (f : ℕ)
      → Ascending less rows
      → Before less f (drop (upper_bound less rows f) rows)
  unfolding upper_bound
  drop-upper_bound [] f s = tt
  drop-upper_bound (j ∷ js) f s = elim (Bool-cases (less f j)) [
    | inl e ↦ rw e (e, Before-trans less trans f j js e s.0)
    | inr e ↦ rw e (drop-upper_bound js f s.1)
  ]

  -- A run is before what is behind it.
  take-run_before :
      (fs back : List ℕ)
      → Ascending less back
      → All (λ f. Before less f back) (take (run_before less fs back) fs)
  unfolding run_before
  take-run_before [] back s = tt
  take-run_before (f ∷ fs) [] s = (tt, take-run_before fs [] tt)
  take-run_before (f ∷ fs) (b ∷ back) s = elim (Bool-cases (less f b)) [
    | inl e ↦ rw e ((e, Before-trans less trans f b back e s.0), take-run_before fs (b ∷ back) s)
    | inr e ↦ rw e tt
  ]

  pub placed-Ascending :
      (rows : List ℕ) (f : ℕ) (fs : List ℕ)
      → f < n
      → All (λ j. j < n) rows
      → has_index f rows ≡ false
      → Ascending less rows
      → Ascending less (f ∷ fs)
      → Ascending less (placed less rows f fs)
  placed-Ascending rows f fs h a m s t =
      let row = upper_bound less rows f in
      let back = drop row rows in
      let more = run_before less fs back in
      let behind = drop-upper_bound rows f s in
      let later = Ascending-drop less row rows s in
      let run = f ∷ take more fs in
      let tail =
        Ascending-append less run back
          (All-take (λ j. less f j ≡ true) more fs t.0, Ascending-take less more fs t.1) later
          (behind, take-run_before fs back later) in
      Ascending-append less (take row rows) (run ++ back) (Ascending-take less row rows s) tail (
        All-map (λ j. less j f ≡ true) (λ j. Before less j (run ++ back)) (take row rows)
          (λ x l. (l, Before-trans less trans x f (take more fs ++ back) l tail.0))
          (take-upper_bound rows f h a m))

  placed-below :
      (rows : List ℕ) (f : ℕ) (fs : List ℕ)
      → All (λ j. j < n) rows
      → All (λ j. j < n) (f ∷ fs)
      → All (λ j. j < n) (placed less rows f fs)
  placed-below rows f fs a b =
      let P = λ (j : ℕ). j < n in
      let row = upper_bound less rows f in
      let more = run_before less fs (drop row rows) in
      All-append P (take row rows) ((f ∷ take more fs) ++ drop row rows) (All-take P row rows a) (
        All-append P (f ∷ take more fs) (drop row rows) (b.0, All-take P more fs b.1)
          (All-drop P row rows a))

  not_both :
      (k : ℕ) (xs : List ℕ) (i : ℕ)
      → Ascending less xs
      → has_index i (drop k xs) ≡ true
      → has_index i (take k xs) ≡ false
  not_both k xs i s m = elim (Bool-cases (has_index i (take k xs))) [
    | inl e ↦
        let before =
          All-has_index (λ x. Before less x (drop k xs)) i (take k xs) (Ascending-cut less k xs s)
            e in
        absurd (ground (arith, not-has_index-Before less trans irrefl i (drop k xs) before))
    | inr e ↦ e
  ]

  -- The elements of a round are none of those of the later rounds.
  placed-fresh :
      (rows : List ℕ) (f : ℕ) (fs : List ℕ)
      → Ascending less (f ∷ fs)
      → ((i : ℕ) → has_index i (f ∷ fs) ≡ true → has_index i rows ≡ false)
      → let more = run_before less fs (drop (upper_bound less rows f) rows) in
        (i : ℕ) → has_index i (drop more fs) ≡ true → has_index i (placed less rows f fs) ≡ false
  unfolding has_index
  placed-fresh rows f fs t new i m =
      let row = upper_bound less rows f in
      let more = run_before less fs (drop row rows) in
      ground (
        arith,
        not_both more fs i t.1 m,
        has_index-split i more fs,
        has_index-split i row rows,
        new i,
        not-has_index-Before less trans irrefl f fs t.0,
        ==_iff i f,
        has_index-append i (take row rows) ((f ∷ take more fs) ++ drop row rows),
        has_index-append i (take more fs) (drop row rows),
      )

  pub insert_runs-Ascending :
      (fuel : ℕ) (rows fresh : List ℕ)
      → length fresh ≤ fuel
      → All (λ j. j < n) rows
      → All (λ j. j < n) fresh
      → Ascending less rows
      → Ascending less fresh
      → ((i : ℕ) → has_index i fresh ≡ true → has_index i rows ≡ false)
      → Ascending less (insert_runs less fuel rows fresh)
  unfolding insert_runs
  insert_runs-Ascending fuel rows [] h a b s t new = s
  insert_runs-Ascending zero rows (f ∷ fs) h a b s t new = absurd (omega arith)
  insert_runs-Ascending (suc fuel) rows (f ∷ fs) h a b s t new =
      let row = upper_bound less rows f in
      let more = run_before less fs (drop row rows) in
      insert_runs-Ascending fuel (placed less rows f fs) (drop more fs)
        (omega (arith, length-drop more fs)) (placed-below rows f fs a b)
        (All-drop (λ j. j < n) more fs b.1)
        (placed-Ascending rows f fs b.0 a (new f (has_index_self f fs)) s t)
        (Ascending-drop less more fs t.1) (placed-fresh rows f fs t new)
