-- ===== src/Common/Rows.antt =====
-- Lists of indices in the order of a Boolean test: std::stable_sort, std::lower_bound and
-- std::upper_bound on a QList<int>.
pub mod Sorted
pub mod Search
pub mod Runs
use mailove.Common.{
  ℕ, zero, suc, ◌+◌, ◌<◌, ◌≡◌, refl, sym, ap, subst, ◌∙◌, ◌≢◌, inl, inr, Bool, true, false, not,
  ◌&&◌, ◌||◌, List, [], ◌∷◌, ◌++◌, arith, ◌==◌, ==_iff, if◌then◌else◌, Bool-cases, length, take,
  drop, All, Option, none, some,
}

-- indexOf: the first row that holds `i`, counted from `row`
unfoldable pub index_from : ℕ → List ℕ → ℕ → Option ℕ
index_from row [] i = none
index_from row (j ∷ js) i =
    let rest = index_from (suc row) js i in if j == i then some row else rest

-- contains
unfoldable pub has_index : ℕ → List ℕ → Bool
has_index i [] = false
has_index i (j ∷ js) = i == j || has_index i js

module _ (less : ℕ → ℕ → Bool) where
  -- In front of the first element that is not before `i`.
  unfoldable pub insert_row : ℕ → List ℕ → List ℕ
  insert_row i [] = i ∷ []
  insert_row i (j ∷ js) = let rest = insert_row i js in if less j i then j ∷ rest else i ∷ j ∷ js

  -- std::stable_sort
  unfoldable pub sort_rows : List ℕ → List ℕ
  unfolding insert_row
  sort_rows [] = []
  sort_rows (i ∷ is) = insert_row i (sort_rows is)

  -- The rows in front of std::lower_bound: those before `i`.
  unfoldable pub lower_bound : List ℕ → ℕ → ℕ
  lower_bound [] i = 0
  lower_bound (j ∷ js) i = let rest = suc (lower_bound js i) in if less j i then rest else 0

  -- The rows in front of std::upper_bound: `i` is not before them.
  unfoldable pub upper_bound : List ℕ → ℕ → ℕ
  upper_bound [] i = 0
  upper_bound (j ∷ js) i = let rest = suc (upper_bound js i) in if less i j then 0 else rest

  -- The loop behind a lower bound: the row of `i`, as long as `i` is not before the element.
  unfoldable pub row_from : ℕ → List ℕ → ℕ → Option ℕ
  row_from row [] i = none
  row_from row (j ∷ js) i =
      let rest = row_from (suc row) js i in
      if less i j then none else if j == i then some row else rest

  -- The row of `i` by binary search.
  unfoldable pub search_row : List ℕ → ℕ → Option ℕ
  unfolding row_from lower_bound
  search_row js i = row_from (lower_bound js i) (drop (lower_bound js i) js) i

  -- The elements that are before the first of `back`, as many as there are in a row.
  unfoldable pub run_before : List ℕ → List ℕ → ℕ
  run_before [] back = 0
  run_before (f ∷ fs) [] = suc (run_before fs [])
  run_before (f ∷ fs) (b ∷ back) =
      let rest = suc (run_before fs (b ∷ back)) in if less f b then rest else 0

  -- Sorted elements go into sorted rows, one run at a time; a round takes one element at least.
  unfoldable pub insert_runs : ℕ → List ℕ → List ℕ → List ℕ
  unfolding upper_bound run_before
  insert_runs fuel rows [] = rows
  insert_runs zero rows (f ∷ fs) = rows
  insert_runs (suc fuel) rows (f ∷ fs) =
      let row = upper_bound rows f in
      let more = run_before fs (drop row rows) in
      insert_runs fuel (take row rows ++ ((f ∷ take more fs) ++ drop row rows)) (drop more fs)

  abbrev pub Before : ℕ → List ℕ → Type 0
  Before i js = All (λ j. less i j ≡ true) js

  -- Each element is before all that follow.
  abbrev pub Ascending : List ℕ → Type 0
  Ascending [] = Unit
  Ascending (i ∷ is) = Before i is × Ascending is

pub has_index-append :
    (i : ℕ) (xs ys : List ℕ) → has_index i (xs ++ ys) ≡ (has_index i xs || has_index i ys)
unfolding has_index
has_index-append i [] ys = refl
has_index-append i (x ∷ xs) ys = ground (arith, has_index-append i xs ys)

-- An element of a list has what all elements have.
pub All-has_index {κ} :
    (P : ℕ → Type κ) (i : ℕ) (xs : List ℕ) → All P xs → has_index i xs ≡ true → P i
unfolding has_index
All-has_index P i [] h m = absurd (ground arith)
All-has_index P i (x ∷ xs) h m = elim (Bool-cases (i == x)) [
  | inl e ↦ rw ((==_iff i x).0 e) h.0
  | inr e ↦ All-has_index P i xs h.1 (ground arith)
]

pub All-of-has_index {κ} :
    (P : ℕ → Type κ) (xs : List ℕ) → ((i : ℕ) → has_index i xs ≡ true → P i) → All P xs
unfolding has_index
All-of-has_index P [] f = tt
All-of-has_index P (x ∷ xs) f =
    (f x (ground (arith, ==_iff x x)), All-of-has_index P xs (λ i h. f i (ground arith)))

pub All-append {κ} : (P : ℕ → Type κ) (xs ys : List ℕ) → All P xs → All P ys → All P (xs ++ ys)
All-append P [] ys h k = k
All-append P (x ∷ xs) ys h k = (h.0, All-append P xs ys h.1 k)

module _ {κ} (P : ℕ → Type κ) where
  pub All-take : (k : ℕ) (xs : List ℕ) → All P xs → All P (take k xs)
  All-take zero xs h = tt
  All-take (suc k) [] h = tt
  All-take (suc k) (x ∷ xs) h = (h.0, All-take k xs h.1)

  pub All-drop : (k : ℕ) (xs : List ℕ) → All P xs → All P (drop k xs)
  All-drop zero xs h = h
  All-drop (suc k) [] h = tt
  All-drop (suc k) (x ∷ xs) h = All-drop k xs h.1

  pub All-map {κ'} : (Q : ℕ → Type κ') (xs : List ℕ) → ((x : ℕ) → P x → Q x) → All P xs → All Q xs
  All-map Q [] f h = tt
  All-map Q (x ∷ xs) f h = (f x h.0, All-map Q xs f h.1)
