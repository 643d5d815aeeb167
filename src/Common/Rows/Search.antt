-- ===== src/Common/Rows/Search.antt =====
-- A search by bounds against the scan of the whole list.
use mailove.Common.{
  ℕ, suc, ◌+◌, ◌<◌, ◌≡◌, refl, ◌≢◌, inl, inr, Bool, true, false, List, [], ◌∷◌, arith, ◌==◌, ==_iff,
  Bool-cases, drop, All, none,
}
use mailove.Common.Rows.{has_index, Ascending, lower_bound, row_from, search_row, index_from}
use mailove.Common.Rows.Sorted.{not-has_index-Before, Before-trans}

index_from-none :
    (row : ℕ) (js : List ℕ) (i : ℕ) → has_index i js ≡ false → index_from row js i ≡ none
unfolding index_from has_index
index_from-none row [] i h = refl
index_from-none row (j ∷ js) i h = ground (arith, index_from-none (suc row) js i)

module _ (less : ℕ → ℕ → Bool) (n : ℕ)
    (trans : (a b c : ℕ) → less a b ≡ true → less b c ≡ true → less a c ≡ true)
    (irrefl : (a : ℕ) → less a a ≡ false)
    (connected : (a b : ℕ) → a < n → b < n → a ≢ b → less a b ≡ false → less b a ≡ true) where
  row_from-index_from :
      (row at : ℕ) (js : List ℕ) (i : ℕ)
      → i < n
      → All (λ j. j < n) js
      → Ascending less js
      → at ≡ row + lower_bound less js i
      → row_from less at (drop (lower_bound less js i) js) i ≡ index_from row js i
  unfolding lower_bound index_from row_from
  row_from-index_from row at [] i h a s q = refl
  row_from-index_from row at (j ∷ js) i h a s q = elim (Bool-cases (less j i)) [
    | inl before ↦
        let other : j == i ≡ false = ground (arith, irrefl i, ==_iff j i) in
        ground (arith, row_from-index_from (suc row) at js i h a.1 s.1)
    | inr after ↦ elim (Bool-cases (j == i)) [
      | inl e ↦ ground (arith, irrefl i, ==_iff j i)
      | inr e ↦
          let above : less i j ≡ true = connected j i a.0 h (λ d. absurd (ground arith)) after in
          ground (
            arith,
            index_from-none (suc row) js i (
                not-has_index-Before less trans irrefl i js
                  (Before-trans less trans i j js above s.0)),
          )
    ]
  ]

  -- In ascending rows the search finds the row that a scan of all rows finds.
  pub search_row-index_from :
      (js : List ℕ) (i : ℕ)
      → i < n
      → All (λ j. j < n) js
      → Ascending less js
      → search_row less js i ≡ index_from 0 js i
  unfolding search_row
  search_row-index_from js i h a s =
      row_from-index_from 0 (lower_bound less js i) js i h a s (omega arith)
