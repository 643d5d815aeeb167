-- ===== src/MessageListModel/Rebuilt.antt =====
-- Operations that rebuild or sort the rows (setHeaders, applyFilter, setColorFilter, sortBy, clear).
use mailove.Common.{
  same_bool, ℕ, zero, suc, ◌+◌, ◌<◌, ◌≡◌, refl, subst, ◌∙◌, inl, inr, Bool, true, false, ◌&&◌, List,
  [], ◌∷◌, arith, ◌==◌, if◌then◌else◌, Bool-cases, length, All, Option, none, some, ltb, ℤ, Bytes,
  equal, equal_int, equal_int_iff,
}
use mailove.Common.Rows.{has_index, Ascending, sort_rows}
use mailove.Common.Rows.Sorted.{Ascending-Distinct, Distinct}
use mailove.MessageListModel.{
  Header, MessageListModel, ListPlatform, SortColumn, header_at, less_row, is_shown, prime_keys,
  insert_uid, index_uids, reindex, rebuild_visible, refresh_marker_count,
}
use mailove.MessageListModel.Changes.{
  set_headers, prime_all, apply_filter, set_color_filter, sort_by, resort_visible, same_column,
  clear,
}
use mailove.MessageListModel.Current.{
  IsIndexed, IsRight, is_visible, sorted-Shows, rebuild_visible-Shows, less_row_trans,
  less_row_irrefl,
}
use mailove.MessageListModel.Appended.{DistinctUids}

index_uids-found :
    (G : ℤ → ℕ → Type 0) (i : ℕ) (hs : List Header) (known : ℤ → Option ℕ)
    → ((u : ℤ) (j : ℕ) → known u ≡ some j → G u j)
    → ((k : ℕ) → k < length hs → G (header_at hs k).uid (i + k))
    → (u : ℤ) (j : ℕ) → index_uids i hs known u ≡ some j
    → G u j
unfolding index_uids
index_uids-found G i [] known g f = g
index_uids-found G i (h ∷ hs) known g f =
    index_uids-found G (suc i) hs (insert_uid h.uid i known) here (λ k l.
      let e : i + suc k ≡ suc i + k = omega arith in
      subst (G (header_at hs k).uid) e (f (suc k) (omega arith)))
  where
    here : (u : ℤ) (j : ℕ) → insert_uid h.uid i known u ≡ some j → G u j
    here u j e = elim (Bool-cases (equal_int h.uid u)) [
      | inl q ↦
          let k : i + 0 ≡ j = ground arith in
          subst (λ v. G v j) ((equal_int_iff h.uid u).0 q) (subst (G h.uid) k (f 0 (omega arith)))
      | inr q ↦ g u j (ground arith)
    ]

index_uids-other :
    (i : ℕ) (hs : List Header) (known : ℤ → Option ℕ) (u : ℤ)
    → All (λ g. equal_int u g.uid ≡ false) hs
    → index_uids i hs known u ≡ known u
unfolding index_uids
index_uids-other i [] known u a = refl
index_uids-other i (h ∷ hs) known u a =
    index_uids-other (suc i) hs (insert_uid h.uid i known) u a.1
    ∙ ground (arith, a.0, equal_int_iff h.uid u, equal_int_iff u h.uid)

index_uids_complete :
    (i : ℕ) (hs : List Header) (known : ℤ → Option ℕ)
    → DistinctUids hs
    → (k j : ℕ) → k < length hs
    → j ≡ i + k
    → index_uids i hs known (header_at hs k).uid ≡ some j
unfolding index_uids
index_uids_complete i [] known d k j l e = elim l [ ]
index_uids_complete i (h ∷ hs) known d zero j l e =
    index_uids-other (suc i) hs (insert_uid h.uid i known) h.uid d.0
    ∙ ground (arith, equal_int_iff h.uid h.uid)
index_uids_complete i (h ∷ hs) known d (suc k) j l e =
    index_uids_complete (suc i) hs (insert_uid h.uid i known) d.1 k j (omega arith) (omega arith)

pub reindex-IsIndexed : (m : MessageListModel) → DistinctUids m.all → IsIndexed (reindex m)
unfolding reindex
reindex-IsIndexed m d = record {
  found =
      index_uids-found (λ u j. (j < length m.all) × ((header_at m.all j).uid ≡ u)) 0 m.all
        (λ u. none) (λ u j e. absurd (ground arith))
        (λ k l.
          let e : k ≡ 0 + k = omega arith in
          subst (λ j. (j < length m.all) × ((header_at m.all j).uid ≡ (header_at m.all k).uid)) e
            (l, refl));
  complete = λ k l. index_uids_complete 0 m.all (λ u. none) d k k l (omega arith);
}

module _ (p : ListPlatform) where
  prime_all-All :
      (u : ℤ) (hs : List Header)
      → All (λ g. equal_int u g.uid ≡ false) hs
      → All (λ g. equal_int u g.uid ≡ false) (prime_all p hs)
  unfolding prime_all prime_keys
  prime_all-All u [] a = tt
  prime_all-All u (h ∷ hs) a = (a.0, prime_all-All u hs a.1)

  prime_all-DistinctUids : (hs : List Header) → DistinctUids hs → DistinctUids (prime_all p hs)
  unfolding prime_all prime_keys
  prime_all-DistinctUids [] d = tt
  prime_all-DistinctUids (h ∷ hs) d = (prime_all-All h.uid hs d.0, prime_all-DistinctUids hs d.1)

  -- The filter or the order may change before the rows are rebuilt; the headers do not.
  rebuild_visible-IsRight : (m : MessageListModel) → IsIndexed m → IsRight p (rebuild_visible p m)
  unfolding rebuild_visible
  rebuild_visible-IsRight m x =
      (record { found = x.found; complete = x.complete }, rebuild_visible-Shows p m x)

  refresh_marker_count-IsRight :
      (m : MessageListModel) → IsRight p m → IsRight p (refresh_marker_count m)
  unfolding refresh_marker_count less_row is_shown
  refresh_marker_count-IsRight m (x, s) = (
    record { found = x.found; complete = x.complete },
    record { ascending = s.ascending; members = s.members },
  )

  pub set_headers-IsRight :
      (hs : List Header) (m : MessageListModel) → DistinctUids hs → IsRight p (set_headers p hs m)
  unfolding set_headers
  set_headers-IsRight hs m d = refresh_marker_count-IsRight _ (
      rebuild_visible-IsRight (reindex (record m { all = prime_all p hs }))
        (reindex-IsIndexed (record m { all = prime_all p hs }) (prime_all-DistinctUids hs d)))

  if-IsRight :
      (b : Bool) (m n : MessageListModel)
      → IsRight p m
      → IsRight p n
      → IsRight p (if b then m else n)
  if-IsRight true m n r s = r
  if-IsRight false m n r s = s

  pub apply_filter-IsRight :
      (pattern_text : Bytes) (m : MessageListModel)
      → IsRight p m
      → IsRight p (apply_filter p pattern_text m)
  unfolding apply_filter
  apply_filter-IsRight pattern_text m r = if-IsRight (equal m.filter pattern_text) _ _ r (
      rebuild_visible-IsRight (record m { filter = pattern_text })
        (record { found = r.0.found; complete = r.0.complete }))

  pub set_color_filter-IsRight :
      (color : ℕ) (m : MessageListModel) → IsRight p m → IsRight p (set_color_filter p color m)
  unfolding set_color_filter
  set_color_filter-IsRight color m r = if-IsRight (m.color_filter == color) _ _ r (
      rebuild_visible-IsRight (record m { color_filter = color })
        (record { found = r.0.found; complete = r.0.complete }))

  short-Ascending :
      (less : ℕ → ℕ → Bool) (rows : List ℕ) → ltb (length rows) 2 ≡ true → Ascending less rows
  short-Ascending less [] h = tt
  short-Ascending less (i ∷ []) h = (tt, tt)
  short-Ascending less (i ∷ j ∷ rows) h = absurd (ground arith)

  resorted :
      (n : MessageListModel)
      → IsIndexed n
      → ((i : ℕ) → has_index i n.rows ≡ is_visible p n i)
      → Distinct n.rows
      → Ascending (less_row n) (sort_rows (less_row n) n.rows)
      → ((i : ℕ) → has_index i (sort_rows (less_row n) n.rows) ≡ is_visible p n i)
      → IsRight p (resort_visible n)
  unfolding resort_visible is_shown less_row
  resorted n y members d a f = elim (Bool-cases (ltb (length n.rows) 2)) [
    | inl e ↦
        rw e (y, record { ascending = short-Ascending (less_row n) n.rows e; members = members })
    | inr e ↦
        rw e
          (record { found = y.found; complete = y.complete }, record { ascending = a; members = f })
  ]

  pub sort_by-IsRight :
      (column : SortColumn) (descending : Bool) (m : MessageListModel)
      → IsRight p m
      → IsRight p (sort_by column descending m)
  unfolding sort_by resort_visible is_shown
  sort_by-IsRight column descending m (x, s) =
      let n = record m { sort_column = column; sort_descending = descending } in
      let y : IsIndexed n = record { found = x.found; complete = x.complete } in
      let d =
        Ascending-Distinct (less_row m) (less_row_trans m) (less_row_irrefl m) m.rows s.ascending in
      let (a, f) = sorted-Shows p n m.rows y d s.members in
      if-IsRight (same_column m.sort_column column && same_bool m.sort_descending descending) _ _
        (x, s) (resorted n y s.members d a f)

  pub clear-IsRight : (m : MessageListModel) → IsRight p (clear m)
  unfolding clear has_index
  clear-IsRight m =
      refresh_marker_count-IsRight
        (record m { rows = []; all = []; by_uid = λ u. none; filter = [] })
        (
          record { found = λ u i e. absurd (ground arith); complete = λ i l. elim l [ ] },
          record { ascending = tt; members = λ i. ground arith },
        )
