-- ===== src/MessageListModel/Labelled.antt =====
-- A color mark that changes takes the row out of the rows or puts it in (setColorLabel).
use mailove.Common.{
  ℕ, zero, suc, ◌+◌, ◌<◌, ◌≤◌, ◌≡◌, refl, sym, ap, subst, ◌∙◌, inl, inr, Bool, true, false, not,
  ◌&&◌, ◌||◌, List, [], ◌∷◌, ◌++◌, arith, ◌==◌, ==_iff, Bool-cases, Option-cases, length, take,
  drop, set, All, Option, none, some, ltb_iff, ℤ, length-set, get_or-set_other,
}
use mailove.Common.Rows.{
  has_index, Ascending, All-append, All-map, All-take, All-drop, has_index-append, index_from,
  upper_bound, run_before,
}
use mailove.Common.Rows.Sorted.{Distinct, Ascending-Distinct}
use mailove.Common.Rows.Search.{search_row-index_from}
use mailove.Common.Rows.Runs.{placed, placed-Ascending, has_index-split}
use mailove.MessageListModel.{
  Header, MessageListModel, ListPlatform, header_at, no_header, less_row, is_shown, matches_filter,
  visible_row_of,
}
use mailove.MessageListModel.Changes.{move_row, label_at, set_color_label}
use mailove.MessageListModel.Current.{
  IsIndexed, IsRight, is_visible, below_of_members, less_row_trans, less_row_irrefl,
  less_row_connected,
}
use mailove.MessageListModel.Steady.{SameKeys, header_at-set, after-IsIndexed, after-Ascending}

-- The rows without the one at `row`.
abbrev without : ℕ → List ℕ → List ℕ
without row rows = take row rows ++ drop (suc row) rows

index_from-le : (i from r : ℕ) (rows : List ℕ) → index_from from rows i ≡ some r → from ≤ r
unfolding index_from
index_from-le i from r [] e = absurd (ground arith)
index_from-le i from r (x ∷ rows) e = ground (arith, index_from-le i (suc from) r rows)

has_index_of_found :
    (i from r : ℕ) (rows : List ℕ) → index_from from rows i ≡ some r → has_index i rows ≡ true
unfolding index_from has_index
has_index_of_found i from r [] e = absurd (ground arith)
has_index_of_found i from r (x ∷ rows) e =
    ground (arith, has_index_of_found i (suc from) r rows, ==_iff x i, ==_iff i x)

has_index-without :
    (i from k : ℕ) (rows : List ℕ) (j : ℕ)
    → Distinct rows
    → index_from from rows i ≡ some (from + k)
    → has_index j (without k rows) ≡ (not (j == i) && has_index j rows)
unfolding index_from has_index
has_index-without i from k [] j d e = absurd (ground arith)
has_index-without i from zero (x ∷ rows) j d e =
    ground (arith, index_from-le i (suc from) from rows, d.0, ==_iff x i, ==_iff j x, ==_iff j i)
has_index-without i from (suc k) (x ∷ rows) j d e = ground (
  arith,
  has_index-without i (suc from) k rows j d.1,
  ==_iff x i,
  ==_iff j x,
  index_from-le i (suc from) (from + suc k) rows,
  has_index_of_found i (suc from) (from + suc k) rows,
  d.0,
)

Ascending-without :
    (less : ℕ → ℕ → Bool) (row : ℕ) (rows : List ℕ)
    → Ascending less rows
    → Ascending less (without row rows)
Ascending-without less zero [] s = tt
Ascending-without less zero (x ∷ rows) s = s.1
Ascending-without less (suc row) [] s = tt
Ascending-without less (suc row) (x ∷ rows) s = (
  All-append (λ j. less x j ≡ true) (take row rows) (drop (suc row) rows)
      (All-take (λ j. less x j ≡ true) row rows s.0)
      (All-drop (λ j. less x j ≡ true) (suc row) rows s.0),
  Ascending-without less row rows s.1,
)

-- A scan that finds nothing: there is no such row.
not-has_index-none :
    (i from : ℕ) (rows : List ℕ) → index_from from rows i ≡ none → has_index i rows ≡ false
unfolding index_from has_index
not-has_index-none i from [] e = refl
not-has_index-none i from (x ∷ rows) e =
    ground (arith, not-has_index-none i (suc from) rows, ==_iff x i, ==_iff i x)

-- Only the rows change.
move_row-rows :
    (i : ℕ) (o : Option ℕ) (fits : Bool) (m : MessageListModel)
    → move_row i o fits m ≡ record m { rows = (move_row i o fits m).rows }
unfolding move_row
move_row-rows i none true m = refl
move_row-rows i none false m = refl
move_row-rows i (some row) true m = refl
move_row-rows i (some row) false m = refl

module _ (p : ListPlatform) where
  -- What the filter matches is what it shows.
  matches_filter-is_shown :
      (m : MessageListModel) (h : Header) → matches_filter p m h ≡ is_shown p m h
  unfolding is_shown matches_filter
  matches_filter-is_shown m h = ground arith

  -- The other headers stay as visible as they are.
  others-visible :
      (m : MessageListModel) (i : ℕ) (h : Header) (j : ℕ)
      → (j == i) ≡ false
      → is_visible p m j ≡ is_visible p (record m { all = set m.all i h }) j
  unfolding is_shown
  others-visible m i h j o = ground (
    arith,
    length-set m.all i h,
    get_or-set_other m.all i j h no_header (λ e. absurd (ground arith)),
  )

  -- Rows that are right but for the one of `i`.
  module _ (m : MessageListModel) (i : ℕ) (x : IsIndexed m) (below : i < length m.all)
      (ascending : Ascending (less_row m) m.rows) (within : All (λ j. j < length m.all) m.rows)
      (others : (j : ℕ) → (j == i) ≡ false → has_index j m.rows ≡ is_visible p m j) where
    abbrev fits : Bool
    fits = matches_filter p m (header_at m.all i)

    found : visible_row_of m i ≡ index_from 0 m.rows i
    unfolding visible_row_of
    found = rw ((ltb_iff i (length m.all)).1 below) (
        search_row-index_from (less_row m) (length m.all) (less_row_trans m) (less_row_irrefl m)
          (less_row_connected m x) m.rows i below within ascending)

    own : is_visible p m i ≡ fits
    own =
        ground
          (arith, matches_filter-is_shown m (header_at m.all i), (ltb_iff i (length m.all)).1 below)

    -- Rows that are as before but for `i`, and hold `i` if it fits, are right.
    at_own :
        (rows : List ℕ)
        → has_index i rows ≡ fits
        → ((j : ℕ) → (j == i) ≡ false → has_index j rows ≡ has_index j m.rows)
        → (j : ℕ) → has_index j rows ≡ is_visible p m j
    at_own rows h k j = elim (Bool-cases (j == i)) [
      | inl e ↦
          subst (λ a. has_index a rows ≡ is_visible p m a) (sym ((==_iff j i).0 e)) (h ∙ sym own)
      | inr e ↦ k j e ∙ others j e
    ]

    shown_row :
        (row : ℕ)
        → index_from 0 m.rows i ≡ some row
        → Ascending (less_row m) (move_row i (some row) fits m).rows
          × ((j : ℕ) → has_index j (move_row i (some row) fits m).rows ≡ is_visible p m j)
    unfolding move_row
    shown_row row e = elim (Bool-cases fits) [
      | inl q ↦
          rw q
            (ascending, at_own m.rows (has_index_of_found i 0 row m.rows e ∙ sym q) (λ j o. refl))
      | inr q ↦ rw q (
        Ascending-without (less_row m) row m.rows ascending,
        at_own (without row m.rows) (ground (arith, gone i, ==_iff i i))
            (λ j o. ground (arith, gone j)),
      )
    ]
      where
        gone : (j : ℕ) → has_index j (without row m.rows) ≡ (not (j == i) && has_index j m.rows)
        gone j =
            has_index-without i 0 row m.rows j
              (Ascending-Distinct (less_row m) (less_row_trans m) (less_row_irrefl m) m.rows
                ascending)
              (let k : row ≡ 0 + row = omega arith in e ∙ ap some k)

    -- Where the row of `i` comes in, the other rows stay.
    has_index-come :
        (j : ℕ) → has_index j (placed (less_row m) m.rows i []) ≡ (j == i || has_index j m.rows)
    unfolding has_index run_before
    has_index-come j =
        let at = upper_bound (less_row m) m.rows i in
        ground (
          arith,
          has_index-append j (take at m.rows) (i ∷ drop at m.rows),
          has_index-split j at m.rows,
        )

    hidden_row :
        index_from 0 m.rows i ≡ none
        → Ascending (less_row m) (move_row i none fits m).rows
          × ((j : ℕ) → has_index j (move_row i none fits m).rows ≡ is_visible p m j)
    unfolding move_row run_before
    hidden_row e =
        let new = not-has_index-none i 0 m.rows e in
        elim (Bool-cases fits) [
          | inl q ↦ rw q (
            placed-Ascending (less_row m) (length m.all) (less_row_trans m) (less_row_irrefl m)
                (less_row_connected m x) m.rows i [] below within new ascending (tt, tt),
            at_own (placed (less_row m) m.rows i []) (ground (arith, has_index-come i, ==_iff i i))
                (λ j o. ground (arith, has_index-come j)),
          )
          | inr q ↦ rw q (ascending, at_own m.rows (new ∙ sym q) (λ j o. refl))
        ]

    moved :
        Ascending (less_row m) (move_row i (visible_row_of m i) fits m).rows
        × ((j : ℕ) → has_index j (move_row i (visible_row_of m i) fits m).rows ≡ is_visible p m j)
    moved = elim (Option-cases (index_from 0 m.rows i)) [
      | inl e ↦ rw (found ∙ e) (hidden_row e)
      | inr (row, e) ↦ rw (found ∙ e) (shown_row row e)
    ]

    move_row-IsRight : IsRight p (move_row i (visible_row_of m i) fits m)
    unfolding less_row is_shown
    move_row-IsRight = subst (IsRight p) (sym (move_row-rows i (visible_row_of m i) fits m)) (
      record { found = x.found; complete = x.complete },
      record { ascending = moved.0; members = moved.1 },
    )

  label_at-IsRight :
      (i color : ℕ) (m : MessageListModel)
      → i < length m.all
      → IsRight p m
      → IsRight p (label_at p (some i) color m)
  unfolding label_at
  label_at-IsRight i color m below (x, s) =
      let mark = λ (h : Header). record h { color_label = color } in
      let changed = set m.all i (mark (header_at m.all i)) in
      let long = length-set m.all i (mark (header_at m.all i)) in
      let same =
        header_at-set SameKeys mark (λ h. (refl, refl, refl, refl, refl))
          (λ h. (refl, refl, refl, refl, refl)) m.all i in
      move_row-IsRight (record m { all = changed }) i (after-IsIndexed m changed long same x)
        (omega arith) (after-Ascending m changed long same s.ascending)
        (All-map (λ j. j < length m.all) (λ j. j < length changed) m.rows (λ j l. omega arith)
          (below_of_members p m m.rows s.members))
        (λ j o. s.members j ∙ others-visible m i (mark (header_at m.all i)) j o)

  -- A new color mark moves the row into or out of the rows, whichever the filters ask for.
  pub set_color_label-IsRight :
      (uid : ℤ) (color : ℕ) (m : MessageListModel)
      → IsRight p m
      → IsRight p (set_color_label p uid color m)
  unfolding set_color_label
  set_color_label-IsRight uid color m r = elim (Option-cases (m.by_uid uid)) [
    | inl e ↦ subst (λ o. IsRight p (label_at p o color m)) (sym e) (unfold label_at in r)
    | inr (i, e) ↦
        subst (λ o. IsRight p (label_at p o color m)) (sym e)
          (label_at-IsRight i color m (r.0.found uid i e).0 r)
  ]
