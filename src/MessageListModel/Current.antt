-- ===== src/MessageListModel/Current.antt =====
-- The rows are always those that a rebuild from scratch gives.
use mailove.Common.{
  ℕ, zero, suc, ◌+◌, ◌<◌, ◌≡◌, refl, sym, ◌∙◌, ◌≢◌, inl, inr, Bool, true, false, ◌&&◌, List, [],
  ◌∷◌, arith, Bool-cases, length, All, some, get_or, ltb, ltb_iff, ℤ,
}
use mailove.Common.Rows.{has_index, Ascending, All-of-has_index, sort_rows, index_from}
use mailove.Common.Rows.Sorted.{
  sort_rows-Ascending, has_index-sort_rows, Ascending-unique, Distinct,
}
use mailove.Common.Rows.Search.{search_row-index_from}
use mailove.MessageListModel.{
  Header, MessageListModel, ListPlatform, header_at, no_header, less_row, is_shown, shown_from,
  rebuild_visible, visible_row_of,
}
use mailove.MessageListModel.Order.{less_than_trans, less_than_irrefl, less_than_connected}

-- The map holds each uid with the index of its header, so no two headers share one.
pub record IsIndexed (m : MessageListModel) : Type 0 where
  pub found :
      (u : ℤ) (i : ℕ) → m.by_uid u ≡ some i → (i < length m.all) × ((header_at m.all i).uid ≡ u)
  pub complete : (i : ℕ) → i < length m.all → m.by_uid (header_at m.all i).uid ≡ some i

pub less_row_trans :
    (m : MessageListModel) (a b c : ℕ)
    → less_row m a b ≡ true
    → less_row m b c ≡ true
    → less_row m a c ≡ true
unfolding less_row
less_row_trans m a b c =
    less_than_trans m.sort_column m.sort_descending (header_at m.all a) (header_at m.all b)
      (header_at m.all c)

pub less_row_irrefl : (m : MessageListModel) (a : ℕ) → less_row m a a ≡ false
unfolding less_row
less_row_irrefl m a = less_than_irrefl m.sort_column m.sort_descending (header_at m.all a)

pub less_row_connected :
    (m : MessageListModel)
    → IsIndexed m
    → (a b : ℕ) → a < length m.all
    → b < length m.all
    → a ≢ b
    → less_row m a b ≡ false
    → less_row m b a ≡ true
unfolding less_row
less_row_connected m x a b h k d =
    less_than_connected m.sort_column m.sort_descending (header_at m.all a) (header_at m.all b)
      (λ e. d (same_index e))
  where
    same_index : (header_at m.all a).uid ≡ (header_at m.all b).uid → a ≡ b
    same_index e = cc (x.complete a h, x.complete b k, e)

module _ (p : ListPlatform) where
  -- There is such a header and the filter shows it.
  abbrev pub is_visible : MessageListModel → ℕ → Bool
  is_visible m i = ltb i (length m.all) && is_shown p m (header_at m.all i)

  -- What the view shows: the visible headers, each once, in the order of lessThan.
  pub record Shows (m : MessageListModel) : Type 0 where
    pub ascending : Ascending (less_row m) m.rows
    pub members : (i : ℕ) → has_index i m.rows ≡ is_visible m i

  abbrev pub IsRight : MessageListModel → Type 0
  IsRight m = IsIndexed m × Shows m

  shown_from-above :
      (m : MessageListModel) (j i : ℕ) (hs : List Header)
      → j < i
      → has_index j (shown_from p m i hs) ≡ false
  unfolding has_index shown_from
  shown_from-above m j i [] h = refl
  shown_from-above m j i (x ∷ hs) h = ground (arith, shown_from-above m j (suc i) hs)

  has_index-shown_from :
      (m : MessageListModel) (k j i : ℕ) (hs : List Header)
      → k ≡ i + j
      → has_index k (shown_from p m i hs)
        ≡ (ltb j (length hs) && is_shown p m (get_or hs j no_header))
  unfolding has_index shown_from
  has_index-shown_from m k j i [] e = ground arith
  has_index-shown_from m k zero i (x ∷ hs) e = ground (arith, shown_from-above m k (suc i) hs)
  has_index-shown_from m k (suc j) i (x ∷ hs) e =
      ground (arith, has_index-shown_from m k j (suc i) hs)

  shown_from-Distinct :
      (m : MessageListModel) (i : ℕ) (hs : List Header) → Distinct (shown_from p m i hs)
  unfolding shown_from
  shown_from-Distinct m i [] = tt
  shown_from-Distinct m i (x ∷ hs) = elim (Bool-cases (is_shown p m x)) [
    | inl e ↦ rw e (shown_from-above m i (suc i) hs (omega arith), shown_from-Distinct m (suc i) hs)
    | inr e ↦ rw e (shown_from-Distinct m (suc i) hs)
  ]

  members_of_shown :
      (m : MessageListModel) (i : ℕ) → has_index i (shown_from p m 0 m.all) ≡ is_visible m i
  members_of_shown m i = has_index-shown_from m i i 0 m.all (omega arith)

  pub below_of_members :
      (m : MessageListModel) (rows : List ℕ)
      → ((i : ℕ) → has_index i rows ≡ is_visible m i)
      → All (λ i. i < length m.all) rows
  below_of_members m rows f =
      All-of-has_index (λ i. i < length m.all) rows (λ i h. ground (arith, f i))

  pub sorted-Shows :
      (m : MessageListModel) (rows : List ℕ)
      → IsIndexed m
      → Distinct rows
      → ((i : ℕ) → has_index i rows ≡ is_visible m i)
      → Ascending (less_row m) (sort_rows (less_row m) rows)
        × ((i : ℕ) → has_index i (sort_rows (less_row m) rows) ≡ is_visible m i)
  sorted-Shows m rows x d f = (
    sort_rows-Ascending (less_row m) (length m.all) (less_row_trans m) (less_row_connected m x) rows
        (below_of_members m rows f) d,
    λ i. has_index-sort_rows (less_row m) i rows ∙ f i,
  )

  pub rebuild_visible-Shows : (m : MessageListModel) → IsIndexed m → Shows (rebuild_visible p m)
  unfolding rebuild_visible
  rebuild_visible-Shows m x =
      let (a, f) =
        sorted-Shows m (shown_from p m 0 m.all) x (shown_from-Distinct m 0 m.all)
          (members_of_shown m) in
      record { ascending = a; members = f }

  -- Where the rows show what is visible, they are the rows that a rebuild gives.
  pub Shows-rebuild_visible :
      (m : MessageListModel) → IsIndexed m → Shows m → m.rows ≡ (rebuild_visible p m).rows
  unfolding rebuild_visible
  Shows-rebuild_visible m x s =
      let r = rebuild_visible-Shows m x in
      Ascending-unique (less_row m) (less_row_trans m) (less_row_irrefl m) m.rows
        (rebuild_visible p m).rows s.ascending r.ascending (λ i. s.members i ∙ sym (r.members i))

  -- The binary search for a message's row finds what a scan of the rows finds.
  pub visible_row_of-index_from :
      (m : MessageListModel)
      → IsIndexed m
      → Shows m
      → (i : ℕ) → i < length m.all
      → visible_row_of m i ≡ index_from 0 m.rows i
  unfolding visible_row_of
  visible_row_of-index_from m x s i h = rw ((ltb_iff i (length m.all)).1 h) (
      search_row-index_from (less_row m) (length m.all) (less_row_trans m) (less_row_irrefl m)
        (less_row_connected m x) m.rows i h (below_of_members m m.rows s.members) s.ascending)
