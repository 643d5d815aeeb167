-- ===== src/MessageListModel/Appended.antt =====
-- New headers come in where a rebuild would put them (appendHeaders).
use mailove.Common.{
  ℕ, suc, ◌<◌, ◌≡◌, refl, sym, ap, subst, ◌∙◌, inl, inr, Bool, true, false, not, ◌||◌, List, [],
  ◌∷◌, ◌++◌, arith, ◌==◌, ==_iff, if◌then◌else◌, Bool-cases, length, All, none, some, ℤ,
  length-append, get_or-append_front, get_or-append_last, equal_int, equal_int_iff,
}
use mailove.Common.Rows.{
  has_index, Before, Ascending, All-of-has_index, has_index-append, sort_rows, insert_runs,
}
use mailove.Common.Rows.Sorted.{
  Distinct, sort_rows-Ascending, has_index-sort_rows, length-sort_rows,
}
use mailove.Common.Rows.Runs.{insert_runs-Ascending, has_index-insert_runs}
use mailove.MessageListModel.{
  Header, MessageListModel, ListPlatform, header_at, no_header, less_row, is_shown, matches_filter,
  has_filter, prime_keys, note_markers,
}
use mailove.MessageListModel.Append.{
  Appending, append_known, append_loop, place_fresh, append_headers, note_all,
}
use mailove.MessageListModel.Current.{
  IsIndexed, Shows, IsRight, is_visible, less_row_trans, less_row_irrefl, less_row_connected,
}
use mailove.MessageListModel.Steady.{note_markers-IsRight}

-- No two headers have one uid.
abbrev pub DistinctUids : List Header → Type 0
DistinctUids [] = Unit
DistinctUids (h ∷ hs) = All (λ g. equal_int h.uid g.uid ≡ false) hs × DistinctUids hs

Before-below :
    (f g : ℕ → ℕ → Bool) (n i : ℕ) (js : List ℕ)
    → ((i j : ℕ) → i < n → j < n → f i j ≡ g i j)
    → i < n
    → All (λ j. j < n) js
    → Before f i js
    → Before g i js
Before-below f g n i [] e b a h = tt
Before-below f g n i (j ∷ js) e b a h =
    (sym (e i j b a.0) ∙ h.0, Before-below f g n i js e b a.1 h.1)

Ascending-below :
    (f g : ℕ → ℕ → Bool) (n : ℕ) (js : List ℕ)
    → ((i j : ℕ) → i < n → j < n → f i j ≡ g i j)
    → All (λ j. j < n) js
    → Ascending f js
    → Ascending g js
Ascending-below f g n [] e a h = tt
Ascending-below f g n (j ∷ js) e a h =
    (Before-below f g n j js e a.0 a.1 h.0, Ascending-below f g n js e a.1 h.1)

Distinct-snoc :
    (n : ℕ) (xs : List ℕ) → has_index n xs ≡ false → Distinct xs → Distinct (xs ++ (n ∷ []))
unfolding has_index
Distinct-snoc n [] h d = (refl, tt)
Distinct-snoc n (x ∷ xs) h d = (
  ground (arith, d.0, has_index-append x xs (n ∷ []), ==_iff n x, ==_iff x n),
  Distinct-snoc n xs (ground arith) d.1,
)

note_all-IsRight :
    (p : ListPlatform) (hs : List Header) (m : MessageListModel)
    → IsRight p m
    → IsRight p (note_all hs m)
unfolding note_all
note_all-IsRight p [] m r = r
note_all-IsRight p (h ∷ hs) m r =
    note_all-IsRight p hs (note_markers h m) (note_markers-IsRight p h m r)

module _ (p : ListPlatform) where
  -- In the loop: the rows and the new indices together are what is visible.
  record Growing (a : Appending) : Type 0 where
    indexed : IsIndexed a.model
    ascending : Ascending (less_row a.model) a.model.rows
    members : (i : ℕ) → (has_index i a.model.rows || has_index i a.fresh) ≡ is_visible p a.model i
    apart : (i : ℕ) → has_index i a.fresh ≡ true → has_index i a.model.rows ≡ false
    distinct : Distinct a.fresh

  -- One new header at the end.
  module _ (h : Header) (a : Appending) (g : Growing a) (new : a.model.by_uid h.uid ≡ none) where
    abbrev m : MessageListModel
    m = a.model

    abbrev n : ℕ
    n = length m.all

    abbrev grown : Appending
    grown = append_known p h a none

    header_at-grown : (i : ℕ) → i < n → header_at grown.model.all i ≡ header_at m.all i
    unfolding append_known
    header_at-grown i l = get_or-append_front m.all (prime_keys p h ∷ []) i no_header l

    header_at-last : header_at grown.model.all n ≡ prime_keys p h
    unfolding append_known
    header_at-last = get_or-append_last m.all (prime_keys p h) no_header

    last_uid : (header_at grown.model.all n).uid ≡ h.uid
    unfolding prime_keys
    last_uid = ap (λ k. k.uid) header_at-last

    length-grown : length grown.model.all ≡ suc n
    unfolding append_known
    length-grown = omega (arith, length-append m.all (prime_keys p h ∷ []))

    grown-found :
        (u : ℤ) (i : ℕ)
        → grown.model.by_uid u ≡ some i
        → (i < suc n) × ((header_at grown.model.all i).uid ≡ u)
    unfolding append_known
    grown-found u i e = elim (Bool-cases (equal_int h.uid u)) [
      | inl q ↦
          let k : n ≡ i = ground arith in
          (
            omega arith,
            subst (λ j. (header_at grown.model.all j).uid ≡ u) k
                (last_uid ∙ (equal_int_iff h.uid u).0 q),
          )
      | inr q ↦
          let (b, at) = g.indexed.found u i (ground arith) in
          (omega arith, ap (λ k. k.uid) (header_at-grown i b) ∙ at)
    ]

    grown_complete :
        (i : ℕ) → i < suc n → grown.model.by_uid (header_at grown.model.all i).uid ≡ some i
    unfolding append_known
    grown_complete i l = elim (Bool-cases (i == n)) [
      | inl q ↦
          subst (λ j. grown.model.by_uid (header_at grown.model.all j).uid ≡ some j)
            (sym ((==_iff i n).0 q))
            (ap grown.model.by_uid last_uid ∙ ground (arith, equal_int_iff h.uid h.uid))
      | inr q ↦
          let b : i < n = ground arith in
          ap grown.model.by_uid (ap (λ k. k.uid) (header_at-grown i b))
          ∙ ground (arith, g.indexed.complete i b, new, equal_int_iff h.uid (header_at m.all i).uid)
    ]

    grown-below : (i j : ℕ) → i < n → j < n → less_row m i j ≡ less_row grown.model i j
    unfolding less_row append_known
    grown-below i j k l = cc (header_at-grown i k, header_at-grown j l)

    grown-visible :
        (i : ℕ)
        → is_visible p grown.model i
          ≡ (if i == n then is_shown p m (prime_keys p h) else is_visible p m i)
    unfolding is_shown append_known
    grown-visible i = ground (arith, length-grown, header_at-grown i, header_at-last)

    grown-fresh :
        grown.fresh ≡ (if is_shown p m (prime_keys p h) then a.fresh ++ (n ∷ []) else a.fresh)
    unfolding append_known is_shown
    grown-fresh = elim (Bool-cases (has_filter p m || not (m.color_filter == 0))) [
      | inl e ↦ elim (Bool-cases (matches_filter p m (prime_keys p h))) [
        | inl k ↦ rw e (rw k refl)
        | inr k ↦ rw e (rw k refl)
      ]
      | inr e ↦ rw e refl
    ]

    has_index-grown :
        (i : ℕ)
        → has_index i grown.fresh
          ≡ (if i == n then is_shown p m (prime_keys p h) else has_index i a.fresh)
    unfolding has_index
    has_index-grown i =
        ground (arith, grown-fresh, has_index-append i a.fresh (n ∷ []), g.members n, ==_iff i n)

    grown-rows : grown.model.rows ≡ m.rows
    unfolding append_known
    grown-rows = refl

    grown-Ascending : Ascending (less_row grown.model) grown.model.rows
    unfolding append_known
    grown-Ascending =
        Ascending-below (less_row m) (less_row grown.model) n m.rows grown-below
          (All-of-has_index (λ i. i < n) m.rows (λ i e. ground (arith, g.members i))) g.ascending

    grown-Distinct : Distinct grown.fresh
    grown-Distinct = elim (Bool-cases (is_shown p m (prime_keys p h))) [
      | inl e ↦
          rw (grown-fresh, e) (Distinct-snoc n a.fresh (ground (arith, g.members n)) g.distinct)
      | inr e ↦ rw (grown-fresh, e) g.distinct
    ]

    grown-Growing : Growing grown
    grown-Growing = record {
      indexed = record {
        found = λ u i e. let (b, at) = grown-found u i e in (omega (arith, length-grown), at);
        complete = λ i l. grown_complete i (omega (arith, length-grown));
      };
      ascending = grown-Ascending;
      members = λ i. ground (
        arith,
        has_index-grown i,
        grown-rows,
        grown-visible i,
        g.members i,
        g.members n,
        ==_iff i n,
      );
      apart =
          λ i e. ground (arith, has_index-grown i, grown-rows, g.members n, g.apart i, ==_iff i n);
      distinct = grown-Distinct;
    }

  still_new :
      (h : Header) (a : Appending) (hs : List Header)
      → All (λ g. a.model.by_uid g.uid ≡ none) hs
      → All (λ g. equal_int h.uid g.uid ≡ false) hs
      → All (λ g. (append_known p h a none).model.by_uid g.uid ≡ none) hs
  unfolding append_known
  still_new h a [] new d = tt
  still_new h a (g ∷ hs) new d = (ground (arith, new.0, d.0), still_new h a hs new.1 d.1)

  start :
      (m : MessageListModel)
      → IsIndexed m
      → Shows p m
      → Growing (record { model = m; fresh = []; added = 0 })
  unfolding has_index
  start m x s = record {
    indexed = x;
    ascending = s.ascending;
    members = λ i. ground (arith, s.members i);
    apart = λ i e. absurd (ground arith);
    distinct = tt;
  }

  append_loop-Growing :
      (hs : List Header) (a : Appending)
      → Growing a
      → All (λ h. a.model.by_uid h.uid ≡ none) hs
      → DistinctUids hs
      → Growing (append_loop p hs a)
  unfolding append_loop
  append_loop-Growing [] a g new d = g
  append_loop-Growing (h ∷ hs) a g new d = rw new.0 (
      append_loop-Growing hs (append_known p h a none) (grown-Growing h a g new.0)
        (still_new h a hs new.1 d.0) d.1)

  -- The rows behind the loop: those of before and the new ones.
  abbrev all_rows : Appending → List ℕ
  all_rows a =
      let less = less_row a.model in
      insert_runs less (length a.fresh) a.model.rows (sort_rows less a.fresh)

  fresh_below : (a : Appending) → Growing a → All (λ i. i < length a.model.all) a.fresh
  fresh_below a g =
      All-of-has_index (λ i. i < length a.model.all) a.fresh (λ i e. ground (arith, g.members i))

  all_rows-Ascending : (a : Appending) → Growing a → Ascending (less_row a.model) (all_rows a)
  all_rows-Ascending a g =
      let m = a.model in
      let less = less_row m in
      let n = length m.all in
      let P = λ (i : ℕ). i < n in
      let connected = less_row_connected m g.indexed in
      insert_runs-Ascending less n (less_row_trans m) (less_row_irrefl m) connected (length a.fresh)
        m.rows (sort_rows less a.fresh) (omega (arith, length-sort_rows less a.fresh))
        (All-of-has_index P m.rows (λ i e. ground (arith, g.members i)))
        (All-of-has_index P (sort_rows less a.fresh)
          (λ i e. ground (arith, g.members i, has_index-sort_rows less i a.fresh)))
        g.ascending
        (sort_rows-Ascending less n (less_row_trans m) connected a.fresh (fresh_below a g)
          g.distinct)
        (λ i e. g.apart i (sym (has_index-sort_rows less i a.fresh) ∙ e))

  all_rows-members :
      (a : Appending) → Growing a → (i : ℕ) → has_index i (all_rows a) ≡ is_visible p a.model i
  all_rows-members a g i =
      let less = less_row a.model in
      has_index-insert_runs less i (length a.fresh) a.model.rows (sort_rows less a.fresh)
        (omega (arith, length-sort_rows less a.fresh))
      ∙ (ap (λ b. has_index i a.model.rows || b) (has_index-sort_rows less i a.fresh) ∙ g.members i)

  place_fresh-IsRight :
      (hs : List Header) (a : Appending) → Growing a → IsRight p (place_fresh p hs a).0
  unfolding place_fresh less_row is_shown
  place_fresh-IsRight hs a g =
      note_all-IsRight p hs (record a.model { rows = all_rows a })
        (
          record { found = g.indexed.found; complete = g.indexed.complete },
          record { ascending = all_rows-Ascending a g; members = all_rows-members a g },
        )

  -- Headers whose uids are new and different leave exactly the rows that a rebuild gives.
  pub append_headers-IsRight :
      (hs : List Header) (m : MessageListModel)
      → IsRight p m
      → All (λ h. m.by_uid h.uid ≡ none) hs
      → DistinctUids hs
      → IsRight p (append_headers p hs m).0
  unfolding append_headers
  append_headers-IsRight [] m r new d = r
  append_headers-IsRight (h ∷ hs) m (x, s) new d = place_fresh-IsRight (h ∷ hs) _ (
      append_loop-Growing (h ∷ hs) (record { model = m; fresh = []; added = 0 }) (start m x s) new
        d)
