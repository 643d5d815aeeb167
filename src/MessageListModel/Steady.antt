-- ===== src/MessageListModel/Steady.antt =====
-- A change of one header that lessThan and the filter do not read leaves the rows right.
use mailove.Common.{
  ℕ, zero, suc, ◌≡◌, refl, sym, ap, ◌∙◌, inl, inr, Bool, List, [], ◌∷◌, arith, Bool-cases, length,
  Option, none, some, set, map, ltb, length-set,
}
use mailove.Common.Rows.{Before, Ascending}
use mailove.MessageListModel.{
  Header, MessageListModel, ListPlatform, SortColumn, by_date, by_sender, by_subject, by_attachment,
  header_at, no_header, less_row, less_than, compare_by, kind_has_attachment, is_shown,
  note_markers, marker_glyphs,
}
use mailove.MessageListModel.Order.{attached_key, by_attachment-key}
use mailove.MessageListModel.Changes.{update_at, change_at, change_marked}
use mailove.MessageListModel.Current.{IsIndexed, IsRight}

-- What lessThan reads of a header.
abbrev pub SameKeys : Header → Header → Type 0
SameKeys g h =
    (g.uid ≡ h.uid)
    × (g.date_secs ≡ h.date_secs)
    × (g.sender_key ≡ h.sender_key)
    × (g.subject_key ≡ h.subject_key)
    × (kind_has_attachment g.attach_kind ≡ kind_has_attachment h.attach_kind)

attached_key-SameKeys : (a b : Header) → SameKeys a b → attached_key a ≡ attached_key b
unfolding attached_key
attached_key-SameKeys a b h = cc

compare_by-SameKeys :
    (column : SortColumn) (a b c d : Header)
    → SameKeys a b
    → SameKeys c d
    → compare_by column a c ≡ compare_by column b d
unfolding compare_by
compare_by-SameKeys by_date a b c d h k = cc
compare_by-SameKeys by_sender a b c d h k = cc
compare_by-SameKeys by_subject a b c d h k = cc
compare_by-SameKeys by_attachment a b c d h k =
    by_attachment-key a c
    ∙ (cc (attached_key-SameKeys a b h, attached_key-SameKeys c d k) ∙ sym (by_attachment-key b d))

less_than-SameKeys :
    (column : SortColumn) (descending : Bool) (a b c d : Header)
    → SameKeys a b
    → SameKeys c d
    → less_than column descending a c ≡ less_than column descending b d
unfolding less_than
less_than-SameKeys column descending a b c d h k = cc (compare_by-SameKeys column a b c d h k)

-- Rows in one order are in any order that agrees with it.
Before-cong :
    (f g : ℕ → ℕ → Bool) (i : ℕ) (js : List ℕ)
    → ((i j : ℕ) → f i j ≡ g i j)
    → Before f i js
    → Before g i js
Before-cong f g i [] e h = tt
Before-cong f g i (j ∷ js) e h = (sym (e i j) ∙ h.0, Before-cong f g i js e h.1)

Ascending-cong :
    (f g : ℕ → ℕ → Bool) (js : List ℕ)
    → ((i j : ℕ) → f i j ≡ g i j)
    → Ascending f js
    → Ascending g js
Ascending-cong f g [] e h = tt
Ascending-cong f g (j ∷ js) e h = (Before-cong f g j js e h.0, Ascending-cong f g js e h.1)

-- The headers `changed` in place of those of `m`.
module _ (m : MessageListModel) (changed : List Header) (long : length changed ≡ length m.all)
    (same : (j : ℕ) → SameKeys (header_at changed j) (header_at m.all j)) where
  abbrev after : MessageListModel
  after = record m { all = changed }

  pub after-IsIndexed : IsIndexed m → IsIndexed after
  after-IsIndexed x = record {
    found = λ u j h. let (b, e) = x.found u j h in (omega arith, (same j).0 ∙ e);
    complete = λ j h. ap m.by_uid (same j).0 ∙ x.complete j (omega arith);
  }

  less_row-after : (a b : ℕ) → less_row m a b ≡ less_row after a b
  unfolding less_row
  less_row-after a b =
      sym (less_than-SameKeys m.sort_column m.sort_descending _ _ _ _ (same a) (same b))

  pub after-Ascending : Ascending (less_row m) m.rows → Ascending (less_row after) m.rows
  after-Ascending = Ascending-cong (less_row m) (less_row after) m.rows less_row-after

  pub after-IsRight :
      (p : ListPlatform)
      → ((j : ℕ) → is_shown p m (header_at changed j) ≡ is_shown p m (header_at m.all j))
      → IsRight p m
      → IsRight p after
  unfolding is_shown
  after-IsRight p shown (x, s) = (
    after-IsIndexed x,
    record {
      ascending = after-Ascending s.ascending;
      members = λ j. s.members j ∙ ground (arith, shown j);
    },
  )

-- One header changed by `f`, or all of them.
module _ {κ} (P : Header → Header → Type κ) (f : Header → Header) (level : (h : Header) → P h h)
    (keeps : (h : Header) → P (f h) h) where
  pub header_at-set :
      (hs : List Header) (i j : ℕ)
      → P (header_at (set hs i (f (header_at hs i))) j) (header_at hs j)
  header_at-set [] i j = level no_header
  header_at-set (h ∷ hs) zero zero = keeps h
  header_at-set (h ∷ hs) zero (suc j) = level (header_at hs j)
  header_at-set (h ∷ hs) (suc i) zero = level h
  header_at-set (h ∷ hs) (suc i) (suc j) = header_at-set hs i j

  header_at-map : (hs : List Header) (j : ℕ) → P (header_at (map f hs) j) (header_at hs j)
  header_at-map [] j = level no_header
  header_at-map (h ∷ hs) zero = keeps h
  header_at-map (h ∷ hs) (suc j) = header_at-map hs j

length-map : (f : Header → Header) (hs : List Header) → length (map f hs) ≡ length hs
length-map f [] = refl
length-map f (h ∷ hs) = ap suc (length-map f hs)

pub note_markers-IsRight :
    (p : ListPlatform) (h : Header) (m : MessageListModel)
    → IsRight p m
    → IsRight p (note_markers h m)
unfolding note_markers is_shown less_row
note_markers-IsRight p h m (x, s) = elim (Bool-cases (ltb m.marker_count (marker_glyphs h))) [
  | inl e ↦ rw e (
    record { found = x.found; complete = x.complete },
    record { ascending = s.ascending; members = s.members },
  )
  | inr e ↦ rw e (x, s)
]

-- A change that keeps the keys and what the filter shows keeps the rows right.
module _ (p : ListPlatform) (m : MessageListModel) (r : IsRight p m) (f : Header → Header)
    (same : (h : Header) → SameKeys (f h) h)
    (shown : (h : Header) → is_shown p m (f h) ≡ is_shown p m h) where
  pub update_at-IsRight : (i : ℕ) → IsRight p (update_at i f m)
  update_at-IsRight i =
      after-IsRight m (set m.all i (f (header_at m.all i)))
        (length-set m.all i (f (header_at m.all i)))
        (header_at-set SameKeys f (λ h. (refl, refl, refl, refl, refl)) same m.all i) p
        (header_at-set (λ g h. is_shown p m g ≡ is_shown p m h) f (λ h. refl) shown m.all i) r

  pub map-IsRight : IsRight p (record m { all = map f m.all })
  map-IsRight =
      after-IsRight m (map f m.all) (length-map f m.all)
        (header_at-map SameKeys f (λ h. (refl, refl, refl, refl, refl)) same m.all) p
        (header_at-map (λ g h. is_shown p m g ≡ is_shown p m h) f (λ h. refl) shown m.all) r

  pub change_at-IsRight : (o : Option ℕ) (skip : Header → Bool) → IsRight p (change_at o skip f m)
  unfolding change_at
  change_at-IsRight none skip = r
  change_at-IsRight (some i) skip = elim (Bool-cases (skip (header_at m.all i))) [
    | inl e ↦ rw e r
    | inr e ↦ rw e (update_at-IsRight i)
  ]

  pub change_marked-IsRight :
      (o : Option ℕ) (skip : Header → Bool) → IsRight p (change_marked o skip f m)
  unfolding change_marked
  change_marked-IsRight none skip = r
  change_marked-IsRight (some i) skip = elim (Bool-cases (skip (header_at m.all i))) [
    | inl e ↦ rw e r
    | inr e ↦
        rw e
          (note_markers-IsRight p (f (header_at m.all i)) (update_at i f m) (update_at-IsRight i))
  ]
