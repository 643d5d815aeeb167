-- ===== src/MessageListModel/Steps.antt =====
-- The list after any run of the operations that `Step` lists. Left out are removeByUids,
-- clearSpamFrom, and what may change the keys that the rows are sorted by and so leave them out of
-- order: setAttachKind and an append that refreshes a listed header.
use mailove.Common.{
  negsuc, ◌==◌, ◌&&◌, leb, same_bool, arith, ℕ, ◌<◌, ◌≡◌, refl, Bool, true, false, List, [], All,
  Option, none, some, ℤ, Bytes, length, get_elem?,
}
use mailove.Common.Rows.{index_from, has_index}
use mailove.MessageListModel.{
  Header, MessageListModel, ListPlatform, SortColumn, by_date, is_shown, rebuild_visible,
  visible_row_of,
}
use mailove.MessageListModel.Append.{append_headers}
use mailove.MessageListModel.Changes.{
  set_headers, clear, apply_filter, set_color_filter, sort_by, set_color_label, set_crypto,
  set_attach_counts, clear_spam, set_spam_verdict, mark_seen, mark_unseen, set_seen, mark_all_seen,
  set_forwarded, row_for_uid, row_index,
}
use mailove.MessageListModel.Current.{IsRight, Shows-rebuild_visible, visible_row_of-index_from}
use mailove.MessageListModel.Steady.{
  update_at-IsRight, map-IsRight, change_at-IsRight, change_marked-IsRight,
}
use mailove.MessageListModel.Appended.{DistinctUids, append_headers-IsRight}
use mailove.MessageListModel.Rebuilt.{
  set_headers-IsRight, apply_filter-IsRight, set_color_filter-IsRight, sort_by-IsRight,
  clear-IsRight,
}
use mailove.MessageListModel.Labelled.{set_color_label-IsRight}

abbrev pub empty_list : MessageListModel
empty_list = record {
  all = [];
  rows = [];
  by_uid = λ u. none;
  filter = [];
  color_filter = 0;
  marker_count = 0;
  sort_column = by_date;
  sort_descending = true;
}

module _ (p : ListPlatform) where
  pub data Step : MessageListModel → MessageListModel → Type 0 where
    filled :
        {m : MessageListModel} (hs : List Header) → DistinctUids hs → Step m (set_headers p hs m)
    appended :
        {m : MessageListModel} (hs : List Header)
        → All (λ h. m.by_uid h.uid ≡ none) hs
        → DistinctUids hs
        → Step m (append_headers p hs m).0
    cleared : {m : MessageListModel} → Step m (clear m)
    filtered :
        {m : MessageListModel} (pattern_text : Bytes) → Step m (apply_filter p pattern_text m)
    colored : {m : MessageListModel} (color : ℕ) → Step m (set_color_filter p color m)
    sorted :
        {m : MessageListModel} (column : SortColumn) (down : Bool) → Step m (sort_by column down m)
    labelled : {m : MessageListModel} (uid : ℤ) (color : ℕ) → Step m (set_color_label p uid color m)
    encrypted : {m : MessageListModel} (uid : ℤ) (kind : ℕ) → Step m (set_crypto uid kind m)
    counted :
        {m : MessageListModel} (uid : ℤ) (files calendars : ℕ)
        → Step m (set_attach_counts uid files calendars m)
    unmarked : {m : MessageListModel} (uid : ℤ) → Step m (clear_spam uid m)
    judged :
        {m : MessageListModel} (uid score : ℤ) (state : ℕ) (detail : Bytes)
        → Step m (set_spam_verdict uid score state detail m)
    read : {m : MessageListModel} (row : ℕ) → Step m (mark_seen row m)
    unread : {m : MessageListModel} (row : ℕ) → Step m (mark_unseen row m)
    read_all : {m : MessageListModel} → Step m (mark_all_seen m)
    forwarded : {m : MessageListModel} (uid : ℤ) (on : Bool) → Step m (set_forwarded uid on m)

  pub data Reach (m : MessageListModel) : MessageListModel → Type 0 where
    here : Reach m m
    next : {n o : MessageListModel} → Reach m n → Step n o → Reach m o

  set_seen-IsRight :
      (seen : Bool) (o : Option ℕ) (m : MessageListModel)
      → IsRight p m
      → IsRight p (set_seen seen o m)
  unfolding set_seen is_shown
  set_seen-IsRight seen none m r = r
  set_seen-IsRight seen (some i) m r =
      update_at-IsRight p m r (λ h. record h { seen = seen }) (λ h. (refl, refl, refl, refl, refl))
        (λ h. refl) i

  Step-IsRight : {m n : MessageListModel} → Step m n → IsRight p m → IsRight p n
  unfolding set_crypto set_attach_counts clear_spam set_spam_verdict mark_seen mark_unseen
      mark_all_seen set_forwarded is_shown
  Step-IsRight {m = m} (filled hs d) r = set_headers-IsRight p hs m d
  Step-IsRight {m = m} (appended hs new d) r = append_headers-IsRight p hs m r new d
  Step-IsRight {m = m} cleared r = clear-IsRight p m
  Step-IsRight {m = m} (filtered pattern_text) r = apply_filter-IsRight p pattern_text m r
  Step-IsRight {m = m} (colored color) r = set_color_filter-IsRight p color m r
  Step-IsRight {m = m} (sorted column down) r = sort_by-IsRight p column down m r
  Step-IsRight {m = m} (labelled uid color) r = set_color_label-IsRight p uid color m r
  Step-IsRight {m = m} (encrypted uid kind) r =
      change_marked-IsRight p m r (λ h. record h { crypto = kind })
        (λ h. (refl, refl, refl, refl, refl)) (λ h. refl) (m.by_uid uid) (λ h. h.crypto == kind)
  Step-IsRight {m = m} (counted uid files calendars) r =
      change_at-IsRight p m r (λ h. record h { attach_count = files; calendar_count = calendars })
        (λ h. (refl, refl, refl, refl, refl)) (λ h. refl) (m.by_uid uid)
        (λ h. h.attach_count == files && h.calendar_count == calendars)
  Step-IsRight {m = m} (unmarked uid) r =
      change_at-IsRight p m r
        (λ h. record h { spam_score = negsuc 998; spam_state = 4; spam_detail = [] })
        (λ h. (refl, refl, refl, refl, refl)) (λ h. refl) (m.by_uid uid) (λ h. false)
  Step-IsRight {m = m} (judged uid score state detail) r =
      change_at-IsRight p m r
        (λ h. record h { spam_score = score; spam_state = state; spam_detail = detail })
        (λ h. (refl, refl, refl, refl, refl)) (λ h. refl) (m.by_uid uid) (λ h. leb 3 h.spam_state)
  Step-IsRight {m = m} (read row) r = set_seen-IsRight true (get_elem? m.rows row) m r
  Step-IsRight {m = m} (unread row) r = set_seen-IsRight false (get_elem? m.rows row) m r
  Step-IsRight {m = m} read_all r =
      map-IsRight p m r (λ h. record h { seen = true }) (λ h. (refl, refl, refl, refl, refl))
        (λ h. refl)
  Step-IsRight {m = m} (forwarded uid on) r =
      change_marked-IsRight p m r (λ h. record h { forwarded = on })
        (λ h. (refl, refl, refl, refl, refl)) (λ h. refl) (row_index m (row_for_uid m uid))
        (λ h. same_bool h.forwarded on)

  empty_list-IsRight : IsRight p empty_list
  unfolding has_index
  empty_list-IsRight = (
    record { found = λ u i e. absurd (ground arith); complete = λ i l. elim l [ ] },
    record { ascending = tt; members = λ i. ground arith },
  )

  Reach-IsRight : {m n : MessageListModel} → IsRight p m → Reach m n → IsRight p n
  Reach-IsRight r here = r
  Reach-IsRight r (next q s) = Step-IsRight s (Reach-IsRight r q)

  -- After any run, from the empty list, of fills with distinct UIDs, appends of distinct UIDs that
  -- the list has not, clears, text and color filters, sorts, and changes of one header's color
  -- label, encryption mark, attachment counts, spam mark, read mark (or of all read marks) and
  -- forwarded mark, the rows on screen are those that a rebuild from scratch gives. No run with a
  -- removal, clearSpamFrom, setAttachKind or a refresh of a listed header is meant.
  pub Reach-rebuild_visible :
      (m : MessageListModel) → Reach empty_list m → m.rows ≡ (rebuild_visible p m).rows
  Reach-rebuild_visible m q =
      let (x, s) = Reach-IsRight empty_list-IsRight q in Shows-rebuild_visible p m x s

  -- After any run, from the empty list, of fills with distinct UIDs, appends of distinct UIDs that
  -- the list has not, clears, text and color filters, sorts, and changes of one header's color
  -- label, encryption mark, attachment counts, spam mark, read mark (or of all read marks) and
  -- forwarded mark, the binary search for the row of a header finds the row that a scan of all rows
  -- finds, and none where no row is the header's. No run with a removal, clearSpamFrom,
  -- setAttachKind or a refresh of a listed header is meant.
  pub Reach-visible_row_of :
      (m : MessageListModel)
      → Reach empty_list m
      → (i : ℕ) → i < length m.all
      → visible_row_of m i ≡ index_from 0 m.rows i
  Reach-visible_row_of m q i h =
      let (x, s) = Reach-IsRight empty_list-IsRight q in visible_row_of-index_from p m x s i h
