-- ===== src/MessageListModel/Changes.antt =====
-- The other operations of the list, and what the view and the application read from it. A row is a
-- natural number; one that is not there gives what the code gives for it.
use mailove.Common.{
  same_bool, ℕ, suc, Bool, true, false, not, ◌&&◌, ◌||◌, List, [], ◌∷◌, ◌++◌, Option, none, some,
  length, get_elem?, set, drop, take, map, if◌then◌else◌, Bytes, ℤ, pos, negsuc, less_int,
  equal_int, ltb, leb, ◌==◌, equal,
}
use mailove.Common.Rows.{sort_rows, upper_bound}
use mailove.MessageListModel.{
  Header, MessageListModel, ListPlatform, SortColumn, by_date, by_sender, by_subject, by_attachment,
  header_at, less_row, note_markers, prime_keys, matches_filter, visible_row_of, reindex,
  rebuild_visible, refresh_marker_count,
}

unfoldable pub same_column : SortColumn → SortColumn → Bool
same_column by_date by_date = true
same_column by_sender by_sender = true
same_column by_subject by_subject = true
same_column by_attachment by_attachment = true
same_column _ _ = false

unfoldable pub resort_visible : MessageListModel → MessageListModel
unfolding sort_rows less_row
resort_visible m =
    if ltb (length m.rows) 2 then m else record m { rows = sort_rows (less_row m) m.rows }

unfoldable pub sort_by : SortColumn → Bool → MessageListModel → MessageListModel
unfolding resort_visible same_column
sort_by column descending m =
    if same_column m.sort_column column && same_bool m.sort_descending descending
    then m
    else resort_visible (record m { sort_column = column; sort_descending = descending })

-- Writes one header.
abbrev pub update_at : ℕ → (Header → Header) → MessageListModel → MessageListModel
update_at i f m = record m { all = set m.all i (f (header_at m.all i)) }

-- The header of a row, if there is such a row.
unfoldable pub header_of_row : MessageListModel → ℕ → Option Header
header_of_row m row = elim (get_elem? m.rows row) [
  | none ↦ none
  | some i ↦ some (header_at m.all i)
]

unfoldable pub uid_at : MessageListModel → ℕ → ℤ
unfolding header_of_row
uid_at m row = elim (header_of_row m row) [ none ↦ negsuc 0 | some h ↦ h.uid ]

unfoldable pub seen_at : MessageListModel → ℕ → Bool
unfolding header_of_row
seen_at m row = elim (header_of_row m row) [ none ↦ false | some h ↦ h.seen ]

-- The threshold is SpamHeuristics::spamThreshold().
unfoldable pub spam_at : ℤ → MessageListModel → ℕ → Bool
unfolding header_of_row less_int
spam_at threshold m row = elim (header_of_row m row) [
  | none ↦ false
  | some h ↦ ltb h.spam_state 3 && not (less_int h.spam_score threshold)
]

unfoldable pub sender_at : MessageListModel → ℕ → Bytes
unfolding header_of_row
sender_at m row = elim (header_of_row m row) [ none ↦ [] | some h ↦ h.sender ]

unfoldable pub msgid_at : MessageListModel → ℕ → Bytes
unfolding header_of_row
msgid_at m row = elim (header_of_row m row) [ none ↦ [] | some h ↦ h.msgid ]

unfoldable pub color_label_at : MessageListModel → ℕ → ℕ
unfolding header_of_row
color_label_at m row = elim (header_of_row m row) [ none ↦ 0 | some h ↦ h.color_label ]

unfoldable pub forwarded_at : MessageListModel → ℕ → Bool
unfolding header_of_row
forwarded_at m row = elim (header_of_row m row) [ none ↦ false | some h ↦ h.forwarded ]

unfoldable pub spam_state_of : MessageListModel → ℤ → ℕ
spam_state_of m uid = elim (m.by_uid uid) [ none ↦ 0 | some i ↦ (header_at m.all i).spam_state ]

unfoldable pub row_for_uid : MessageListModel → ℤ → Option ℕ
unfolding less_int visible_row_of
row_for_uid m uid =
    if less_int uid (pos 0)
    then none
    else elim (m.by_uid uid) [ none ↦ none | some i ↦ visible_row_of m i ]

unfoldable pub all_uids : MessageListModel → List ℤ
all_uids m = map (λ h. h.uid) m.all

-- A setter by uid: nothing where the uid is not listed or `skip` holds of its header.
unfoldable pub change_at :
    Option ℕ → (Header → Bool) → (Header → Header) → MessageListModel → MessageListModel
change_at none skip f m = m
change_at (some i) skip f m = if skip (header_at m.all i) then m else update_at i f m

-- The same, and the markers of the changed header are counted.
unfoldable pub change_marked :
    Option ℕ → (Header → Bool) → (Header → Header) → MessageListModel → MessageListModel
unfolding note_markers
change_marked none skip f m = m
change_marked (some i) skip f m =
    if skip (header_at m.all i) then m else note_markers (f (header_at m.all i)) (update_at i f m)

unfoldable pub set_crypto : ℤ → ℕ → MessageListModel → MessageListModel
unfolding change_marked
set_crypto uid kind m =
    change_marked (m.by_uid uid) (λ h. h.crypto == kind) (λ h. record h { crypto = kind }) m

unfoldable pub set_attach_kind : ℤ → ℕ → MessageListModel → MessageListModel
unfolding change_marked
set_attach_kind uid kind m =
    change_marked (m.by_uid uid) (λ h. h.attach_kind == kind) (λ h. record h { attach_kind = kind })
      m

unfoldable pub set_attach_counts : ℤ → ℕ → ℕ → MessageListModel → MessageListModel
unfolding change_at
set_attach_counts uid files calendars m =
    change_at (m.by_uid uid) (λ h. h.attach_count == files && h.calendar_count == calendars)
      (λ h. record h { attach_count = files; calendar_count = calendars }) m

-- UserNotSpamWeight is -999, SpamUserCleared 4 and SpamExempt 3.
unfoldable pub clear_spam : ℤ → MessageListModel → MessageListModel
unfolding change_at
clear_spam uid m =
    change_at (m.by_uid uid) (λ h. false)
      (λ h. record h { spam_score = negsuc 998; spam_state = 4; spam_detail = [] }) m

unfoldable pub set_spam_verdict : ℤ → ℤ → ℕ → Bytes → MessageListModel → MessageListModel
unfolding change_at
set_spam_verdict uid score state detail m =
    change_at (m.by_uid uid) (λ h. leb 3 h.spam_state)
      (λ h. record h { spam_score = score; spam_state = state; spam_detail = detail }) m

unfoldable pub set_seen : Bool → Option ℕ → MessageListModel → MessageListModel
set_seen seen none m = m
set_seen seen (some i) m = update_at i (λ h. record h { seen = seen }) m

unfoldable pub mark_seen : ℕ → MessageListModel → MessageListModel
unfolding set_seen
mark_seen row m = set_seen true (get_elem? m.rows row) m

unfoldable pub mark_unseen : ℕ → MessageListModel → MessageListModel
unfolding set_seen
mark_unseen row m = set_seen false (get_elem? m.rows row) m

unfoldable pub mark_all_seen : MessageListModel → MessageListModel
mark_all_seen m = record m {
  all = map {A = Header} {B = Header} (λ h. record h { seen = true }) m.all;
}

unfoldable pub row_index : MessageListModel → Option ℕ → Option ℕ
row_index m none = none
row_index m (some row) = get_elem? m.rows row

unfoldable pub set_forwarded : ℤ → Bool → MessageListModel → MessageListModel
unfolding change_marked row_for_uid row_index
set_forwarded uid on m =
    change_marked (row_index m (row_for_uid m uid)) (λ h. same_bool h.forwarded on)
      (λ h. record h { forwarded = on }) m

unfoldable pub has_uid : ℤ → List ℤ → Bool
unfolding equal_int
has_uid uid [] = false
has_uid uid (u ∷ uids) = equal_int u uid || has_uid uid uids

unfoldable pub kept_rows : List ℤ → List Header → List ℕ → List ℕ
unfolding has_uid
kept_rows gone all [] = []
kept_rows gone all (i ∷ rows) =
    let rest = kept_rows gone all rows in
    if has_uid (header_at all i).uid gone then rest else i ∷ rest

unfoldable pub kept_headers : List ℤ → List Header → List Header
unfolding has_uid
kept_headers gone [] = []
kept_headers gone (h ∷ hs) =
    let rest = kept_headers gone hs in if has_uid h.uid gone then rest else h ∷ rest

-- m_byUid.value(uid)
abbrev index_or_first : Option ℕ → ℕ
index_or_first none = 0
index_or_first (some i) = i

-- removeByUids: the rows that stay are found again by their uids.
unfoldable pub remove_by_uids : List ℤ → MessageListModel → MessageListModel
unfolding kept_rows kept_headers reindex
remove_by_uids gone m =
    let visible : List ℤ = map (λ i. (header_at m.all i).uid) (kept_rows gone m.all m.rows) in
    let after = reindex (record m { all = kept_headers gone m.all }) in
    record after { rows = map (λ uid. index_or_first (after.by_uid uid)) visible }

unfoldable pub clear : MessageListModel → MessageListModel
unfolding refresh_marker_count
clear m = refresh_marker_count (record m { rows = []; all = []; by_uid = λ u. none; filter = [] })

-- The row of the changed header leaves, comes in, or stays.
unfoldable pub move_row : ℕ → Option ℕ → Bool → MessageListModel → MessageListModel
unfolding upper_bound less_row
move_row i (some row) fits m =
    if fits then m else record m { rows = take row m.rows ++ drop (suc row) m.rows }
move_row i none fits m =
    let at = upper_bound (less_row m) m.rows i in
    if fits then record m { rows = take at m.rows ++ (i ∷ drop at m.rows) } else m

module _ (p : ListPlatform) where
  unfoldable pub prime_all : List Header → List Header
  unfolding prime_keys
  prime_all [] = []
  prime_all (h ∷ hs) = prime_keys p h ∷ prime_all hs

  unfoldable pub set_headers : List Header → MessageListModel → MessageListModel
  unfolding prime_all reindex rebuild_visible refresh_marker_count
  set_headers headers m =
      refresh_marker_count (rebuild_visible p (reindex (record m { all = prime_all headers })))

  unfoldable pub apply_filter : Bytes → MessageListModel → MessageListModel
  unfolding equal rebuild_visible
  apply_filter pattern_text m =
      if equal m.filter pattern_text
      then m
      else rebuild_visible p (record m { filter = pattern_text })

  unfoldable pub set_color_filter : ℕ → MessageListModel → MessageListModel
  unfolding rebuild_visible
  set_color_filter color m =
      if m.color_filter == color then m else rebuild_visible p (record m { color_filter = color })

  unfoldable pub label_at : Option ℕ → ℕ → MessageListModel → MessageListModel
  unfolding move_row visible_row_of matches_filter
  label_at none color m = m
  label_at (some i) color m =
      let after = update_at i (λ h. record h { color_label = color }) m in
      move_row i (visible_row_of after i) (matches_filter p after (header_at after.all i)) after

  unfoldable pub set_color_label : ℤ → ℕ → MessageListModel → MessageListModel
  unfolding label_at
  set_color_label uid color m = label_at (m.by_uid uid) color m
