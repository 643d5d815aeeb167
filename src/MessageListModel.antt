-- ===== src/MessageListModel.antt =====
-- The list of a folder's messages (messagelistmodel.cpp): every header that was fetched, the rows
-- on screen as sorted indices, and the map from a message's uid to its header.
pub mod Changes
pub mod Append
pub mod Order
pub mod Current
pub mod Steady
pub mod Appended
pub mod Rebuilt
pub mod Labelled
pub mod Steps
use mailove.Common.{
  ℕ, zero, suc, ◌+◌, Bool, true, false, not, ◌&&◌, ◌||◌, List, [], ◌∷◌, ◌++◌, Option, none, some,
  max, length, get_or, if◌then◌else◌, Bytes, ℤ, pos, negsuc, less_int, equal_int, is_empty, ltb,
  ◌==◌, equal,
}
use mailove.Common.Texts.{less_text}
use mailove.Common.Rows.{sort_rows, search_row}

-- Header. A date is its seconds, or none where it is not valid; the kinds and states are those of
-- AttachKind and SpamState.
pub record Header : Type 0 where
  pub uid : ℤ
  pub subject : Bytes
  pub sender : Bytes
  pub recipients : Bytes
  pub date : Option ℤ
  pub seen : Bool
  pub forwarded : Bool
  pub suspicious : Bool
  pub auth_info : Bytes
  pub attach_kind : ℕ
  pub attach_count : ℕ
  pub calendar_count : ℕ
  pub color_label : ℕ
  pub crypto : ℕ
  pub spam_score : ℤ
  pub spam_state : ℕ
  pub spam_detail : Bytes
  pub msgid : Bytes
  pub remote_id : Bytes
  pub date_secs : ℤ
  pub sender_key : Bytes
  pub subject_key : Bytes

abbrev pub no_header : Header
no_header = record {
  uid = negsuc 0;
  subject = [];
  sender = [];
  recipients = [];
  date = none;
  seen = false;
  forwarded = false;
  suspicious = false;
  auth_info = [];
  attach_kind = 0;
  attach_count = 0;
  calendar_count = 0;
  color_label = 0;
  crypto = 0;
  spam_score = pos 0;
  spam_state = 0;
  spam_detail = [];
  msgid = [];
  remote_id = [];
  date_secs = pos 0;
  sender_key = [];
  subject_key = [];
}

pub data SortColumn : Type 0 where
  by_date by_sender by_subject by_attachment : SortColumn

-- A filter is the text of its pattern; an m_byUid is the function that looks a uid up.
pub record MessageListModel : Type 0 where
  pub all : List Header
  pub rows : List ℕ
  pub by_uid : ℤ → Option ℕ
  pub filter : Bytes
  pub color_filter : ℕ
  pub marker_count : ℕ
  pub sort_column : SortColumn
  pub sort_descending : Bool

-- What the list takes from Qt: case folding of a text, and regular expressions.
pub record ListPlatform : Type 0 where
  pub case_fold : Bytes → Bytes
  pub is_pattern : Bytes → Bool
  pub pattern_matches : Bytes → Bytes → Bool

unfoldable pub kind_has_attachment : ℕ → Bool
kind_has_attachment kind = kind == 1 || kind == 2 || kind == 4

unfoldable pub kind_has_file : ℕ → Bool
kind_has_file kind = kind == 1 || kind == 4

unfoldable pub kind_has_calendar : ℕ → Bool
kind_has_calendar kind = kind == 2 || kind == 4

abbrev pub count_of : Bool → ℕ
count_of true = 1
count_of false = 0

-- markerGlyphsOf
unfoldable pub marker_glyphs : Header → ℕ
unfolding kind_has_file kind_has_calendar
marker_glyphs h =
    count_of h.forwarded
    + count_of (ltb 0 h.crypto)
    + count_of (kind_has_calendar h.attach_kind)
    + count_of (kind_has_file h.attach_kind)

-- The loop of refreshMarkerCount, which ends at 4.
unfoldable pub most_glyphs : ℕ → List Header → ℕ
unfolding marker_glyphs
most_glyphs most [] = most
most_glyphs most (h ∷ hs) =
    let now = max most (marker_glyphs h) in
    let rest = most_glyphs now hs in if now == 4 then now else rest

unfoldable pub refresh_marker_count : MessageListModel → MessageListModel
unfolding most_glyphs
refresh_marker_count m = record m { marker_count = most_glyphs 0 m.all }

unfoldable pub note_markers : Header → MessageListModel → MessageListModel
unfolding marker_glyphs
note_markers h m =
    if ltb m.marker_count (marker_glyphs h) then record m { marker_count = marker_glyphs h } else m

-- The sign of a comparison: whether a is before b, and whether b is before a.
abbrev pub Sign : Type 0
Sign = Bool × Bool

abbrev pub bool_less : Bool → Bool → Bool
bool_less a b = not a && b

abbrev sign_of : Bool → Bool → Sign
sign_of before after = (before, after)

-- c of lessThan, by the column.
unfoldable pub compare_by : SortColumn → Header → Header → Sign
unfolding less_int less_text kind_has_attachment
compare_by by_date a b = (less_int a.date_secs b.date_secs, less_int b.date_secs a.date_secs)
compare_by by_sender a b =
    (less_text a.sender_key b.sender_key, less_text b.sender_key a.sender_key)
compare_by by_subject a b =
    (less_text a.subject_key b.subject_key, less_text b.subject_key a.subject_key)
compare_by by_attachment a b =
    let x = kind_has_attachment a.attach_kind in
    let y = kind_has_attachment b.attach_kind in
    if bool_less x y || bool_less y x
    then (bool_less x y, bool_less y x)
    else (less_int b.date_secs a.date_secs, less_int a.date_secs b.date_secs)

-- lessThan
unfoldable pub less_than : SortColumn → Bool → Header → Header → Bool
unfolding compare_by less_int equal_int
less_than column descending a b =
    let (before, after) = compare_by column a b in
    if before || after
    then (if descending then after else before)
    else if equal_int a.uid b.uid
    then false
    else if descending
    then less_int b.uid a.uid
    else less_int a.uid b.uid

-- at(i), where there is an i-th header
abbrev pub header_at : List Header → ℕ → Header
header_at all i = get_or all i no_header

-- cmp, on indices
unfoldable pub less_row : MessageListModel → ℕ → ℕ → Bool
unfolding less_than
less_row m i j = less_than m.sort_column m.sort_descending (header_at m.all i) (header_at m.all j)

-- visibleRowOf
unfoldable pub visible_row_of : MessageListModel → ℕ → Option ℕ
unfolding less_row search_row
visible_row_of m i = if ltb i (length m.all) then search_row (less_row m) m.rows i else none

abbrev insert_uid : ℤ → ℕ → (ℤ → Option ℕ) → ℤ → Option ℕ
insert_uid u i known v = if equal_int u v then some i else known v

unfoldable pub index_uids : ℕ → List Header → (ℤ → Option ℕ) → ℤ → Option ℕ
unfolding equal_int
index_uids i [] known = known
index_uids i (h ∷ hs) known = index_uids (suc i) hs (insert_uid h.uid i known)

unfoldable pub reindex : MessageListModel → MessageListModel
unfolding index_uids
reindex m = record m { by_uid = index_uids 0 m.all (λ u. none) }

module _ (p : ListPlatform) where
  open p use {case_fold, is_pattern, pattern_matches}

  -- primeKeys
  unfoldable pub prime_keys : Header → Header
  unfolding is_empty
  prime_keys h = record h {
    date_secs = elim h.date [ none ↦ pos 0 | some secs ↦ secs ];
    sender_key = case_fold (if is_empty h.recipients then h.sender else h.recipients);
    subject_key = case_fold h.subject;
  }

  unfoldable pub has_filter : MessageListModel → Bool
  unfolding is_empty
  has_filter m = is_pattern m.filter && not (is_empty m.filter)

  unfoldable pub matches_filter : MessageListModel → Header → Bool
  unfolding has_filter
  matches_filter m h =
      if not (m.color_filter == 0) && not (h.color_label == m.color_filter)
      then false
      else if not (has_filter m)
      then true
      else pattern_matches m.filter h.subject || pattern_matches m.filter h.sender

  -- !filtered || matchesFilter
  unfoldable pub is_shown : MessageListModel → Header → Bool
  unfolding matches_filter
  is_shown m h = not (has_filter m || not (m.color_filter == 0)) || matches_filter m h

  -- The loop of rebuildVisible from header i on.
  unfoldable pub shown_from : MessageListModel → ℕ → List Header → List ℕ
  unfolding is_shown
  shown_from m i [] = []
  shown_from m i (h ∷ hs) =
      let rest = shown_from m (suc i) hs in if is_shown m h then i ∷ rest else rest

  -- rebuildVisible; the model is reset only if the rows differ, which leaves the same rows.
  unfoldable pub rebuild_visible : MessageListModel → MessageListModel
  unfolding shown_from less_row sort_rows
  rebuild_visible m = record m { rows = sort_rows (less_row m) (shown_from m 0 m.all) }
