-- ===== src/MessageListModel/Append.antt =====
-- appendHeaders: headers that are listed are refreshed, new ones go into the rows in sorted runs.
use mailove.Common.{
  ℕ, suc, true, not, ◌&&◌, ◌||◌, List, [], ◌∷◌, ◌++◌, Option, none, some, length, set,
  if◌then◌else◌, ltb, ◌==◌,
}
use mailove.Common.Rows.{sort_rows, insert_runs}
use mailove.MessageListModel.{
  Header, MessageListModel, ListPlatform, header_at, less_row, note_markers, prime_keys, has_filter,
  matches_filter, insert_uid,
}

-- merged: what the server does not know, or knows less of, is kept.
unfoldable pub merge_header : Header → Header → Header
merge_header existing h = record h {
  attach_kind =
      if ltb 1 existing.attach_kind && h.attach_kind == 1
      then existing.attach_kind
      else h.attach_kind;
  seen = if existing.seen then true else h.seen;
  color_label = if not (existing.color_label == 0) then existing.color_label else h.color_label;
  crypto = if ltb h.crypto existing.crypto && ltb 0 h.crypto then existing.crypto else h.crypto;
}

-- The variables of the loop over the headers.
pub record Appending : Type 0 where
  pub model : MessageListModel
  pub fresh : List ℕ
  pub added : ℕ

unfoldable pub note_all : List Header → MessageListModel → MessageListModel
unfolding note_markers
note_all [] m = m
note_all (h ∷ hs) m = note_all hs (note_markers h m)

module _ (p : ListPlatform) where
  -- One header of the loop: `known` is what m_byUid holds for it.
  unfoldable pub append_known : Header → Appending → Option ℕ → Appending
  unfolding merge_header prime_keys has_filter matches_filter
  append_known h a (some i) =
      let m = a.model in
      let merged = prime_keys p (merge_header (header_at m.all i) h) in
      record a { model = record m { all = set m.all i merged } }
  append_known h a none =
      let m = a.model in
      let at = length m.all in
      let primed = prime_keys p h in
      record {
        model = record m { all = m.all ++ (primed ∷ []); by_uid = insert_uid h.uid at m.by_uid };
        fresh =
            if (has_filter p m || not (m.color_filter == 0)) && not (matches_filter p m primed)
            then a.fresh
            else a.fresh ++ (at ∷ []);
        added = suc a.added;
      }

  unfoldable pub append_loop : List Header → Appending → Appending
  unfolding append_known
  append_loop [] a = a
  append_loop (h ∷ hs) a = append_loop hs (append_known h a (a.model.by_uid h.uid))

  -- Behind the loop: the new rows go in, and the markers are counted.
  unfoldable pub place_fresh : List Header → Appending → MessageListModel × ℕ
  unfolding sort_rows insert_runs less_row note_all
  place_fresh hs a =
      let m = a.model in
      let rows =
        insert_runs (less_row m) (length a.fresh) m.rows (sort_rows (less_row m) a.fresh) in
      (note_all hs (record m { rows = rows }), a.added)

  unfoldable pub append_headers : List Header → MessageListModel → MessageListModel × ℕ
  unfolding append_loop place_fresh
  append_headers [] m = (m, 0)
  append_headers (h ∷ hs) m =
      place_fresh (h ∷ hs) (append_loop (h ∷ hs) (record { model = m; fresh = []; added = 0 }))
