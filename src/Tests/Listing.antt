-- ===== src/Tests/Listing.antt =====
-- Runs of the message list, with prefixes as its patterns.
use mailove.Common.{
  ℕ, true, false, [], ◌∷◌, ◌≡◌, refl, ◌≢◌, some, pos, to_lower, starts_with, arith, less_int,
  equal_int,
}
use mailove.Common.Rows.{index_from}
use mailove.MessageListModel.{
  Header, MessageListModel, ListPlatform, by_attachment, no_header, rebuild_visible, visible_row_of,
  prime_keys,
}
use mailove.MessageListModel.Append.{append_headers}
use mailove.MessageListModel.Changes.{set_headers, sort_by, set_attach_kind}
use mailove.MessageListModel.Steps.{
  empty_list, Reach, here, next, filled, appended, Reach-rebuild_visible, Reach-visible_row_of,
}

abbrev prefixes : ListPlatform
prefixes = record {
  case_fold = to_lower;
  is_pattern = λ b. true;
  pattern_matches = λ b text. starts_with b text;
}

abbrev mail : ℕ → ℕ → Header
mail uid secs = record no_header { uid = pos uid; date = some (pos secs) }

abbrev opened : MessageListModel
opened = set_headers prefixes (mail 1 50 ∷ mail 2 70 ∷ mail 3 50 ∷ []) empty_list

abbrev paged : MessageListModel
paged = (append_headers prefixes (mail 4 60 ∷ mail 5 10 ∷ []) opened).0

-- The newest first, and of two with one date the one with the greater uid.
opened_rows : opened.rows ≡ 1 ∷ 2 ∷ 0 ∷ []
unfolding set_headers
opened_rows = refl

paged_rows : paged.rows ≡ 1 ∷ 3 ∷ 2 ∷ 0 ∷ 4 ∷ []
unfolding set_headers append_headers equal_int less_int
paged_rows = refl

paged-Reach : Reach prefixes empty_list paged
unfolding set_headers equal_int
paged-Reach =
    next
      (next here (
        filled (mail 1 50 ∷ mail 2 70 ∷ mail 3 50 ∷ [])
          ((refl, (refl, tt)), ((refl, tt), (tt, tt)))))
      (appended (mail 4 60 ∷ mail 5 10 ∷ []) (refl, (refl, tt)) ((refl, tt), (tt, tt)))

Reach-rebuild_visible_example : paged.rows ≡ (rebuild_visible prefixes paged).rows
Reach-rebuild_visible_example = Reach-rebuild_visible prefixes paged paged-Reach

Reach-visible_row_of_example : visible_row_of paged 2 ≡ index_from 0 paged.rows 2
unfolding set_headers append_headers equal_int less_int
Reach-visible_row_of_example = Reach-visible_row_of prefixes paged paged-Reach 2 (omega arith)

abbrev primed : ℕ → ℕ → Header
primed uid secs = prime_keys prefixes (mail uid secs)

-- A kind that is set while the list is sorted by attachments leaves the rows where they are, so
-- they are no longer in order.
abbrev attached : MessageListModel
attached = set_attach_kind (pos 2) 1 (sort_by by_attachment false opened)

attached_rows : attached.rows ≢ (rebuild_visible prefixes attached).rows
unfolding set_headers sort_by set_attach_kind rebuild_visible equal_int less_int
attached_rows e = ground arith

-- A refreshed header keeps what the body taught, and its glyphs are not all counted.
abbrev known : MessageListModel
known = set_headers prefixes (record (mail 1 50) { attach_kind = 4 } ∷ []) empty_list

abbrev refreshed : MessageListModel
refreshed =
    (append_headers prefixes (record (mail 1 50) { attach_kind = 1; forwarded = true } ∷ [])
      known).0

refreshed_glyphs : refreshed.marker_count ≡ 2
unfolding set_headers append_headers equal_int less_int
refreshed_glyphs = refl
