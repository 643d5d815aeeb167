-- ===== src/SpamHeuristics/Linking.antt =====
-- The capped group of rules on links (score): the lambda linkHit, and the loop that keeps the two
-- heaviest hits. Which links call it is an argument.
use mailove.Common.{
  ℕ, zero, suc, List, [], ◌∷◌, ◌++◌, Bytes, ℤ, pos, less_int, ◌+ℤ◌, ◌-ℤ◌, min_int, contains,
  if◌then◌else◌,
}
use mailove.SpamHeuristics.{SpamConfig}
use mailove.SpamHeuristics.Scoring.{Hit, Score, is_zero, rule_weight, append_hit}

-- linkHits and seenIds
pub record LinkHits : Type 0 where
  pub seen_ids : List Bytes
  pub found : List Hit

-- the lambda `linkHit`
unfoldable pub link_hit : SpamConfig → Bytes → ℤ → LinkHits → LinkHits
unfolding contains rule_weight is_zero
link_hit config id weight links =
    let w = rule_weight config id weight in
    if contains id (links.seen_ids)
    then links
    else if is_zero w
    then record links { seen_ids = id ∷ links.seen_ids }
    else record {
      seen_ids = id ∷ links.seen_ids;
      found = links.found ++ record { id = id; weight = w } ∷ [];
    }

-- The calls of linkHit, in their order: id and weight of each.
unfoldable pub link_hits : SpamConfig → List (Bytes × ℤ) → LinkHits → LinkHits
unfolding link_hit
link_hits config [] links = links
link_hits config ((id, weight) ∷ calls) links =
    link_hits config calls (link_hit config id weight links)

-- std::stable_sort, the heavier first: `h` stood before all of the list.
unfoldable pub insert_hit : Hit → List Hit → List Hit
unfolding less_int
insert_hit h [] = h ∷ []
insert_hit h (g ∷ gs) =
    let rest = insert_hit h gs in if less_int (h.weight) (g.weight) then g ∷ rest else h ∷ g ∷ gs

unfoldable pub sort_hits : List Hit → List Hit
unfolding insert_hit
sort_hits [] = []
sort_hits (h ∷ hs) = insert_hit h (sort_hits hs)

-- The loop over the sorted hits: how many more it may take, and linkTotal.
unfoldable pub take_links : ℕ → ℤ → ℤ → List Hit → Score → Score
unfolding less_int min_int append_hit
take_links zero cap link_total hs out = out
take_links (suc n) cap link_total [] out = out
take_links (suc n) cap link_total (h ∷ hs) out =
    let room = cap -ℤ link_total in
    let weight = min_int (h.weight) room in
    let rest = take_links n cap (link_total +ℤ weight) hs (append_hit (h.id) weight out) in
    if less_int (pos 0) room then rest else out

unfoldable pub score_links : SpamConfig → List (Bytes × ℤ) → Score → Score
unfolding take_links sort_hits link_hits
score_links config calls out =
    let links = link_hits config calls record { seen_ids = []; found = [] } in
    take_links 2 (config.link_group_cap) (pos 0) (sort_hits (links.found)) out
