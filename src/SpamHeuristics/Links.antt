-- ===== src/SpamHeuristics/Links.antt =====
-- The rules on links: at most two hits, within their cap.
use mailove.Common.{ℕ, false, ◌≡◌, ◌≤◌, ◌⊎◌, List, [], ◌++◌, ℤ, less_int, length}
use mailove.SpamHeuristics.Scoring.{Hit, Score}
use mailove.SpamHeuristics.Totals.{sum_from}

-- `after` has at most `n` hits more than `before`, and they do not pass the cap.
pub record IsCapped (n : ℕ) (cap link_total : ℤ) (before after : Score) : Type 0 where
  pub added : List Hit
  pub appended : after.hits ≡ before.hits ++ added
  pub few : length added ≤ n
  pub within : (added ≡ []) ⊎ (less_int cap (sum_from link_total added) ≡ false)
