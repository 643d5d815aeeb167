-- ===== src/FolderModel/Current.antt =====
-- The model after any run of its operations (setFolders, setUnreadCounts, setAccountKey,
-- toggleExpanded, expandRow).
use mailove.Common.{
  ℕ, Bool, true, false, not, List, [], ◌≡◌, refl, Option, none, some, if◌then◌else◌, Bytes, equal,
}
use mailove.FolderModel.{
  Folder, FolderModel, element_at, rebuild_visible, recompute_hidden_unread, mail_box_of,
  hidden_from, toggle, same_counts, set_unread_counts, same_folders, set_folders, set_account_key,
  toggle_at, toggle_expanded, has_children, can_expand, expand_row, empty_model,
}
use mailove.FolderModel.Rows.{uncovered_rows, rebuild_visible-uncovered_rows}

-- What the view reads is that of the folders: the rows without a collapsed ancestor, and the unread
-- mail counted for them.
pub record IsCurrent (m : FolderModel) : Type 0 where
  pub rows : m.visible ≡ uncovered_rows m.collapsed [] 0 m.all
  pub hidden : m.hidden_unread ≡ hidden_from m.unread m.visible 0 [] m.all

-- What the program does with the model, from an empty one on.
pub data Reachable : FolderModel → Type 0 where
  made : Reachable empty_model
  filled :
      {m : FolderModel} (folders : List Folder) → Reachable m → Reachable (set_folders folders m)
  counted :
      {m : FolderModel} (counts : List (Bytes × ℕ))
      → Reachable m
      → Reachable (set_unread_counts counts m)
  switched :
      {m : FolderModel} (saved : List Bytes) (key : Bytes)
      → Reachable m
      → Reachable (set_account_key saved key m)
  toggled : {m : FolderModel} (row : ℕ) → Reachable m → Reachable (toggle_expanded row m)
  expanded : {m : FolderModel} (row : ℕ) → Reachable m → Reachable (expand_row row m)

rebuild_visible-IsCurrent : (m : FolderModel) → IsCurrent (rebuild_visible m)
unfolding rebuild_visible recompute_hidden_unread
rebuild_visible-IsCurrent m = record { rows = rebuild_visible-uncovered_rows m; hidden = refl }

if-IsCurrent :
    (b : Bool) (m n : FolderModel) → IsCurrent m → IsCurrent n → IsCurrent (if b then m else n)
if-IsCurrent true m n c d = c
if-IsCurrent false m n c d = d

set_unread_counts-IsCurrent :
    (counts : List (Bytes × ℕ)) (m : FolderModel)
    → IsCurrent m
    → IsCurrent (set_unread_counts counts m)
unfolding set_unread_counts recompute_hidden_unread
set_unread_counts-IsCurrent counts m c =
    if-IsCurrent (same_counts counts m.unread) _ _ c (record { rows = c.rows; hidden = refl })

toggle_at-IsCurrent : (m : FolderModel) (at : Option ℕ) → IsCurrent m → IsCurrent (toggle_at m at)
unfolding toggle_at
toggle_at-IsCurrent m none c = c
toggle_at-IsCurrent m (some i) c = if-IsCurrent (not (has_children m.all i)) _ _ c (
    rebuild_visible-IsCurrent
      (record m { collapsed = toggle (mail_box_of (element_at m.all i)) m.collapsed }))

toggle_expanded-IsCurrent :
    (row : ℕ) (m : FolderModel) → IsCurrent m → IsCurrent (toggle_expanded row m)
unfolding toggle_expanded
toggle_expanded-IsCurrent row m c = toggle_at-IsCurrent m (element_at m.visible row) c

expand_row-IsCurrent : (row : ℕ) (m : FolderModel) → IsCurrent m → IsCurrent (expand_row row m)
unfolding expand_row
expand_row-IsCurrent row m c =
    if-IsCurrent (not (can_expand m (element_at m.visible row))) _ _ c
      (toggle_expanded-IsCurrent row m c)

-- Whatever was done with the model since it was made, early returns included, the rows on screen
-- are those without a collapsed ancestor and the hidden counts are those of these rows.
pub Reachable-IsCurrent : (m : FolderModel) → Reachable m → IsCurrent m
unfolding set_folders set_account_key uncovered_rows hidden_from
Reachable-IsCurrent m made = record { rows = refl; hidden = refl }
Reachable-IsCurrent m (filled {m = prior} folders r) =
    if-IsCurrent (same_folders folders prior.all) _ _ (Reachable-IsCurrent prior r)
      (rebuild_visible-IsCurrent (record prior { all = folders }))
Reachable-IsCurrent m (counted {m = prior} counts r) =
    set_unread_counts-IsCurrent counts prior (Reachable-IsCurrent prior r)
Reachable-IsCurrent m (switched {m = prior} saved key r) =
    if-IsCurrent (equal key prior.account_key) _ _ (Reachable-IsCurrent prior r)
      (rebuild_visible-IsCurrent (record prior { account_key = key; collapsed = saved }))
Reachable-IsCurrent m (toggled {m = prior} row r) =
    toggle_expanded-IsCurrent row prior (Reachable-IsCurrent prior r)
Reachable-IsCurrent m (expanded {m = prior} row r) =
    expand_row-IsCurrent row prior (Reachable-IsCurrent prior r)
