-- ===== src/Tests/Folders.antt =====
-- Runs of the folder tree.
use mailove.Common.{ℕ, List, [], ◌∷◌, ◌≡◌, refl, Bytes, codes, true}
use mailove.FolderModel.{
  Folder, FolderModel, empty_model, set_folders, set_unread_counts, toggle_expanded,
  rebuild_visible,
}
use mailove.FolderModel.Rows.{uncovered_rows, rebuild_visible-uncovered_rows}
use mailove.FolderModel.Current.{IsCurrent, made, filled, counted, toggled, Reachable-IsCurrent}

abbrev folder : Bytes → ℕ → Folder
folder name level = record {
  display_name = name;
  mail_box = name;
  level = level;
  selectable = true;
}

abbrev tree : List Folder
tree =
    folder (codes "in") 0
    ∷ folder (codes "work") 1
    ∷ folder (codes "old") 2
    ∷ folder (codes "out") 0
    ∷ []

abbrev opened_tree : FolderModel
opened_tree = set_unread_counts ((codes "old", 3) ∷ []) (set_folders tree empty_model)

abbrev folded_tree : FolderModel
folded_tree = toggle_expanded 0 opened_tree

folded_rows : folded_tree.visible ≡ 0 ∷ 3 ∷ []
unfolding toggle_expanded set_folders set_unread_counts
folded_rows = refl

folded_counts : folded_tree.hidden_unread ≡ 3 ∷ 3 ∷ 0 ∷ 0 ∷ []
unfolding toggle_expanded set_folders set_unread_counts
folded_counts = refl

rebuild_visible-uncovered_rows_example :
    (rebuild_visible folded_tree).visible
    ≡ uncovered_rows folded_tree.collapsed [] 0 folded_tree.all
rebuild_visible-uncovered_rows_example = rebuild_visible-uncovered_rows folded_tree

Reachable-IsCurrent_example : IsCurrent folded_tree
Reachable-IsCurrent_example =
    Reachable-IsCurrent folded_tree (toggled 0 (counted ((codes "old", 3) ∷ []) (filled tree made)))
