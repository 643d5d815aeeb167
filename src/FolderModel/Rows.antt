-- ===== src/FolderModel/Rows.antt =====
-- The rows on screen (rebuildVisible, rowForMailBox).
use mailove.Common.{
  ℕ, suc, ◌+◌, Bool, false, ◌&&◌, ◌||◌, List, [], ◌∷◌, ◌≡◌, refl, ap, subst, ◌∙◌, Option, none,
  some, if◌then◌else◌, Bytes, ltb, arith, equal, equal_iff, contains, Bool-cases, inl, inr,
}
use mailove.FolderModel.{
  Folder, FolderModel, element_at, is_collapsed, is_skipped, next_skip, visible_from,
  rebuild_visible, recompute_hidden_unread, mail_box_of, mail_box_at, folder_at, folder_of,
  find_row, row_for_mail_box,
}

-- Whether an ancestor is collapsed: the nearest folder before that is less deep is the parent, and
-- so on from there.
unfoldable pub is_covered : List Bytes → List Folder → ℕ → Bool
unfolding contains
is_covered collapsed [] level = false
is_covered collapsed (g ∷ before) level =
    let above = ltb g.level level in
    let rest = is_covered collapsed before (if above then g.level else level) in
    (above && is_collapsed collapsed g) || rest

-- The folders with no collapsed ancestor.
unfoldable pub uncovered_rows : List Bytes → List Folder → ℕ → List Folder → List ℕ
unfolding is_covered
uncovered_rows collapsed before i [] = []
uncovered_rows collapsed before i (f ∷ folders) =
    let rest = uncovered_rows collapsed (f ∷ before) (suc i) folders in
    if is_covered collapsed before f.level then rest else i ∷ rest

next_skip-is_covered :
    (collapsed : List Bytes) (before : List Folder) (skip : Option ℕ) (f : Folder)
    → ((level : ℕ) → is_skipped skip level ≡ is_covered collapsed before level)
    → (level : ℕ)
    → is_skipped (next_skip collapsed skip f) level ≡ is_covered collapsed (f ∷ before) level
unfolding next_skip is_covered is_skipped
next_skip-is_covered collapsed before none f h level = ground (arith, h level, h f.level)
next_skip-is_covered collapsed before (some deeper) f h level = ground (arith, h level, h f.level)

visible_from-uncovered_rows :
    (collapsed : List Bytes) (before : List Folder) (skip : Option ℕ) (i : ℕ)
    (folders : List Folder)
    → ((level : ℕ) → is_skipped skip level ≡ is_covered collapsed before level)
    → visible_from collapsed skip i folders ≡ uncovered_rows collapsed before i folders
unfolding visible_from uncovered_rows
visible_from-uncovered_rows collapsed before skip i [] h = refl
visible_from-uncovered_rows collapsed before skip i (f ∷ folders) h =
    let later =
      visible_from-uncovered_rows collapsed (f ∷ before) (next_skip collapsed skip f) (suc i)
        folders (next_skip-is_covered collapsed before skip f h) in
    cc (later, h f.level)

-- The rows on screen are the folders none of whose ancestors is collapsed, in their order.
pub rebuild_visible-uncovered_rows :
    (m : FolderModel) → (rebuild_visible m).visible ≡ uncovered_rows m.collapsed [] 0 m.all
unfolding rebuild_visible recompute_hidden_unread is_skipped is_covered
rebuild_visible-uncovered_rows m =
    visible_from-uncovered_rows m.collapsed [] none 0 m.all (λ level. refl)

-- The rows from `row` on, searched for a mailbox: the first one that has it.
find_row-first :
    (all : List Folder) (mail_box : Bytes) (row : ℕ) (visible : List ℕ) (found : ℕ)
    → find_row all mail_box row visible ≡ some found
    → (n : ℕ) × (found ≡ row + n)
      × ((i : ℕ) × (element_at visible n ≡ some i) × (mail_box_of (element_at all i) ≡ mail_box))
unfolding find_row element_at
find_row-first all mail_box row [] found h = absurd (ground arith)
find_row-first all mail_box row (i ∷ visible) found h =
    elim (Bool-cases (equal (mail_box_of (element_at all i)) mail_box)) [
      | inl e ↦
          (0, ground arith, (i, refl, (equal_iff (mail_box_of (element_at all i)) mail_box).0 e))
      | inr e ↦
          let (n, at, (j, k, b)) =
            find_row-first all mail_box (suc row) visible found (ground arith) in
          (suc n, omega arith, (j, k, b))
    ]

mail_box_at-element_at :
    (m : FolderModel) (mail_box : Bytes) (row i : ℕ)
    → element_at m.visible row ≡ some i
    → mail_box_of (element_at m.all i) ≡ mail_box
    → mail_box_at m row ≡ mail_box
unfolding mail_box_at folder_at folder_of
mail_box_at-element_at m mail_box row i at b = ap (λ o. mail_box_of (folder_of m.all o)) at ∙ b

row_for_mail_box-find_row :
    (m : FolderModel) (mail_box : Bytes) (row : ℕ)
    → row_for_mail_box m mail_box ≡ some row
    → find_row m.all mail_box 0 m.visible ≡ some row
unfolding row_for_mail_box
row_for_mail_box-find_row m mail_box row h = ground arith

-- A row that is found for a mailbox is on screen and shows that mailbox.
pub mail_box_at-row_for_mail_box :
    (m : FolderModel) (mail_box : Bytes) (row : ℕ)
    → row_for_mail_box m mail_box ≡ some row
    → mail_box_at m row ≡ mail_box
mail_box_at-row_for_mail_box m mail_box row h =
    let (n, at, (i, k, b)) =
      find_row-first m.all mail_box 0 m.visible row (row_for_mail_box-find_row m mail_box row h) in
    let e : n ≡ row = omega (arith, at) in
    subst (λ r. mail_box_at m r ≡ mail_box) e (mail_box_at-element_at m mail_box n i k b)
