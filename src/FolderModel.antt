-- ===== src/FolderModel.antt =====
-- The folder tree of the sidebar (foldermodel.cpp): which rows are on screen under the collapsed
-- folders, and the unread mail that they hide.
pub mod Rows
pub mod Current
use mailove.Common.{
  same_bool, ℕ, zero, suc, ◌+◌, Bool, true, false, not, ◌&&◌, List, [], ◌∷◌, Option, none, some,
  if◌then◌else◌, Bytes, ltb, ◌==◌, is_empty, equal, contains, lookup,
}
use mailove.Common.Rows.{has_index}

-- A level is a depth, 0 at the top.
pub record Folder : Type 0 where
  pub display_name : Bytes
  pub mail_box : Bytes
  pub level : ℕ
  pub selectable : Bool

-- m_all, m_visible, m_collapsed, m_unread, m_hiddenUnread
pub record FolderModel : Type 0 where
  pub all : List Folder
  pub visible : List ℕ
  pub collapsed : List Bytes
  pub unread : List (Bytes × ℕ)
  pub hidden_unread : List ℕ
  pub account_key : Bytes

abbrev pub empty_model : FolderModel
empty_model = record {
  all = [];
  visible = [];
  collapsed = [];
  unread = [];
  hidden_unread = [];
  account_key = [];
}

-- QList::at, where there is an element.
unfoldable pub element_at {ℓ} : {A : Type ℓ} → List A → ℕ → Option A
element_at [] n = none
element_at (x ∷ xs) zero = some x
element_at (x ∷ xs) (suc n) = element_at xs n

abbrev pub is_collapsed : List Bytes → Folder → Bool
is_collapsed collapsed f = contains f.mail_box collapsed

-- skipDeeperThan, where -1 is none: the folders below it are left out.
unfoldable pub is_skipped : Option ℕ → ℕ → Bool
is_skipped none level = false
is_skipped (some deeper) level = ltb deeper level

-- skipDeeperThan behind one round of the loop.
unfoldable pub next_skip : List Bytes → Option ℕ → Folder → Option ℕ
unfolding is_skipped contains
next_skip collapsed skip f =
    if is_skipped skip f.level
    then skip
    else if is_collapsed collapsed f
    then some f.level
    else none

-- The rounds of the loop from folder i on.
unfoldable pub visible_from : List Bytes → Option ℕ → ℕ → List Folder → List ℕ
unfolding next_skip is_skipped
visible_from collapsed skip i [] = []
visible_from collapsed skip i (f ∷ folders) =
    let rest = visible_from collapsed (next_skip collapsed skip f) (suc i) folders in
    if is_skipped skip f.level then rest else i ∷ rest

unfoldable pub unread_of : List (Bytes × ℕ) → Bytes → ℕ
unfolding lookup
unread_of counts mail_box = elim (lookup mail_box counts) [ none ↦ 0 | some n ↦ n ]

-- The inner loop: the ancestors in the folders before, from the nearest on, each with its count.
unfoldable pub credit : ℕ → ℕ → List (Folder × ℕ) → List (Folder × ℕ)
credit count level [] = []
credit count level ((g, hidden) ∷ before) =
    let above = ltb g.level level in
    (g, if above then hidden + count else hidden)
    ∷ credit count (if above then g.level else level) before

unfoldable pub counts_of : List (Folder × ℕ) → List ℕ → List ℕ
counts_of [] counts = counts
counts_of ((g, hidden) ∷ before) counts = counts_of before (hidden ∷ counts)

-- The outer loop from folder i on; `before` holds the folders before it, the last first.
unfoldable pub hidden_from :
    List (Bytes × ℕ) → List ℕ → ℕ → List (Folder × ℕ) → List Folder → List ℕ
unfolding has_index unread_of credit counts_of
hidden_from unread visible i before [] = counts_of before []
hidden_from unread visible i before (f ∷ folders) =
    let count = unread_of unread f.mail_box in
    let credited = if has_index i visible then before else credit count f.level before in
    hidden_from unread visible (suc i) ((f, 0) ∷ credited) folders

unfoldable pub recompute_hidden_unread : FolderModel → FolderModel
unfolding hidden_from
recompute_hidden_unread m = record m { hidden_unread = hidden_from m.unread m.visible 0 [] m.all }

unfoldable pub rebuild_visible : FolderModel → FolderModel
unfolding visible_from recompute_hidden_unread
rebuild_visible m =
    recompute_hidden_unread (record m { visible = visible_from m.collapsed none 0 m.all })

unfoldable pub has_counts : List (Bytes × ℕ) → List (Bytes × ℕ) → Bool
unfolding lookup
has_counts [] counts = true
has_counts ((b, n) ∷ wanted) counts =
    elim (lookup b counts) [ none ↦ false | some k ↦ n == k ] && has_counts wanted counts

-- operator== of two hashes
unfoldable pub same_counts : List (Bytes × ℕ) → List (Bytes × ℕ) → Bool
unfolding has_counts
same_counts a b = has_counts a b && has_counts b a

unfoldable pub set_unread_counts : List (Bytes × ℕ) → FolderModel → FolderModel
unfolding recompute_hidden_unread same_counts
set_unread_counts counts m =
    if same_counts counts m.unread
    then m
    else recompute_hidden_unread (record m { unread = counts })

-- Folder::operator==
unfoldable pub same_folder : Folder → Folder → Bool
unfolding equal
same_folder f g =
    equal f.display_name g.display_name
    && (equal f.mail_box g.mail_box && (f.level == g.level && same_bool f.selectable g.selectable))

unfoldable pub same_folders : List Folder → List Folder → Bool
unfolding same_folder
same_folders [] [] = true
same_folders [] (g ∷ gs) = false
same_folders (f ∷ fs) [] = false
same_folders (f ∷ fs) (g ∷ gs) = same_folder f g && same_folders fs gs

unfoldable pub set_folders : List Folder → FolderModel → FolderModel
unfolding rebuild_visible same_folders
set_folders folders m =
    if same_folders folders m.all then m else rebuild_visible (record m { all = folders })

unfoldable pub mail_box_of : Option Folder → Bytes
mail_box_of none = []
mail_box_of (some f) = f.mail_box

-- The folder that a row shows, by its place in the list.
unfoldable pub folder_of : List Folder → Option ℕ → Option Folder
unfolding element_at
folder_of all none = none
folder_of all (some i) = element_at all i

unfoldable pub folder_at : FolderModel → ℕ → Option Folder
unfolding element_at folder_of
folder_at m row = folder_of m.all (element_at m.visible row)

unfoldable pub mail_box_at : FolderModel → ℕ → Bytes
unfolding folder_at mail_box_of
mail_box_at m row = mail_box_of (folder_at m row)

unfoldable pub find_row : List Folder → Bytes → ℕ → List ℕ → Option ℕ
unfolding element_at equal mail_box_of
find_row all mail_box row [] = none
find_row all mail_box row (i ∷ visible) =
    let rest = find_row all mail_box (suc row) visible in
    if equal (mail_box_of (element_at all i)) mail_box then some row else rest

-- rowForMailBox, where -1 is none
unfoldable pub row_for_mail_box : FolderModel → Bytes → Option ℕ
unfolding is_empty find_row
row_for_mail_box m mail_box =
    if is_empty mail_box then none else find_row m.all mail_box 0 m.visible

-- hasChildren: the next folder is deeper.
unfoldable pub has_children : List Folder → ℕ → Bool
has_children [] n = false
has_children (f ∷ []) zero = false
has_children (f ∷ g ∷ folders) zero = ltb f.level g.level
has_children (f ∷ folders) (suc n) = has_children folders n

unfoldable pub toggle : Bytes → List Bytes → List Bytes
unfolding equal
toggle b [] = b ∷ []
toggle b (c ∷ cs) = let rest = toggle b cs in if equal b c then cs else c ∷ rest

-- setAccountKey, with the collapsed folders that the settings hold for the key.
unfoldable pub set_account_key : List Bytes → Bytes → FolderModel → FolderModel
unfolding equal rebuild_visible
set_account_key saved key m =
    if equal key m.account_key
    then m
    else rebuild_visible (record m { account_key = key; collapsed = saved })

-- The collapsed folders are a set; `at` is the folder of the row.
unfoldable pub toggle_at : FolderModel → Option ℕ → FolderModel
unfolding element_at has_children toggle rebuild_visible mail_box_of
toggle_at m none = m
toggle_at m (some i) =
    if not (has_children m.all i)
    then m
    else rebuild_visible
        (record m { collapsed = toggle (mail_box_of (element_at m.all i)) m.collapsed })

unfoldable pub toggle_expanded : ℕ → FolderModel → FolderModel
unfolding element_at toggle_at
toggle_expanded row m = toggle_at m (element_at m.visible row)

unfoldable pub can_expand : FolderModel → Option ℕ → Bool
unfolding element_at has_children mail_box_of contains
can_expand m none = false
can_expand m (some i) =
    has_children m.all i && contains (mail_box_of (element_at m.all i)) m.collapsed

unfoldable pub expand_row : ℕ → FolderModel → FolderModel
unfolding toggle_expanded can_expand
expand_row row m =
    if not (can_expand m (element_at m.visible row)) then m else toggle_expanded row m
