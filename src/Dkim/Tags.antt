-- ===== src/Dkim/Tags.antt =====
-- The tag lists of a signature (parseTagList, tagValue, stripWsp).
pub mod Laws
use mailove.Common.{
  ℕ, suc, ◌+◌, Bool, true, false, not, ◌||◌, List, [], ◌∷◌, Option, none, some, ◌==◌, if◌then◌else◌,
  Bytes, is_empty, equal, index_of, take, drop, trimmed, split,
}

pub record Tag : Type 0 where
  pub name : Bytes
  pub value : Bytes

abbrev pub TagList : Type 0
TagList = List Tag

-- One part between semicolons: none without `=` or with an empty name.
unfoldable pub parse_tag : Bytes → Option Tag
unfolding index_of trimmed is_empty
parse_tag part = elim (index_of b'=' part) [
  | none ↦ none
  | some eq ↦
      let name = trimmed (take eq part) in
      if is_empty name
      then none
      else some (record { name = name; value = trimmed (drop (suc eq) part) })
]

abbrev append_tag : Option Tag → TagList → TagList
append_tag none tags = tags
append_tag (some t) tags = t ∷ tags

unfoldable pub collect_tags : List Bytes → TagList
unfolding parse_tag
collect_tags [] = []
collect_tags (part ∷ parts) = append_tag (parse_tag part) (collect_tags parts)

unfoldable pub parse_tag_list : Bytes → TagList
unfolding collect_tags split
parse_tag_list value = collect_tags (split b';' value)

-- The first tag of that name; an empty value if there is none.
unfoldable pub tag_value : TagList → Bytes → Bytes
unfolding equal
tag_value [] name = []
tag_value (t ∷ tags) name = if equal t.name name then t.value else tag_value tags name

abbrev pub is_folding : ℕ → Bool
is_folding c = c == b' ' || c == b'\t' || c == b'\r' || c == b'\n'

unfoldable pub strip_wsp : Bytes → Bytes
strip_wsp [] = []
strip_wsp (c ∷ cs) = let rest = strip_wsp cs in if is_folding c then rest else c ∷ rest
