-- ===== src/SpamHeuristics/Words.antt =====
-- What the rules on the header look for in a text (spamheuristics.cpp): mixed alphabets, hidden
-- characters, and the sign of a relay.
use mailove.Common.{
  ℕ, suc, Bool, true, false, ◌&&◌, ◌||◌, Option, none, some, List, [], ◌∷◌, Bytes, codes, equal,
  is_empty, starts_with, ◌==◌, if◌then◌else◌,
}
use mailove.SpamHeuristics.{SpamPlatform}
use mailove.SpamHeuristics.Fields.{Field, has_field}
use mailove.SpamHeuristics.Mailbox.{skip_empty}

-- enum class Script
pub data Script : Type 0 where
  other_script : Script
  latin : Script
  cyrillic : Script
  greek : Script

-- What these rules call in Qt besides: QChar::script, isLetterOrNumber and isUpper, the pieces of a
-- text between the matches of a pattern, all matches of a pattern, QUrl::fromAce, the seconds of a
-- date of RFC 2822 since a day before all dates (none where it is not valid), and contains without
-- case.
pub record TextPlatform : Type 0 where
  pub script : ℕ → Script
  pub is_letter_or_number : ℕ → Bool
  pub is_upper : ℕ → Bool
  pub split_pattern : Bytes → Bytes → List Bytes
  pub match_all : Bytes → Bytes → List Bytes
  pub from_ace : Bytes → Bytes
  pub date_seconds : Bytes → Option ℕ
  pub contains_caseless : Bytes → Bytes → Bool

unfoldable pub is_match : Option (List Bytes) → Bool
is_match none = false
is_match (some texts) = true

-- QString::contains
unfoldable pub has_text : Bytes → Bytes → Bool
unfolding starts_with is_empty
has_text part [] = is_empty part
has_text part (c ∷ b) = starts_with part (c ∷ b) || has_text part b

unfoldable pub any_text : (Bytes → Bool) → List Bytes → Bool
any_text f [] = false
any_text f (b ∷ bs) = f b || any_text f bs

unfoldable pub count_fields : List Field → Bytes → ℕ
unfolding equal
count_fields [] name = 0
count_fields (f ∷ fields) name =
    let n = count_fields fields name in if equal f.name name then suc n else n

-- scriptOf
unfoldable pub script_of : SpamPlatform → TextPlatform → ℕ → Script
script_of p q c = if p.is_letter c then q.script c else other_script

unfoldable pub same_script : Script → Script → Bool
same_script other_script s = false
same_script latin latin = true
same_script latin other_script = false
same_script latin cyrillic = false
same_script latin greek = false
same_script cyrillic cyrillic = true
same_script cyrillic other_script = false
same_script cyrillic latin = false
same_script cyrillic greek = false
same_script greek greek = true
same_script greek other_script = false
same_script greek latin = false
same_script greek cyrillic = false

unfoldable pub has_script : SpamPlatform → TextPlatform → Script → Bytes → Bool
unfolding script_of same_script
has_script p q s [] = false
has_script p q s (c ∷ b) = same_script s (script_of p q c) || has_script p q s b

-- scripts.size() > 1
unfoldable pub is_mixed : SpamPlatform → TextPlatform → Bytes → Bool
unfolding has_script
is_mixed p q word =
    let l = has_script p q latin word in
    let c = has_script p q cyrillic word in
    let g = has_script p q greek word in (l && c) || (l && g) || (c && g)

unfoldable pub has_confusable_word : SpamPlatform → TextPlatform → Bytes → Bool
unfolding any_text is_mixed skip_empty
has_confusable_word p q s =
    any_text (is_mixed p q) (skip_empty (q.split_pattern (codes "[^\\p{L}\\p{M}]+") s))

unfoldable pub has_confusable_label : SpamPlatform → TextPlatform → Bytes → Bool
unfolding any_text is_mixed skip_empty
has_confusable_label p q domain =
    any_text (is_mixed p q) (skip_empty (q.split_pattern (codes "[.-]") domain))

-- the lambda cyrillicIn
unfoldable pub cyrillic_in : TextPlatform → Bytes → Bool
unfolding same_script
cyrillic_in q [] = false
cyrillic_in q (c ∷ b) = same_script cyrillic (q.script c) || cyrillic_in q b

abbrev pub is_one_of : ℕ → List ℕ → Bool
is_one_of c [] = false
is_one_of c (d ∷ ds) = c == d || is_one_of c ds

unfoldable pub is_invisible : ℕ → Bool
is_invisible c = is_one_of c (8203 ∷ 8204 ∷ 8205 ∷ 173 ∷ 8288 ∷ 65279 ∷ [])

-- The loop over the middles of three characters.
unfoldable pub has_invisible_inside_word : TextPlatform → Bytes → Bool
unfolding is_invisible
has_invisible_inside_word q [] = false
has_invisible_inside_word q (a ∷ []) = false
has_invisible_inside_word q (a ∷ b ∷ []) = false
has_invisible_inside_word q (a ∷ b ∷ c ∷ s) =
    (is_invisible b && q.is_letter_or_number a && q.is_letter_or_number c)
    || has_invisible_inside_word q (b ∷ c ∷ s)

unfoldable pub relayed_mail : SpamPlatform → List Field → Bytes → Bool
unfolding has_field is_match
relayed_mail p fields display_name =
    has_field fields (codes "list-id")
    || has_field fields (codes "list-unsubscribe")
    || has_field fields (codes "list-post")
    || is_match (p.match_pattern true (codes "\\bvia\\s+\\S") display_name)

abbrev pub ip_literal_pattern : Bytes
ip_literal_pattern = codes "^\\[?(?:[0-9]{1,3}(?:\\.[0-9]{1,3}){3}|IPv6:[0-9A-Fa-f:]+)\\]?$"

unfoldable pub is_ip_literal : SpamPlatform → Bytes → Bool
unfolding is_match
is_ip_literal p host = is_match (p.match_pattern false ip_literal_pattern host)
