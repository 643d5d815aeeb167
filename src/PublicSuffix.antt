-- ===== src/PublicSuffix.antt =====
-- src/publicsuffixlist.cpp: the rules of the Public Suffix List, and the organizational domain of a
-- name. Parameters: QString::toLower, QUrl::toAce and the UTF-8 decoding of Qt.
pub mod Labels
pub mod Domain
use mailove.Common.{
  ℕ, suc, ◌+◌, ◌-◌, Bool, true, false, not, ◌&&◌, ◌||◌, List, [], ◌∷◌, ◌++◌, ◌==◌, if◌then◌else◌,
  ltb, leb, Bytes, codes, length, drop, is_empty, equal, starts_with, trimmed, split, join,
  contains,
}

pub record PublicSuffixList : Type 0 where
  pub rules : List Bytes
  pub wildcards : List Bytes
  pub exceptions : List Bytes

abbrev pub empty_list : PublicSuffixList
empty_list = record { rules = []; wildcards = []; exceptions = [] }

abbrev pub icann_marker : Bytes
icann_marker = codes "===BEGIN ICANN DOMAINS==="

unfoldable pub has_infix : Bytes → Bytes → Bool
unfolding starts_with
has_infix p [] = starts_with p []
has_infix p (c ∷ cs) = starts_with p (c ∷ cs) || has_infix p cs

unfoldable pub looks_like_the_list : Bytes → Bool
unfolding has_infix
looks_like_the_list text = ltb 50000 (length text) && has_infix icann_marker text

unfoldable pub has_wide : Bytes → Bool
has_wide [] = false
has_wide (c ∷ cs) = ltb 127 c || has_wide cs

unfoldable pub normalized_rule : (Bytes → Bytes) → (Bytes → Bytes) → Bytes → Bytes
unfolding has_wide
normalized_rule lower to_ace rule = if has_wide rule then lower (to_ace rule) else lower rule

-- The first element of split, which is never empty.
abbrev first : List Bytes → Bytes
first [] = []
first (p ∷ ps) = p

-- `!rule` is an exception, `*.rule` a wildcard kept by its parent.
unfoldable pub insert_rule : Bytes → PublicSuffixList → PublicSuffixList
unfolding starts_with
insert_rule rule l =
    if starts_with (codes "!") rule
    then record l { exceptions = drop 1 rule ∷ l.exceptions }
    else if starts_with (codes "*.") rule
    then record l { wildcards = drop 2 rule ∷ l.wildcards }
    else record l { rules = rule ∷ l.rules }

-- One line of the list, with the white space around it cut off.
unfoldable pub read_line :
    (Bytes → Bytes)
    → (Bytes → Bytes)
    → (Bytes → Bytes)
    → Bytes
    → PublicSuffixList
    → PublicSuffixList
unfolding is_empty starts_with trimmed split normalized_rule insert_rule
read_line lower to_ace from_utf8 line l =
    if is_empty line || starts_with (codes "//") line
    then l
    else (let token = trimmed (first (split b' ' line)) in
        if is_empty token
        then l
        else insert_rule (normalized_rule lower to_ace (from_utf8 token)) l)

unfoldable pub read_lines :
    (Bytes → Bytes)
    → (Bytes → Bytes)
    → (Bytes → Bytes)
    → List Bytes
    → PublicSuffixList
    → PublicSuffixList
unfolding read_line trimmed
read_lines lower to_ace from_utf8 [] l = l
read_lines lower to_ace from_utf8 (raw_line ∷ lines) l =
    read_lines lower to_ace from_utf8 lines (read_line lower to_ace from_utf8 (trimmed raw_line) l)

-- The old rules are replaced as a whole.
unfoldable pub set_rules_from_data :
    (Bytes → Bytes) → (Bytes → Bytes) → (Bytes → Bytes) → Bytes → PublicSuffixList
unfolding read_lines split
set_rules_from_data lower to_ace from_utf8 text =
    read_lines lower to_ace from_utf8 (split b'\n' text) empty_list

-- The finished handler of a download, and loadFromDisk: text that does not look like the list
-- leaves the rules alone.
unfoldable pub accept_data :
    (Bytes → Bytes)
    → (Bytes → Bytes)
    → (Bytes → Bytes)
    → Bytes
    → PublicSuffixList
    → PublicSuffixList
unfolding looks_like_the_list set_rules_from_data
accept_data lower to_ace from_utf8 text l =
    if not (looks_like_the_list text) then l else set_rules_from_data lower to_ace from_utf8 text

unfoldable pub is_loaded : PublicSuffixList → Bool
is_loaded l = elim l.rules [ [] ↦ false | r ∷ rs ↦ true ]

-- while (name.endsWith('.')) name.chop(1)
unfoldable pub chop_dots : Bytes → Bytes
unfolding is_empty
chop_dots [] = []
chop_dots (c ∷ cs) = let rest = chop_dots cs in if is_empty rest && c == b'.' then [] else c ∷ rest

abbrev pub dotted : List Bytes → Bytes
dotted = join b'.'

abbrev has_parent : List Bytes → Bool
has_parent [] = false
has_parent (l ∷ ls) = true

-- The loop over the candidates, longest first, from the labels that are left: the public suffix, or
-- an empty text if no rule matches.
unfoldable pub find_suffix : PublicSuffixList → List Bytes → Bytes
unfolding contains join
find_suffix l [] = []
find_suffix l (label ∷ labels) =
    let candidate = dotted (label ∷ labels) in
    let rest = find_suffix l labels in
    if contains candidate l.exceptions
    then dotted labels
    else if contains candidate l.rules
    then candidate
    else if has_parent labels && contains (dotted labels) l.wildcards
    then candidate
    else rest

abbrev pub last_label : List Bytes → Bytes
last_label [] = []
last_label (x ∷ []) = x
last_label (x ∷ y ∷ ls) = last_label (y ∷ ls)

-- The public suffix of labels; "the prevailing rule is '*'" if none matches.
unfoldable pub public_suffix : PublicSuffixList → List Bytes → Bytes
unfolding find_suffix is_empty
public_suffix l labels =
    let suffix = find_suffix l labels in if is_empty suffix then last_label labels else suffix

-- organizationalDomain behind the split into labels.
unfoldable pub organizational_labels : PublicSuffixList → List Bytes → Bytes
unfolding is_loaded
organizational_labels l labels =
    if ltb (length labels) 2
    then []
    else if not (is_loaded l)
    then []
    else (let suffix_labels = length (split b'.' (public_suffix l labels)) in
        if leb (length labels) suffix_labels
        then []
        else dotted (drop (length labels - suffix_labels - 1) labels))

unfoldable pub organizational_domain : (Bytes → Bytes) → PublicSuffixList → Bytes → Bytes
unfolding chop_dots is_empty organizational_labels
organizational_domain lower l domain =
    let name = chop_dots (lower domain) in
    if is_empty name then [] else organizational_labels l (split b'.' name)
