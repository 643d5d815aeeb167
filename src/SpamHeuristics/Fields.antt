-- ===== src/SpamHeuristics/Fields.antt =====
-- The header fields of a message (parseHead and its readers), and the verdict of the receiving
-- server's own filter (readUpstream).
use mailove.Common.{
  ℕ, zero, suc, Bool, true, false, not, ◌&&◌, ◌||◌, Option, none, some, List, [], ◌∷◌, ◌++◌, Bytes,
  ℤ, pos, less_int, codes, equal, is_empty, starts_with, ends_with, chop, split, index_of, take,
  drop, ltb, if◌then◌else◌,
}
use mailove.SpamHeuristics.{SpamPlatform, captured}

pub record Field : Type 0 where
  pub name : Bytes
  pub value : Bytes

-- The regular expression \r?\n: a carriage return in front of the line feed goes with it; the last
-- piece has no line feed.
unfoldable pub chop_returns : List Bytes → List Bytes
unfolding ends_with chop
chop_returns [] = []
chop_returns (l ∷ []) = l ∷ []
chop_returns (l ∷ m ∷ ls) = (if ends_with (13 ∷ []) l then chop 1 l else l) ∷ chop_returns (m ∷ ls)

-- out.last().value += ...
unfoldable pub continue_last : Bytes → List Field → List Field
continue_last more [] = []
continue_last more (f ∷ []) = record { name = f.name; value = f.value ++ b' ' ∷ more } ∷ []
continue_last more (f ∷ g ∷ fs) = f ∷ continue_last more (g ∷ fs)

unfoldable pub no_fields : List Field → Bool
no_fields [] = true
no_fields (f ∷ fs) = false

-- colon <= 0 is a line without a name.
unfoldable pub add_named : SpamPlatform → Bytes → Option ℕ → List Field → List Field
add_named p line none out = out
add_named p line (some zero) out = out
add_named p line (some (suc n)) out =
    out
    ++ record {
      name = p.lower_text (p.trim_text (take (suc n) line));
      value = p.trim_text (drop (suc (suc n)) line);
    }
      ∷ []

unfoldable pub parse_line : SpamPlatform → Bytes → List Field → List Field
unfolding is_empty starts_with no_fields continue_last add_named index_of
parse_line p line out =
    if is_empty line
    then out
    else if (starts_with (b' ' ∷ []) line || starts_with (9 ∷ []) line) && not (no_fields out)
    then continue_last (p.trim_text line) out
    else add_named p line (index_of b':' line) out

unfoldable pub parse_lines : SpamPlatform → List Bytes → List Field → List Field
unfolding parse_line
parse_lines p [] out = out
parse_lines p (l ∷ ls) out = parse_lines p ls (parse_line p l out)

unfoldable pub parse_head : SpamPlatform → Bytes → List Field
unfolding parse_lines chop_returns split
parse_head p head = parse_lines p (chop_returns (split 10 (p.from_utf8 head))) []

unfoldable pub first_value : List Field → Bytes → Bytes
unfolding equal
first_value [] name = []
first_value (f ∷ fs) name = if equal (f.name) name then f.value else first_value fs name

unfoldable pub has_field : List Field → Bytes → Bool
unfolding equal
has_field [] name = false
has_field (f ∷ fs) name = equal (f.name) name || has_field fs name

-- lastIndexOfField at or after position `i`, with what was found before
unfoldable pub last_index_from : ℕ → Option ℕ → List Field → Bytes → Option ℕ
unfolding equal
last_index_from i found [] name = found
last_index_from i found (f ∷ fs) name =
    last_index_from (suc i) (if equal (f.name) name then some i else found) fs name

unfoldable pub last_index_of_field : List Field → Bytes → Option ℕ
unfolding last_index_from
last_index_of_field fields name = last_index_from 0 none fields name

unfoldable pub is_above : ℕ → Option ℕ → Bool
is_above i none = false
is_above i (some r) = ltb i r

unfoldable pub added_in_transit : List Field → ℕ → Bool
unfolding is_above last_index_of_field
added_in_transit fields i = is_above i (last_index_of_field fields (codes "received"))

-- Upstream; `have_flag` is the local variable haveFlag.
pub record Upstream : Type 0 where
  pub present : Bool
  pub spam : Bool
  pub scored : Bool
  pub score : ℤ
  pub required : ℤ
  pub have_flag : Bool

-- vendorFlag with vendorSpam: none is no vendor's flag.
unfoldable pub proofpoint_flag : Option (List Bytes) → Option Bool
unfolding captured is_empty
proofpoint_flag none = none
proofpoint_flag (some m) = some (is_empty (captured 1 m))

unfoldable pub junk_flag : Bytes → Option Bool
unfolding starts_with
junk_flag v =
    if starts_with (codes "notjunk") v
    then some false
    else if starts_with (codes "junk") v
    then some true
    else none

unfoldable pub vendor_flag : SpamPlatform → Field → Option Bool
unfolding equal proofpoint_flag junk_flag
vendor_flag p f =
    if equal (f.name) (codes "x-proofpoint-spam-details")
    then proofpoint_flag (p.match_pattern true (codes "\\brule=(not)?spam\\b") (f.value))
    else if equal (f.name) (codes "x-yandex-spam")
        || equal (f.name) (codes "x-gm-spam")
        || equal (f.name) (codes "x-gm-phishy")
    then some (equal (p.trim_text (f.value)) (codes "1"))
    else if equal (f.name) (codes "x-ui-filterresults")
    then junk_flag (p.lower_text (p.trim_text (f.value)))
    else none

unfoldable pub take_flag : Bool → Upstream → Upstream
take_flag is_spam up =
    if up.have_flag then up else record up { have_flag = true; present = true; spam = is_spam }

-- A score and the server's threshold; anything that is no number, or a threshold that is not
-- positive, is not read.
unfoldable pub take_score : Option ℤ → Option ℤ → Upstream → Upstream
unfolding less_int
take_score none limit up = up
take_score (some s) none up = up
take_score (some s) (some limit) up =
    if less_int (pos 0) limit
    then record up { present = true; scored = true; score = s; required = limit }
    else up

abbrev pub number_pattern : Bytes
number_pattern = codes "(-?[0-9]+(?:\\.[0-9]+)?)"

abbrev pub rspamd_pattern : Bytes
rspamd_pattern =
    codes "\\[\\s*" ++ number_pattern ++ codes "\\s*/\\s*" ++ number_pattern ++ codes "\\s*\\]"

unfoldable pub take_rspamd : SpamPlatform → Option (List Bytes) → Upstream → Upstream
unfolding take_score captured
take_rspamd p none up = up
take_rspamd p (some m) up =
    take_score (p.to_hundredths (captured 1 m)) (p.to_hundredths (captured 2 m)) up

unfoldable pub take_status_flag : SpamPlatform → Option (List Bytes) → Upstream → Upstream
unfolding captured
take_status_flag p none up = up
take_status_flag p (some m) up =
    if up.have_flag
    then up
    else record up { have_flag = true; spam = p.equal_caseless (captured 1 m) (codes "yes") }

unfoldable pub take_status_score :
    SpamPlatform → Option (List Bytes) → Option (List Bytes) → Upstream → Upstream
unfolding take_score captured
take_status_score p none rm up = up
take_status_score p (some sm) none up = up
take_status_score p (some sm) (some rm) up =
    take_score (p.to_hundredths (captured 1 sm)) (p.to_hundredths (captured 1 rm)) up

unfoldable pub take_status : SpamPlatform → Bytes → Upstream → Upstream
unfolding take_status_flag take_status_score
take_status p value up =
    let flagged =
      take_status_flag p (p.match_pattern true (codes "^\\s*(yes|no)\\b") value)
        (record up { present = true }) in
    if flagged.scored
    then flagged
    else take_status_score p (p.match_pattern true (codes "\\bscore=" ++ number_pattern) value)
        (p.match_pattern true (codes "\\brequired=" ++ number_pattern) value) flagged

-- A field that is a flag, a score or a status line, from a position that counts.
unfoldable pub read_verdict : SpamPlatform → Field → Option Bool → Upstream → Upstream
unfolding equal take_flag take_rspamd take_status
read_verdict p f (some is_spam) up = take_flag is_spam up
read_verdict p f none up =
    if equal (f.name) (codes "x-spam-flag")
    then take_flag (p.equal_caseless (p.trim_text (f.value)) (codes "yes")) up
    else if equal (f.name) (codes "x-spamd-result")
    then (if up.scored
        then up
        else take_rspamd p (p.match_pattern false rspamd_pattern (f.value)) up)
    else if equal (f.name) (codes "x-spam-status")
        || equal (f.name) (codes "x-barracuda-spam-status")
    then take_status p (f.value) up
    else up

-- The loop, at position `i`; `in_transit` is addedInTransit of the whole list.
unfoldable pub read_upstream_from : SpamPlatform → (ℕ → Bool) → ℕ → List Field → Upstream → Upstream
unfolding read_verdict vendor_flag
read_upstream_from p in_transit i [] up = up
read_upstream_from p in_transit i (f ∷ fs) up =
    read_upstream_from p in_transit (suc i) fs
      (if in_transit i then read_verdict p f (vendor_flag p f) up else up)

abbrev pub no_upstream : Upstream
no_upstream = record {
  present = false;
  spam = false;
  scored = false;
  score = pos 0;
  required = pos 0;
  have_flag = false;
}

unfoldable pub read_upstream : SpamPlatform → List Field → Upstream
unfolding read_upstream_from added_in_transit
read_upstream p fields = read_upstream_from p (added_in_transit fields) 0 fields no_upstream
