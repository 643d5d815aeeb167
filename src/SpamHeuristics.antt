-- ===== src/SpamHeuristics.antt =====
-- The spam scorer (spamheuristics.cpp, namespace SpamHeuristics). Here: what it takes from Qt and
-- from the settings, and the reading of an Authentication-Results value.
pub mod Fields
pub mod Mailbox
pub mod Angles
pub mod Scoring
pub mod Linking
pub mod Words
pub mod Names
pub mod Header
pub mod Content
pub mod Bounds
pub mod Decisive
pub mod Contents
pub mod Written
pub mod Trusted
pub mod Transit
pub mod Sealed
pub mod Senders
pub mod Rules
pub mod Totals
pub mod Links
use mailove.Common.{
  ℕ, zero, suc, Bool, true, false, not, ◌&&◌, ◌||◌, Option, none, some, List, [], ◌∷◌, ◌++◌, Bytes,
  ℤ, codes, equal, contains, split, ends_with, ltb, leb, ◌==◌, if◌then◌else◌,
}

-- What the scorer calls in Qt: QString::toLower, trimmed, compare without case and fromUtf8,
-- QChar::isLetter, and QString::toDouble times 100 rounded by qRound (none where toDouble fails).
-- `match_pattern caseless pattern text` is QRegularExpression::match: the captured texts of the
-- first match, the whole match first.
pub record SpamPlatform : Type 0 where
  pub lower_text : Bytes → Bytes
  pub trim_text : Bytes → Bytes
  pub equal_caseless : Bytes → Bytes → Bool
  pub from_utf8 : Bytes → Bytes
  pub is_letter : ℕ → Bool
  pub to_hundredths : Bytes → Option ℤ
  pub match_pattern : Bool → Bytes → Bytes → Option (List Bytes)

-- The advanced settings that the scorer reads.
pub record SpamConfig : Type 0 where
  pub trust_spf : Bool
  pub trust_dkim : Bool
  pub trust_dmarc : Bool
  pub trust_arc : Bool
  pub trust_compauth : Bool
  pub trust_auth : Bool
  pub threshold : ℤ
  pub familiar_count : ℤ
  pub familiar_days : ℤ
  pub tld_min_sample : ℤ
  pub link_group_cap : ℤ
  -- the effective values of the keys spamrules/<id>, by id
  pub rule_weights : List (Bytes × ℤ)

-- Where the loop of stripAuthCommentsAndQuotes is: `comment n` has commentDepth n + 1, and the
-- `_escape` states are about to skip a character.
pub data AuthScan : Type 0 where
  outside : AuthScan
  quoted : AuthScan
  quoted_escape : AuthScan
  comment : ℕ → AuthScan
  comment_escape : ℕ → AuthScan

unfoldable pub close_comment : ℕ → AuthScan
close_comment zero = outside
close_comment (suc n) = comment n

unfoldable pub auth_step : AuthScan → ℕ → AuthScan
unfolding close_comment
auth_step outside c = if c == b'"' then quoted else if c == b'(' then comment 0 else outside
auth_step quoted c = if c == 92 then quoted_escape else if c == b'"' then outside else quoted
auth_step quoted_escape c = quoted
auth_step (comment n) c =
    if c == 92
    then comment_escape n
    else if c == b'('
    then comment (suc n)
    else if c == b')'
    then close_comment n
    else comment n
auth_step (comment_escape n) c = comment n

unfoldable pub auth_output : AuthScan → ℕ → Bytes
auth_output outside c = if c == b'"' then [] else if c == b'(' then b' ' ∷ [] else c ∷ []
auth_output quoted c = []
auth_output quoted_escape c = []
auth_output (comment n) c = []
auth_output (comment_escape n) c = []

unfoldable pub strip_from : AuthScan → Bytes → Bytes
unfolding auth_step auth_output
strip_from s [] = []
strip_from s (c ∷ cs) = auth_output s c ++ strip_from (auth_step s c) cs

unfoldable pub strip_auth_comments_and_quotes : Bytes → Bytes
unfolding strip_from
strip_auth_comments_and_quotes value = strip_from outside value

unfoldable pub auth_method_trusted : SpamConfig → Bytes → Bool
unfolding equal
auth_method_trusted config name =
    if equal name (codes "spf")
    then config.trust_spf
    else if equal name (codes "dkim")
    then config.trust_dkim
    else if equal name (codes "dmarc")
    then config.trust_dmarc
    else if equal name (codes "arc")
    then config.trust_arc
    else if equal name (codes "compauth")
    then config.trust_compauth
    else if equal name (codes "auth")
    then config.trust_auth
    else true

-- QRegularExpressionMatch::captured: an empty text for a group that took no part
unfoldable pub captured : ℕ → List Bytes → Bytes
captured n [] = []
captured zero (t ∷ ts) = t
captured (suc n) (t ∷ ts) = captured n ts

-- methodRe
abbrev pub method_pattern : Bytes
method_pattern = codes "^\\s*(spf|dkim|dmarc|arc|compauth|auth)\\s*=\\s*([a-z]+)"

unfoldable pub verdict_of : (Bytes → Bytes) → Option (List Bytes) → List Bytes
unfolding captured
verdict_of lower none = []
verdict_of lower (some m) = (lower (captured 1 m) ++ b'=' ∷ lower (captured 2 m)) ∷ []

unfoldable pub verdicts_in : SpamPlatform → List Bytes → List Bytes
unfolding verdict_of
verdicts_in p [] = []
verdicts_in p (f ∷ fs) =
    verdict_of (p.lower_text) (p.match_pattern true method_pattern f) ++ verdicts_in p fs

-- The loop starts at 1: the first field is the authserv-id.
unfoldable pub verdicts_after_id : SpamPlatform → List Bytes → List Bytes
unfolding verdicts_in
verdicts_after_id p [] = []
verdicts_after_id p (authserv_id ∷ fields) = verdicts_in p fields

unfoldable pub auth_result_verdicts : SpamPlatform → Bytes → List Bytes
unfolding verdicts_after_id strip_auth_comments_and_quotes split
auth_result_verdicts p value =
    verdicts_after_id p (split b';' (strip_auth_comments_and_quotes value))

-- section('=', 0, 0) and section('=', 1)
unfoldable pub before_equals : Bytes → Bytes
before_equals [] = []
before_equals (c ∷ cs) = let rest = before_equals cs in if c == b'=' then [] else c ∷ rest

unfoldable pub after_equals : Bytes → Bytes
after_equals [] = []
after_equals (c ∷ cs) = let rest = after_equals cs in if c == b'=' then cs else rest

-- A method that answers another question, or one that the settings do not trust: `continue`.
unfoldable pub is_passed_over : SpamConfig → Bytes → Bool
unfolding auth_method_trusted equal
is_passed_over config name =
    equal name (codes "arc") || equal name (codes "auth") || not (auth_method_trusted config name)

unfoldable pub accuses : SpamConfig → Bytes → Bool
unfolding is_passed_over before_equals after_equals equal ends_with
accuses config verdict =
    let name = before_equals verdict in
    let result = after_equals verdict in
    if is_passed_over config name
    then false
    else if equal name (codes "compauth")
    then equal result (codes "fail")
    else if equal result (codes "softfail")
    then false
    else ends_with (codes "fail") result || equal result (codes "permerror")

unfoldable pub says : Bytes → SpamConfig → Bytes → Bool
unfolding is_passed_over before_equals ends_with
says ending config verdict =
    if is_passed_over config (before_equals verdict) then false else ends_with ending verdict

unfoldable pub any : (Bytes → Bool) → List Bytes → Bool
any test [] = false
any test (v ∷ vs) = test v || any test vs

unfoldable pub auth_results_failed : SpamPlatform → SpamConfig → Bytes → Bool
unfolding any accuses auth_result_verdicts
auth_results_failed p config value = any (accuses config) (auth_result_verdicts p value)

unfoldable pub auth_results_soft_failed : SpamPlatform → SpamConfig → Bytes → Bool
unfolding any says auth_result_verdicts
auth_results_soft_failed p config value =
    any (says (codes "=softfail") config) (auth_result_verdicts p value)

unfoldable pub auth_results_passed : SpamPlatform → SpamConfig → Bytes → Bool
unfolding any says auth_result_verdicts
auth_results_passed p config value =
    any (says (codes "=pass") config) (auth_result_verdicts p value)

unfoldable pub auth_results_arc_passed : SpamPlatform → SpamConfig → Bytes → Bool
unfolding auth_method_trusted auth_result_verdicts contains
auth_results_arc_passed p config value =
    auth_method_trusted config (codes "arc")
    && contains (codes "arc=pass") (auth_result_verdicts p value)

unfoldable pub auth_results_submitted : SpamPlatform → SpamConfig → Bytes → Bool
unfolding auth_method_trusted auth_result_verdicts contains
auth_results_submitted p config value =
    auth_method_trusted config (codes "auth")
    && contains (codes "auth=pass") (auth_result_verdicts p value)
