-- ===== src/UpdateCheck.antt =====
-- The check for a newer release (updatecheck.cpp): the comparison of versions, the gate in front of
-- a request, and what an answer changes. The network, QUrl and the texts' white space are Qt's.
pub mod Order
pub mod Answers
use mailove.Common.{
  ℕ, zero, suc, ◌+◌, ◌*◌, Bool, true, false, not, ◌&&◌, ◌||◌, List, [], ◌∷◌, if◌then◌else◌, Bytes,
  ℤ, pos, negsuc, less_int, equal_int, codes, is_empty, equal, leb, ltb, length, split, ◌==◌,
}

-- The parts of a QUrl that are read.
pub record Url : Type 0 where
  pub is_valid : Bool
  pub scheme : Bytes
  pub host : Bytes
  pub path : Bytes

-- What the check takes from Qt: QString::trimmed, toInt, arg and section(sep, -1), QUrl, and the
-- comparison of texts without case.
pub record UpdatePlatform : Type 0 where
  pub trim_text : Bytes → Bytes
  pub to_int : Bytes → ℤ
  pub arg : Bytes → Bytes → Bytes
  pub last_section : ℕ → Bytes → Bytes
  pub parse_url : Bytes → Url
  pub equal_caseless : Bytes → Bytes → Bool

-- \d
unfoldable pub is_digit : ℕ → Bool
is_digit c = leb b'0' c && leb c b'9'

unfoldable pub all_digits : Bytes → Bool
unfolding is_digit
all_digits [] = true
all_digits (c ∷ cs) = is_digit c && all_digits cs

-- \d{1,4}
unfoldable pub is_part : Bytes → Bool
unfolding is_empty all_digits
is_part b = not (is_empty b) && leb (length b) 4 && all_digits b

unfoldable pub all_parts : List Bytes → Bool
unfolding is_part
all_parts [] = true
all_parts (b ∷ bs) = is_part b && all_parts bs

-- \d{1,4}(?:\.\d{1,4}){0,3}
unfoldable pub is_version : Bytes → Bool
unfolding all_parts split
is_version b = leb (length (split b'.' b)) 4 && all_parts (split b'.' b)

-- v?
unfoldable pub drop_v : Bytes → Bytes
drop_v [] = []
drop_v (c ∷ cs) = if c == b'v' then cs else c ∷ cs

-- One round of the loop of isNewer, and the rounds behind it.
unfoldable pub decide : ℤ → ℤ → Bool → Bool
decide lhs rhs rest = if not (equal_int lhs rhs) then less_int rhs lhs else rest

-- lastCheck + floor has not come yet: now - last < floor
unfoldable pub is_within : ℕ → ℤ → ℤ → Bool
is_within now (negsuc l) floor = false
is_within now (pos l) (pos f) = ltb now (l + f)
is_within now (pos l) (negsuc f) = ltb (now + suc f) l

unfoldable pub is_positive : ℤ → Bool
is_positive (pos (suc l)) = true
is_positive _ = false

-- qint64(hours) * 3600
unfoldable pub hours_to_seconds : ℤ → ℤ
hours_to_seconds (pos h) = pos (3600 * h)
hours_to_seconds (negsuc h) = negsuc (3600 * h + 3599)

-- The settings under update/; a missing text is empty, a missing number 0.
pub record Settings : Type 0 where
  pub last_check : ℤ
  pub checked_version : Bytes
  pub latest_seen : Bytes

-- The version that was built, the one of --force-version, and AdvancedConfig under update/.
pub record UpdateConfig : Type 0 where
  pub built_version : Bytes
  pub forced_version : Bytes
  pub check_enabled : Bool
  pub interval_hours : ℤ
  pub check_url : Bytes
  pub release_url : Bytes

-- The object and the settings that it writes.
pub record UpdateState : Type 0 where
  pub latest : Bytes
  pub in_flight : Bool
  pub settings : Settings

pub record Reply : Type 0 where
  pub failed : Bool
  pub status : ℤ
  pub location : Bytes
  pub url : Url

unfoldable pub is_forced : UpdateConfig → Bool
unfolding is_empty
is_forced cfg = not (is_empty cfg.forced_version)

unfoldable pub running_version : UpdateConfig → Bytes
unfolding is_empty
running_version cfg = if is_empty cfg.forced_version then cfg.built_version else cfg.forced_version

-- The seconds between two requests, by who asks.
unfoldable pub floor_of : UpdateConfig → Bool → ℤ
unfolding hours_to_seconds
floor_of cfg user_asked = if user_asked then pos 300 else hours_to_seconds cfg.interval_hours

-- The gate: an answer about this version that is recent enough.
unfoldable pub is_gated : UpdateConfig → Settings → Bool → ℕ → Bool
unfolding is_forced running_version floor_of equal is_positive is_within
is_gated cfg s user_asked now =
    not (is_forced cfg)
    && (equal s.checked_version (running_version cfg)
        && (is_positive s.last_check && is_within now s.last_check (floor_of cfg user_asked)))

-- status < 300 || status > 399
unfoldable pub is_redirect : ℤ → Bool
unfolding less_int
is_redirect status = not (less_int status (pos 300) || less_int (pos 399) status)

module _ (p : UpdatePlatform) where
  open p use {trim_text, to_int, arg, last_section, parse_url, equal_caseless}

  unfoldable pub version_from_tag : Bytes → Bytes
  unfolding is_version drop_v
  version_from_tag tag = let rest = drop_v (trim_text tag) in if is_version rest then rest else []

  unfoldable pub tag_from_location : Bytes → Bytes → Bytes
  unfolding equal
  tag_from_location location expected_host =
      let target = parse_url (trim_text location) in
      if not target.is_valid || not (equal target.scheme (codes "https"))
      then []
      else if not (equal_caseless target.host expected_host)
      then []
      else last_section b'/' target.path

  -- The loop of isNewer: a part that is missing counts as 0.
  unfoldable pub is_newer_parts : List Bytes → List Bytes → Bool
  unfolding decide
  is_newer_parts [] [] = false
  is_newer_parts (a ∷ more) [] = decide (to_int a) (pos 0) (is_newer_parts more [])
  is_newer_parts [] (b ∷ others) = decide (pos 0) (to_int b) (is_newer_parts [] others)
  is_newer_parts (a ∷ more) (b ∷ others) = decide (to_int a) (to_int b) (is_newer_parts more others)

  unfoldable pub is_newer : Bytes → Bytes → Bool
  unfolding is_newer_parts split
  is_newer candidate running = is_newer_parts (split b'.' candidate) (split b'.' running)

  -- setRunningVersion
  unfoldable pub set_running_version : Bytes → UpdateConfig → UpdateConfig
  unfolding version_from_tag is_empty
  set_running_version version cfg =
      let clean = version_from_tag version in
      if is_empty clean then cfg else record cfg { forced_version = clean }

  -- The constructor: what the last answer found, judged again.
  unfoldable pub open_check : UpdateConfig → Settings → UpdateState
  unfolding version_from_tag is_empty is_newer running_version
  open_check cfg s =
      let cached = version_from_tag s.latest_seen in
      record {
        latest =
            if not (is_empty cached) && is_newer cached (running_version cfg) then cached else [];
        in_flight = false;
        settings = s;
      }

  unfoldable pub release_url_of : UpdateConfig → UpdateState → Bytes
  unfolding is_empty
  release_url_of cfg st = if is_empty st.latest then [] else arg cfg.release_url st.latest

  -- check: the state, and whether a request is sent.
  unfoldable pub check : UpdateConfig → Bool → ℕ → UpdateState → UpdateState × Bool
  unfolding is_gated equal
  check cfg user_asked now st =
      let url = parse_url cfg.check_url in
      if not cfg.check_enabled
      then (st, false)
      else if st.in_flight
      then (st, false)
      else if is_gated cfg st.settings user_asked now
      then (st, false)
      else if not url.is_valid || not (equal url.scheme (codes "https"))
      then (st, false)
      else (record st { in_flight = true }, true)

  abbrev record_check : UpdateConfig → ℕ → Settings → Settings
  record_check cfg now s =
      if is_forced cfg
      then s
      else record s { last_check = pos now; checked_version = running_version cfg }

  abbrev record_latest : UpdateConfig → Bytes → Settings → Settings
  record_latest cfg version s = if is_forced cfg then s else record s { latest_seen = version }

  -- What the version of an answer changes, and whether changed() is emitted.
  unfoldable pub take_version : UpdateConfig → Bytes → UpdateState → UpdateState × Bool
  unfolding is_newer equal is_empty is_forced running_version
  take_version cfg version st =
      let seen = record_latest cfg version st.settings in
      let forgotten = record_latest cfg [] st.settings in
      if not (is_newer version (running_version cfg))
      then (record st { latest = []; settings = forgotten }, not (is_empty st.latest))
      else (record st { latest = version; settings = seen }, not (equal st.latest version))

  -- finished
  unfoldable pub finish : UpdateConfig → ℕ → Reply → UpdateState → UpdateState × Bool
  unfolding version_from_tag tag_from_location is_empty is_redirect take_version is_forced
      running_version
  finish cfg now reply st =
      let landed = record st { in_flight = false } in
      let answered = record landed { settings = record_check cfg now st.settings } in
      let version = version_from_tag (tag_from_location reply.location reply.url.host) in
      if reply.failed
      then (landed, false)
      else if not (is_redirect reply.status)
      then (answered, false)
      else if is_empty version
      then (answered, false)
      else take_version cfg version answered
