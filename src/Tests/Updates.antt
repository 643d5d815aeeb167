-- ===== src/Tests/Updates.antt =====
-- Runs of the check for a newer release, with a small platform in place of Qt.
use mailove.Common.{
  equal_int, ℕ, ◌+◌, ◌-◌, ◌*◌, true, false, List, [], ◌∷◌, ◌++◌, ◌≡◌, refl, Bytes, pos, codes,
  split, equal, to_lower, arith,
}
use mailove.UpdateCheck.{
  UpdatePlatform, UpdateConfig, UpdateState, Settings, Reply, is_newer, version_from_tag,
  tag_from_location, check, finish, open_check, is_forced, is_redirect,
}
use mailove.UpdateCheck.Order.{is_newer_order}
use mailove.UpdateCheck.Answers.{
  Justified, opened, asked, answered, Reachable-Justified, check-finish, open_check-finish,
}

-- A number in decimal, read from the left.
abbrev read_digits : ℕ → Bytes → ℕ
read_digits n [] = n
read_digits n (c ∷ cs) = read_digits (10 * n + (c - 48)) cs

abbrev last_of : List Bytes → Bytes
last_of [] = []
last_of (b ∷ []) = b
last_of (b ∷ c ∷ bs) = last_of (c ∷ bs)

abbrev small_platform : UpdatePlatform
small_platform = record {
  trim_text = λ b. b;
  to_int = λ b. pos (read_digits 0 b);
  arg = λ pattern_text b. pattern_text ++ b;
  last_section = λ sep b. last_of (split sep b);
  parse_url = λ b. record {
    is_valid = true;
    scheme = codes "https";
    host = codes "releases.example";
    path = b;
  };
  equal_caseless = λ a b. equal (to_lower a) (to_lower b);
}

abbrev daily : UpdateConfig
daily = record {
  built_version = codes "2.8";
  forced_version = [];
  check_enabled = true;
  interval_hours = pos 24;
  check_url = codes "/latest";
  release_url = codes "/tag/";
}

abbrev forced_run : UpdateConfig
forced_run = record daily { forced_version = codes "1.0" }

abbrev fresh : Settings
fresh = record { last_check = pos 0; checked_version = []; latest_seen = [] }

abbrev first_start : UpdateState
first_start = record { latest = []; in_flight = false; settings = fresh }

abbrev release_reply : Reply
release_reply = record {
  failed = false;
  status = pos 302;
  location = codes "/tag/v2.9.1";
  url = small_platform.parse_url (codes "/latest");
}

is_newer_order_example :
    (is_newer small_platform (codes "2.10") (codes "2.10") ≡ false)
    × (is_newer small_platform (codes "2.10") (codes "2.9") ≡ true
        → is_newer small_platform (codes "2.9") (codes "2.10") ≡ false)
    × (is_newer small_platform (codes "2.10") (codes "2.9") ≡ true
        → is_newer small_platform (codes "2.9") (codes "2.8.7") ≡ true
        → is_newer small_platform (codes "2.10") (codes "2.8.7") ≡ true)
is_newer_order_example = is_newer_order small_platform (codes "2.10") (codes "2.9") (codes "2.8.7")

Reachable-Justified_example :
    Justified small_platform daily
      (finish small_platform daily 1000 release_reply
        (check small_platform daily true 990 (open_check small_platform daily fresh)).0).0.latest
Reachable-Justified_example =
    Reachable-Justified small_platform daily
      (finish small_platform daily 1000 release_reply
        (check small_platform daily true 990 (open_check small_platform daily fresh)).0).0
      (answered 1000 release_reply (asked true 990 (opened fresh)))

-- The answer turns the marker on.
marker_shown : (finish small_platform daily 1000 release_reply first_start).0.latest ≡ codes "2.9.1"
unfolding finish to_lower equal_int
marker_shown = refl

check-finish_example :
    check small_platform daily false 87000
      (finish small_platform daily 1000 release_reply first_start).0
    ≡ ((finish small_platform daily 1000 release_reply first_start).0, false)
unfolding is_forced
check-finish_example =
    check-finish small_platform daily 1000 87000 24 release_reply first_start refl refl refl
      (omega arith) (omega arith)

open_check-finish_example :
    (open_check small_platform daily
      (finish small_platform daily 1000 release_reply first_start).0.settings).latest
    ≡ (finish small_platform daily 1000 release_reply first_start).0.latest
unfolding is_forced is_redirect version_from_tag tag_from_location to_lower
open_check-finish_example =
    open_check-finish small_platform daily 1000 release_reply first_start (λ b h. refl) refl refl
      refl refl
