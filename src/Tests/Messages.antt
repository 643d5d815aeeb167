-- ===== src/Tests/Messages.antt =====
-- A signed message from end to end, and the key caches.
use mailove.Common.{
  ◌+◌, true, false, [], ◌∷◌, ◌++◌, ◌≡◌, refl, some, none, Bytes, codes, split, equal, is_empty,
  to_lower, trimmed, lookup,
}
use mailove.PublicSuffix.{empty_list}
use mailove.Dkim.Platform.{Platform}
use mailove.Dkim.Tags.{parse_tag_list, tag_value, strip_wsp}
use mailove.Dkim.Fields.{Field, split_fields}
use mailove.Dkim.Results.{no_result, trustworthy}
use mailove.Dkim.Align.{domains_aligned}
use mailove.Dkim.Keys.{
  World, Verifier, DnsReply, lookup_dkim_key, public_key_record, ask_dns, from_dns_cache,
  load_public_key, verify_signature,
}
use mailove.Dkim.Keys.Cache.{Asks, public_key_record_temp}
use mailove.Dkim.Prepare.{
  Signature, prepare, is_supported, signs_from, signed_headers, take_last, matches, limited_body,
  own_field,
}
use mailove.Dkim.Prepare.Fields.{Taken, take_last_lem}
use mailove.Dkim.Prepare.Laws.{Covers, prepare-Covers}
use mailove.Dkim.Arc.{KeyState, key_type_of}
use mailove.Dkim.Verify.{
  find_body, collect_signatures, check_key, check_prepared, check_signature, try_signatures,
  verify_parts, verify,
}
use mailove.Dkim.Verify.Vouched.{VouchedBy}
use mailove.Dkim.Verify.Sound.{made, verify_sound}

-- A platform whose hash is one letter and whose keys accept the signature `ok`.
abbrev toy : Platform
toy = record {
  PublicKey = Bytes;
  raw_ed25519_key = λ b. some b;
  decode_public_key = λ b. some b;
  verifies_raw = λ key text signature. equal signature (codes "ok");
  verifies_sha256 = λ key text signature. equal signature (codes "ok");
  sha256 = λ b. codes "H";
  to_base64 = λ b. b;
  from_base64 = λ b. b;
  to_int = λ b. none;
  to_long_long = λ b. none;
  lower_text = λ b. b;
  replace = λ pattern by text. text;
}

abbrev resolver : DnsReply → World
resolver reply = record {
  now = λ n. 1000 + n;
  dns = λ n name. reply;
  dns_negative_ttl = 60;
  dns_cache_min_ttl = 1800;
  dns_cache_max_ttl = 86400;
}

abbrev key_found : DnsReply
key_found = DnsReply.found (record { time_to_live = 300; values = codes "p=K" ∷ [] } ∷ [])

abbrev fresh : Verifier
fresh = record { test_key_record = []; dns_cache = []; requests = 0 }

abbrev fresh_state : KeyState
fresh_state = record { verifier = fresh; cache = [] }

abbrev head : Bytes
head = codes "DKIM-Signature: a=rsa-sha256; d=a.b; s=x; h=from; bh=H; b=ok\r\nFrom: u\r\n"

abbrev body : Bytes
body = codes "hi\r\n"

abbrev raw_message : Bytes
raw_message = head ++ (13 ∷ 10 ∷ body)

abbrev from_domain : Bytes
from_domain = codes "a.b"

verify_sound_example :
    VouchedBy toy
      (resolver key_found)
      empty_list
      from_domain
      head
      body
      (collect_signatures (split_fields head))
      (verify toy (resolver key_found) empty_list from_domain raw_message fresh_state).1
unfolding verify find_body verify_parts try_signatures collect_signatures check_signature check_key
    check_prepared trustworthy domains_aligned prepare split_fields tag_value parse_tag_list
    is_supported strip_wsp signs_from public_key_record lookup from_dns_cache ask_dns
    lookup_dkim_key load_public_key key_type_of verify_signature limited_body
verify_sound_example =
    verify_sound toy (resolver key_found) empty_list from_domain raw_message fresh 69 made refl refl

abbrev sig : Signature
sig = record {
  tags = parse_tag_list (codes "a=rsa-sha256; d=a.b; s=x; h=from; bh=H; b=ok");
  raw_name = codes "DKIM-Signature";
  raw_value = codes " a=rsa-sha256; d=a.b; s=x; h=from; bh=H; b=ok";
  raw_field = codes "DKIM-Signature: a=rsa-sha256; d=a.b; s=x; h=from; bh=H; b=ok";
  header_canon = codes "simple";
  body_canon = codes "simple";
}

prepare-Covers_example :
    Covers toy head body sig no_result
      (signed_headers sig (split 58 (tag_value sig.tags (codes "h"))) (split_fields head)
        ++ own_field toy sig)
      no_result
unfolding prepare limited_body parse_tag_list tag_value strip_wsp is_supported equal is_empty
    signs_from to_lower split trimmed
prepare-Covers_example = prepare-Covers toy head body sig no_result _ no_result refl

abbrev received : Bytes → Field
received value = record { name = codes "Received"; value = value; raw = []; used = false }

take_last_lem_example :
    Taken
      (codes "received")
      (received (codes "1") ∷ received (codes "2") ∷ [])
      (take_last (codes "received") (received (codes "1") ∷ received (codes "2") ∷ []))
take_last_lem_example =
    take_last_lem (codes "received") (received (codes "1") ∷ received (codes "2") ∷ [])

-- The last one is taken.
take_last_run :
    take_last (codes "received") (received (codes "1") ∷ received (codes "2") ∷ [])
    ≡ some (
      received (codes "2"),
      received (codes "1") ∷ record (received (codes "2")) { used = true } ∷ [],
    )
unfolding take_last matches
take_last_run = refl

abbrev timing_out : World
timing_out = resolver DnsReply.timed_out

-- The name server answers once it is asked again.
public_key_record_temp_example :
    let r = public_key_record timing_out fresh (codes "n") [] in
    (lookup (codes "n") r.verifier.dns_cache ≡ none)
    × (lookup (codes "n") r.cache ≡ none)
    × Asks
        (resolver key_found)
        r.verifier
        (codes "n")
        (public_key_record (resolver key_found) r.verifier (codes "n") r.cache)
unfolding public_key_record from_dns_cache ask_dns lookup lookup_dkim_key
public_key_record_temp_example =
    public_key_record_temp timing_out (resolver key_found) fresh (codes "n") [] refl
