-- ===== src/Dkim/Keys.antt =====
-- Signing keys: the DNS answer, its two caches, and the key's use (lookupDkimKey, publicKeyRecord,
-- loadPublicKey, verifySignature). Time and the resolver are a parameter: `now n` and `dns n` are
-- what the clock and the resolver say at request `n`.
pub mod Cache
pub mod Sources
use mailove.Common.{
  ℕ, suc, ◌+◌, Bool, true, false, not, List, [], ◌∷◌, ◌++◌, Option, none, some, ◌==◌, ltb, min, max,
  if◌then◌else◌, Bytes, codes, is_empty, equal, length, lookup, insert, erase,
}
use mailove.Dkim.Platform.{Platform}

pub record TxtRecord : Type 0 where
  pub time_to_live : ℕ
  pub values : List Bytes

pub data DnsReply : Type 0 where
  timed_out not_found other_error : DnsReply
  found : List TxtRecord → DnsReply

pub record KeyAnswer : Type 0 where
  pub key_record : Bytes
  pub temp_error : Bool
  pub ttl : ℕ

abbrev pub joined : List Bytes → Bytes
joined [] = []
joined (c ∷ cs) = c ++ joined cs

unfoldable pub lookup_dkim_key : DnsReply → KeyAnswer
lookup_dkim_key DnsReply.timed_out = record { key_record = []; temp_error = true; ttl = 0 }
lookup_dkim_key DnsReply.not_found = record { key_record = []; temp_error = false; ttl = 0 }
lookup_dkim_key DnsReply.other_error = record { key_record = []; temp_error = true; ttl = 0 }
lookup_dkim_key (DnsReply.found []) = record { key_record = []; temp_error = false; ttl = 0 }
lookup_dkim_key (DnsReply.found (r ∷ rs)) = record {
  key_record = joined r.values;
  temp_error = false;
  ttl = r.time_to_live;
}

pub record CachedKey : Type 0 where
  pub key_record : Bytes
  pub expiry : ℕ

abbrev pub KeyCache : Type 0
KeyCache = List (Bytes × Bytes)

-- The members of DkimVerifier, and how many requests for a key were made.
pub record Verifier : Type 0 where
  pub test_key_record : Bytes
  pub dns_cache : List (Bytes × CachedKey)
  pub requests : ℕ

pub record World : Type 0 where
  pub now : ℕ → ℕ
  pub dns : ℕ → Bytes → DnsReply
  -- dkim/dnsNegativeTtl, dkim/dnsCacheMinTtl and dkim/dnsCacheMaxTtl
  pub dns_negative_ttl : ℕ
  pub dns_cache_min_ttl : ℕ
  pub dns_cache_max_ttl : ℕ

-- What publicKeyRecord returns and leaves: record, tempError, the verifier and the message's cache.
pub record KeyReply : Type 0 where
  pub key_record : Bytes
  pub temp_error : Bool
  pub verifier : Verifier
  pub cache : KeyCache

-- qBound(min, ttl, max) for a positive answer.
unfoldable pub keep_for : World → KeyAnswer → ℕ
unfolding is_empty
keep_for w a =
    if is_empty a.key_record
    then w.dns_negative_ttl
    else max w.dns_cache_min_ttl (min w.dns_cache_max_ttl a.ttl)

-- The resolver is asked, and an answer that is not temporary is kept in both caches.
unfoldable pub ask_dns : World → Verifier → Bytes → KeyCache → KeyReply
ask_dns w v dns_name cache =
    let a = lookup_dkim_key (w.dns v.requests dns_name) in
    let asked = record v { requests = suc v.requests } in
    if a.temp_error
    then (record { key_record = a.key_record; temp_error = true; verifier = asked; cache = cache })
    else (record {
      key_record = a.key_record;
      temp_error = false;
      verifier = record asked {
        dns_cache =
            insert dns_name
              (record { key_record = a.key_record; expiry = w.now v.requests + keep_for w a })
              v.dns_cache;
      };
      cache = insert dns_name a.key_record cache;
    })

-- The cross-message cache: an expired entry is dropped on contact.
unfoldable pub from_dns_cache : World → Verifier → Bytes → KeyCache → Option CachedKey → KeyReply
from_dns_cache w v dns_name cache none = ask_dns w v dns_name cache
from_dns_cache w v dns_name cache (some cached) =
    if ltb (w.now v.requests) cached.expiry
    then (record {
      key_record = cached.key_record;
      temp_error = false;
      verifier = record v { requests = suc v.requests };
      cache = insert dns_name cached.key_record cache;
    })
    else ask_dns w (record v { dns_cache = erase dns_name v.dns_cache }) dns_name cache

unfoldable pub public_key_record : World → Verifier → Bytes → KeyCache → KeyReply
unfolding is_empty
public_key_record w v dns_name cache =
    if not (is_empty v.test_key_record)
    then (record {
      key_record = v.test_key_record;
      temp_error = false;
      verifier = v;
      cache = cache;
    })
    else elim (lookup dns_name cache) [
      | some r ↦ record { key_record = r; temp_error = false; verifier = v; cache = cache }
      | none ↦ from_dns_cache w v dns_name cache (lookup dns_name v.dns_cache)
    ]

abbrev pub ed25519 : Bytes
ed25519 = codes "ed25519"

module _ (p : Platform) where
  open p use {PublicKey, raw_ed25519_key, decode_public_key, verifies_raw, verifies_sha256, sha256}

  unfoldable pub load_public_key : Bytes → Bytes → Option PublicKey
  unfolding equal
  load_public_key der key_type =
      if equal key_type ed25519
      then (if not (length der == 32) then none else raw_ed25519_key der)
      else decode_public_key der

  unfoldable pub verify_signature : PublicKey → Bytes → Bytes → Bytes → Bool
  unfolding equal
  verify_signature key key_type signed_data signature =
      if equal key_type ed25519
      then verifies_raw key (sha256 signed_data) signature
      else verifies_sha256 key signed_data signature
