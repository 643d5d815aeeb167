-- ===== src/Dkim/Keys/Sources.antt =====
-- Where the key records in the caches come from.
use mailove.Common.{
  ℕ, true, false, [], ◌∷◌, ◌≡◌, refl, ◌⊎◌, inl, inr, Option, none, some, ltb, Bytes, is_empty,
  equal_iff, lookup, insert, erase, lookup-insert, lookup-erase, List, Option-cases, Bool-cases,
  arith,
}
use mailove.Dkim.Keys.{
  World, Verifier, KeyCache, KeyReply, CachedKey, DnsReply, TxtRecord, joined, lookup_dkim_key,
  ask_dns, from_dns_cache, public_key_record,
}

-- The resolver gave the key record for this name: the joined texts of the first TXT record.
pub record Published (w : World) (dns_name key_record : Bytes) : Type 0 where
  pub request : ℕ
  pub first : TxtRecord
  pub others : List TxtRecord
  pub answer : w.dns request dns_name ≡ DnsReply.found (first ∷ others)
  pub texts : key_record ≡ joined first.values

-- An empty record says that there is none.
abbrev pub Known : World → Bytes → Bytes → Type 0
Known w dns_name key_record = (is_empty key_record ≡ true) ⊎ Published w dns_name key_record

pub Known-Published :
    (w : World) (dns_name key_record : Bytes)
    → is_empty key_record ≡ false
    → Known w dns_name key_record
    → Published w dns_name key_record
Known-Published w dns_name key_record e (inl h) = absurd (ground arith)
Known-Published w dns_name key_record e (inr k) = k

-- No record of a test is set, and each record in a cache was given for the name that it stands under.
pub record Sourced (w : World) (v : Verifier) (cache : KeyCache) : Type 0 where
  pub untested : is_empty v.test_key_record ≡ true
  pub kept : (n : Bytes) (c : CachedKey) → lookup n v.dns_cache ≡ some c → Known w n c.key_record
  pub cached : (n k : Bytes) → lookup n cache ≡ some k → Known w n k

lookup_dkim_key-Known :
    (w : World) (request : ℕ) (n : Bytes) (reply : DnsReply)
    → w.dns request n ≡ reply
    → Known w n (lookup_dkim_key reply).key_record
unfolding lookup_dkim_key is_empty
lookup_dkim_key-Known w request n DnsReply.timed_out e = inl refl
lookup_dkim_key-Known w request n DnsReply.not_found e = inl refl
lookup_dkim_key-Known w request n DnsReply.other_error e = inl refl
lookup_dkim_key-Known w request n (DnsReply.found []) e = inl refl
lookup_dkim_key-Known w request n (DnsReply.found (r ∷ rs)) e =
    inr (record { request = request; first = r; others = rs; answer = e; texts = refl })

-- What a request leaves and returns.
abbrev pub Sources : World → Bytes → KeyReply → Type 0
Sources w n r = Sourced w r.verifier r.cache × Known w n r.key_record

module _ (w : World) (dns_name : Bytes) where
  insert-cached :
      (cache : KeyCache) (key_record : Bytes)
      → Known w dns_name key_record
      → ((n k : Bytes) → lookup n cache ≡ some k → Known w n k)
      → (n k : Bytes) → lookup n (insert dns_name key_record cache) ≡ some k
      → Known w n k
  insert-cached cache key_record known old n k e =
      ground (arith, lookup-insert dns_name n key_record cache, equal_iff dns_name n, old n k)

  insert-kept :
      (cache : List (Bytes × CachedKey)) (key : CachedKey)
      → Known w dns_name key.key_record
      → ((n : Bytes) (c : CachedKey) → lookup n cache ≡ some c → Known w n c.key_record)
      → (n : Bytes) (c : CachedKey) → lookup n (insert dns_name key cache) ≡ some c
      → Known w n c.key_record
  insert-kept cache key known old n c e =
      ground (arith, lookup-insert dns_name n key cache, equal_iff dns_name n, old n c)

  erase-kept :
      (cache : List (Bytes × CachedKey))
      → ((n : Bytes) (c : CachedKey) → lookup n cache ≡ some c → Known w n c.key_record)
      → (n : Bytes) (c : CachedKey) → lookup n (erase dns_name cache) ≡ some c
      → Known w n c.key_record
  erase-kept cache old n c e = old n c (ground (arith, lookup-erase dns_name n cache))

  ask_dns-Sources :
      (v : Verifier) (cache : KeyCache)
      → Sourced w v cache
      → Sources w dns_name (ask_dns w v dns_name cache)
  unfolding ask_dns
  ask_dns-Sources v cache s =
      let a = lookup_dkim_key (w.dns v.requests dns_name) in
      let known = lookup_dkim_key-Known w v.requests dns_name (w.dns v.requests dns_name) refl in
      elim (Bool-cases a.temp_error) [
        | inl e ↦ rw e (record { untested = s.untested; kept = s.kept; cached = s.cached }, known)
        | inr e ↦ rw e (
          record {
            untested = s.untested;
            kept = insert-kept v.dns_cache _ known s.kept;
            cached = insert-cached cache a.key_record known s.cached;
          },
          known,
        )
      ]

  from_dns_cache-Sources :
      (v : Verifier) (cache : KeyCache) (c : Option CachedKey)
      → lookup dns_name v.dns_cache ≡ c
      → Sourced w v cache
      → Sources w dns_name (from_dns_cache w v dns_name cache c)
  unfolding from_dns_cache
  from_dns_cache-Sources v cache none e s = ask_dns-Sources v cache s
  from_dns_cache-Sources v cache (some c) e s =
      elim (Bool-cases (ltb (w.now v.requests) c.expiry)) [
        | inl live ↦ rw live (
          record {
            untested = s.untested;
            kept = s.kept;
            cached = insert-cached cache c.key_record (s.kept dns_name c e) s.cached;
          },
          s.kept dns_name c e,
        )
        | inr old ↦ rw old (
            ask_dns-Sources (record v { dns_cache = erase dns_name v.dns_cache }) cache
              (record {
                untested = s.untested;
                kept = erase-kept v.dns_cache s.kept;
                cached = s.cached;
              }))
      ]

  pub public_key_record-Sources :
      (v : Verifier) (cache : KeyCache)
      → Sourced w v cache
      → Sources w dns_name (public_key_record w v dns_name cache)
  unfolding public_key_record
  public_key_record-Sources v cache s = elim (Option-cases (lookup dns_name cache)) [
    | inl e ↦
        rw (s.untested, e) (from_dns_cache-Sources v cache (lookup dns_name v.dns_cache) refl s)
    | inr (k, e) ↦ rw (s.untested, e) (s, s.cached dns_name k e)
  ]
