-- ===== src/Dkim/Keys/Cache.antt =====
-- The two caches of key records.
use mailove.Common.{
  ℕ, suc, ◌≤◌, ◌<◌, ◌⊎◌, true, false, ◌≡◌, refl, inl, inr, Option, none, some, ltb, Bytes, is_empty,
  lookup, erase, lookup-insert_self, lookup-erase_self, Option-cases, Bool-cases, arith,
}
use mailove.Dkim.Keys.{
  World, Verifier, KeyCache, CachedKey, KeyReply, lookup_dkim_key, ask_dns, from_dns_cache,
  public_key_record,
}

-- What a request leaves when the resolver is asked and the name is in no cache.
abbrev Forgets : Bytes → KeyReply → Type 0
Forgets n r =
    r.temp_error ≡ true → (lookup n r.verifier.dns_cache ≡ none) × (lookup n r.cache ≡ none)

ask_dns-Forgets :
    (w : World) (v : Verifier) (n : Bytes) (cache : KeyCache)
    → lookup n v.dns_cache ≡ none
    → lookup n cache ≡ none
    → Forgets n (ask_dns w v n cache)
unfolding ask_dns
ask_dns-Forgets w v n cache h k e = ground arith

from_dns_cache-Forgets :
    (w : World) (v : Verifier) (n : Bytes) (cache : KeyCache) (c : Option CachedKey)
    → lookup n v.dns_cache ≡ c
    → lookup n cache ≡ none
    → Forgets n (from_dns_cache w v n cache c)
unfolding from_dns_cache
from_dns_cache-Forgets w v n cache none h k e = ask_dns-Forgets w v n cache h k e
from_dns_cache-Forgets w v n cache (some c) h k e =
    elim (Bool-cases (ltb (w.now v.requests) c.expiry)) [
      | inl live ↦ ground arith
      | inr old ↦
          let w' = record v { dns_cache = erase n v.dns_cache } in
          rw old (ask_dns-Forgets w w' n cache (lookup-erase_self n v.dns_cache) k (rw old at e))
    ]

-- What a request leaves otherwise: its record in the message's cache.
abbrev Remembers : Verifier → Bytes → KeyReply → Type 0
Remembers v n r =
    (r.temp_error ≡ false → lookup n r.cache ≡ some r.key_record)
    × (r.verifier.test_key_record ≡ v.test_key_record)

ask_dns-Remembers :
    (w : World) (v : Verifier) (n : Bytes) (cache : KeyCache) → Remembers v n (ask_dns w v n cache)
unfolding ask_dns
ask_dns-Remembers w v n cache =
    let a = lookup_dkim_key (w.dns v.requests n) in
    (λ h. ground (arith, lookup-insert_self n a.key_record cache), ground arith)

from_dns_cache-Remembers :
    (w : World) (v : Verifier) (n : Bytes) (cache : KeyCache) (c : Option CachedKey)
    → Remembers v n (from_dns_cache w v n cache c)
unfolding from_dns_cache
from_dns_cache-Remembers w v n cache none = ask_dns-Remembers w v n cache
from_dns_cache-Remembers w v n cache (some c) =
    elim (Bool-cases (ltb (w.now v.requests) c.expiry)) [
      | inl live ↦ rw live ((λ h. lookup-insert_self n c.key_record cache), refl)
      | inr old ↦
          rw old (ask_dns-Remembers w (record v { dns_cache = erase n v.dns_cache }) n cache)
    ]

-- The record that a request returns is what the next request for the same name in the same message
-- returns, whatever the resolver and the clock say then, unless the first failed for a while.
pub public_key_record_again :
    (w later : World) (v : Verifier) (dns_name : Bytes) (cache : KeyCache)
    → (public_key_record w v dns_name cache).temp_error ≡ false
    → let r = public_key_record w v dns_name cache in
      let again = public_key_record later r.verifier dns_name r.cache in
      (again.key_record ≡ r.key_record) × (again.temp_error ≡ false)
unfolding public_key_record is_empty
public_key_record_again w later v dns_name cache h =
    elim (Bool-cases (is_empty v.test_key_record)) [
      | inl e ↦ elim (Option-cases (lookup dns_name cache)) [
        | inl m ↦
            let (kept, same) =
              from_dns_cache-Remembers w v dns_name cache (lookup dns_name v.dns_cache) in
            ground (arith, kept, same)
        | inr (r, m) ↦ ground arith
      ]
      | inr e ↦ ground arith
    ]

-- A temporary failure comes from the resolver only, not from the record of a test.
public_key_record-Forgets :
    (w : World) (v : Verifier) (dns_name : Bytes) (cache : KeyCache)
    → Forgets dns_name (public_key_record w v dns_name cache)
unfolding public_key_record
public_key_record-Forgets w v dns_name cache h = elim (Option-cases (lookup dns_name cache)) [
  | inl e ↦
      ground (arith, from_dns_cache-Forgets w v dns_name cache (lookup dns_name v.dns_cache) refl e)
  | inr (r, e) ↦ ground arith
]

public_key_record_untested :
    (w : World) (v : Verifier) (dns_name : Bytes) (cache : KeyCache)
    → (public_key_record w v dns_name cache).temp_error ≡ true
    → is_empty (public_key_record w v dns_name cache).verifier.test_key_record ≡ true
unfolding public_key_record
public_key_record_untested w v dns_name cache h = elim (Option-cases (lookup dns_name cache)) [
  | inl e ↦
      let (kept, same) =
        from_dns_cache-Remembers w v dns_name cache (lookup dns_name v.dns_cache) in
      ground (arith, same)
  | inr (r, e) ↦ ground arith
]

-- What the resolver says now.
abbrev pub Asks : World → Verifier → Bytes → KeyReply → Type 0
Asks w v dns_name r =
    let a = lookup_dkim_key (w.dns v.requests dns_name) in
    (r.key_record ≡ a.key_record)
    × (r.temp_error ≡ a.temp_error)
    × (r.verifier.requests ≡ suc v.requests)

public_key_record-Asks :
    (w : World) (v : Verifier) (dns_name : Bytes) (cache : KeyCache)
    → is_empty v.test_key_record ≡ true
    → lookup dns_name v.dns_cache ≡ none
    → lookup dns_name cache ≡ none
    → Asks w v dns_name (public_key_record w v dns_name cache)
unfolding public_key_record from_dns_cache ask_dns
public_key_record-Asks w v dns_name cache t d m = rw (t, m, d) (ground arith)

-- A temporary failure is not remembered: neither cache holds the name afterwards, and the next
-- request for it, in whatever world, asks the resolver, whose answer then is what it returns.
pub public_key_record_temp :
    (w later : World) (v : Verifier) (dns_name : Bytes) (cache : KeyCache)
    → (public_key_record w v dns_name cache).temp_error ≡ true
    → let r = public_key_record w v dns_name cache in
      (lookup dns_name r.verifier.dns_cache ≡ none)
      × (lookup dns_name r.cache ≡ none)
      × Asks later r.verifier dns_name (public_key_record later r.verifier dns_name r.cache)
public_key_record_temp w later v dns_name cache h =
    let r = public_key_record w v dns_name cache in
    let (d, m) = public_key_record-Forgets w v dns_name cache h in
    (
      d,
      m,
      public_key_record-Asks later r.verifier dns_name r.cache
          (public_key_record_untested w v dns_name cache h) d m,
    )

-- The time to live, raised to the floor or cut at the ceiling.
abbrev pub IsClamped : ℕ → ℕ → ℕ → ℕ → Type 0
IsClamped low high ttl kept =
    ((ttl < low) × (kept ≡ low))
    ⊎ (((low ≤ ttl) × (ttl ≤ high) × (kept ≡ ttl)) ⊎ ((high < ttl) × (kept ≡ high)))
