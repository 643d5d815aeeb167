-- ===== src/Jmap/Session.antt =====
-- The session of an account (jmapsession.cpp): which endpoints may have its credentials, and the
-- limits of its server.
use mailove.Common.{
  ℕ, Bool, true, false, not, ◌&&◌, ◌||◌, Option, none, some, List, ◌∷◌, Bytes, ℤ, pos, codes, equal,
  equal_int, is_empty, ends_with, if◌then◌else◌,
}
use mailove.PublicSuffix.{PublicSuffixList, is_loaded, organizational_domain}
use mailove.Jmap.{
  Json, null, boolean, number, text, array, object, JsonFields, value_of, to_text, UrlPlatform,
}

pub record Account : Type 0 where
  pub id : Bytes
  pub name : Bytes
  pub is_personal : Bool
  pub is_read_only : Bool
  pub account_capabilities : List Bytes

pub record Limits : Type 0 where
  pub max_size_upload : ℤ
  pub max_concurrent_upload : ℤ
  pub max_size_request : ℤ
  pub max_calls_in_request : ℤ
  pub max_objects_in_get : ℤ
  pub max_objects_in_set : ℤ
  pub max_concurrent_requests : ℤ

abbrev pub no_limits : Limits
no_limits = record {
  max_size_upload = pos 0;
  max_concurrent_upload = pos 0;
  max_size_request = pos 0;
  max_calls_in_request = pos 0;
  max_objects_in_get = pos 0;
  max_objects_in_set = pos 0;
  max_concurrent_requests = pos 0;
}

-- What ingest fills in, except the flag m_valid.
pub record SessionData (p : UrlPlatform) : Type 0 where
  pub origin : p.Url
  pub api_url : p.Url
  pub download_url : p.Url
  pub upload_url : p.Url
  pub event_source_url : p.Url
  pub state : Bytes
  pub username : Bytes
  pub mail_account_id : Bytes
  pub submission_account_id : Bytes
  pub accounts : List Account
  pub capabilities : List Bytes
  pub limits : Limits

-- The texts that ingest fails with.
pub data Refusal : Type 0 where
  not_json : Refusal
  not_an_object : Refusal
  wrong_origin : Bytes → Bytes → Refusal
  no_api_url : Refusal
  no_mail_account : Refusal

pub data Ingested (p : UrlPlatform) : Type 0 where
  accepted : SessionData p → Ingested p
  refused : Refusal → Ingested p

unfoldable pub same_origin : (p : UrlPlatform) → p.Url → p.Url → Bool
unfolding is_empty equal_int
same_origin p a b =
    let default_port : ℕ = if p.equal_caseless (p.scheme a) (codes "http") then 80 else 443 in
    p.equal_caseless (p.scheme a) (p.scheme b)
    && p.equal_caseless (p.host a) (p.host b)
    && not (is_empty (p.host a))
    && equal_int (p.port a default_port) (p.port b default_port)

-- The hosts, in lower case, of two addresses with one scheme.
unfoldable pub related_hosts : (Bytes → Bytes) → PublicSuffixList → Bytes → Bytes → Bool
unfolding is_empty equal is_loaded organizational_domain ends_with
related_hosts lower psl ha hb =
    let org = organizational_domain lower psl ha in
    if is_empty ha || is_empty hb
    then false
    else if equal ha hb
    then true
    else if is_loaded psl
    then not (is_empty org) && equal org (organizational_domain lower psl hb)
    else ends_with (b'.' ∷ hb) ha || ends_with (b'.' ∷ ha) hb

unfoldable pub same_site : (p : UrlPlatform) → PublicSuffixList → p.Url → p.Url → Bool
unfolding same_origin related_hosts
same_site p psl a b =
    if same_origin p a b
    then true
    else if p.equal_caseless (p.scheme a) (p.scheme b)
    then related_hosts p.lower_text psl (p.lower_text (p.host a)) (p.lower_text (p.host b))
    else false

unfoldable pub session_url : (p : UrlPlatform) → JsonFields → Bytes → p.Url → p.Url
unfolding is_empty to_text value_of
session_url p root key base =
    let raw = to_text (value_of key root) in
    let parsed = p.parse_tolerant raw in
    if is_empty raw
    then p.no_url
    else if not (p.is_valid parsed)
    then p.no_url
    else if p.is_relative parsed
    then p.resolved base parsed
    else parsed

unfoldable pub is_clear : Option Refusal → Bool
is_clear none = true
is_clear (some r) = false

-- The lambda `endpoint`, with the variable wrongOrigin before and after.
unfoldable pub endpoint :
    (p : UrlPlatform)
    → PublicSuffixList
    → JsonFields
    → p.Url
    → Bytes
    → Option Refusal
    → p.Url × Option Refusal
unfolding session_url same_site is_clear
endpoint p psl root from key wrong =
    let url = session_url p root key from in
    if not (p.is_empty_url url) && not (same_site p psl url from) && is_clear wrong
    then (p.no_url, some (wrong_origin key (p.host url)))
    else (url, wrong)

unfoldable pub limit_number : Json → ℤ
limit_number (number n) = n
limit_number null = pos 0
limit_number (boolean b) = pos 0
limit_number (text b) = pos 0
limit_number (array items) = pos 0
limit_number (object fields) = pos 0

unfoldable pub limit_value : JsonFields → Bytes → ℤ
unfolding limit_number value_of
limit_value core key = limit_number (value_of key core)

unfoldable pub read_limits : JsonFields → Limits
unfolding limit_value
read_limits core = record {
  max_size_upload = limit_value core (codes "maxSizeUpload");
  max_concurrent_upload = limit_value core (codes "maxConcurrentUpload");
  max_size_request = limit_value core (codes "maxSizeRequest");
  max_calls_in_request = limit_value core (codes "maxCallsInRequest");
  max_objects_in_get = limit_value core (codes "maxObjectsInGet");
  max_objects_in_set = limit_value core (codes "maxObjectsInSet");
  max_concurrent_requests = limit_value core (codes "maxConcurrentRequests");
}
