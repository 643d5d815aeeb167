-- ===== src/Jmap/Ingest.antt =====
-- The session object of a server (ingest), past its endpoints: the accounts, and what is kept of it.
use mailove.Common.{
  Bool, false, not, ◌&&◌, ◌||◌, Option, none, some, List, [], ◌∷◌, Bytes, codes, equal, is_empty,
  contains, if◌then◌else◌,
}
use mailove.PublicSuffix.{PublicSuffixList}
use mailove.Jmap.{
  Json, null, boolean, number, text, array, object, JsonFields, end, field, value_of, to_text,
  to_bool, to_object, keys, UrlPlatform,
}
use mailove.Jmap.Session.{
  Account, SessionData, Refusal, not_json, not_an_object, no_api_url, no_mail_account, Ingested,
  accepted, refused, endpoint, read_limits,
}

unfoldable pub read_account : Bytes → JsonFields → Account
unfolding to_text to_bool to_object value_of keys
read_account id value = record {
  id = id;
  name = to_text (value_of (codes "name") value);
  is_personal = to_bool (value_of (codes "isPersonal") value);
  is_read_only = to_bool (value_of (codes "isReadOnly") value);
  account_capabilities = keys (to_object (value_of (codes "accountCapabilities") value));
}

unfoldable pub read_accounts : JsonFields → List Account
unfolding read_account to_object
read_accounts end = []
read_accounts (field id value fields) = read_account id (to_object value) ∷ read_accounts fields

-- the lambda `known`, past its test for an empty id
unfoldable pub has_account : Bytes → List Account → Bool
unfolding equal
has_account id [] = false
has_account id (a ∷ accounts) = equal (a.id) id || has_account id accounts

-- The loop of the lambda `pick`, with its variable fallback.
unfoldable pub scan_accounts : Bytes → Bytes → List Account → Bytes
unfolding contains is_empty
scan_accounts capability fallback [] = fallback
scan_accounts capability fallback (a ∷ accounts) =
    let offers = contains capability (a.account_capabilities) in
    let rest =
      scan_accounts capability (if offers && is_empty fallback then a.id else fallback) accounts in
    if offers && a.is_personal then a.id else rest

unfoldable pub pick : JsonFields → List Account → Bytes → Bytes
unfolding has_account scan_accounts is_empty to_text value_of
pick primary accounts capability =
    let stated = to_text (value_of capability primary) in
    if not (is_empty stated) && has_account stated accounts
    then stated
    else scan_accounts capability [] accounts

abbrev pub core_capability : Bytes
core_capability = codes "urn:ietf:params:jmap:core"

abbrev pub mail_capability : Bytes
mail_capability = codes "urn:ietf:params:jmap:mail"

abbrev pub submission_capability : Bytes
submission_capability = codes "urn:ietf:params:jmap:submission"

-- The end of ingest, with the endpoints that were read.
unfoldable pub take_session :
    (p : UrlPlatform)
    → JsonFields
    → p.Url
    → p.Url
    → p.Url
    → p.Url
    → p.Url
    → Option Refusal
    → Ingested p
unfolding read_limits read_accounts pick is_empty to_object to_text value_of keys
take_session p root from api_url download_url upload_url event_source_url (some r) = refused r
take_session p root from api_url download_url upload_url event_source_url none =
    let caps = to_object (value_of (codes "capabilities") root) in
    let accounts = read_accounts (to_object (value_of (codes "accounts") root)) in
    let primary = to_object (value_of (codes "primaryAccounts") root) in
    let mail_account_id = pick primary accounts mail_capability in
    if not (p.is_valid api_url) || p.is_empty_url api_url
    then refused no_api_url
    else if is_empty mail_account_id
    then refused no_mail_account
    else accepted record {
      origin = from;
      api_url = api_url;
      download_url = download_url;
      upload_url = upload_url;
      event_source_url = event_source_url;
      state = to_text (value_of (codes "state") root);
      username = to_text (value_of (codes "username") root);
      mail_account_id = mail_account_id;
      submission_account_id = pick primary accounts submission_capability;
      accounts = accounts;
      capabilities = keys caps;
      limits = read_limits (to_object (value_of core_capability caps));
    }

unfoldable pub ingest_object :
    (p : UrlPlatform) → PublicSuffixList → JsonFields → p.Url → Ingested p
unfolding endpoint take_session
ingest_object p psl root from =
    let (api_url, wrong1) = endpoint p psl root from (codes "apiUrl") none in
    let (download_url, wrong2) = endpoint p psl root from (codes "downloadUrl") wrong1 in
    let (upload_url, wrong3) = endpoint p psl root from (codes "uploadUrl") wrong2 in
    let (event_source_url, wrong4) = endpoint p psl root from (codes "eventSourceUrl") wrong3 in
    take_session p root from api_url download_url upload_url event_source_url wrong4

unfoldable pub ingest_json : (p : UrlPlatform) → PublicSuffixList → Option Json → p.Url → Ingested p
unfolding ingest_object
ingest_json p psl none from = refused not_json
ingest_json p psl (some (object root)) from = ingest_object p psl root from
ingest_json p psl (some null) from = refused not_an_object
ingest_json p psl (some (boolean b)) from = refused not_an_object
ingest_json p psl (some (number n)) from = refused not_an_object
ingest_json p psl (some (text b)) from = refused not_an_object
ingest_json p psl (some (array items)) from = refused not_an_object

unfoldable pub has_capability : {p : UrlPlatform} → SessionData p → Bytes → Bool
unfolding contains
has_capability s uri = contains uri (s.capabilities)
