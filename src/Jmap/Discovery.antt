-- ===== src/Jmap/Discovery.antt =====
-- The operations of a session (jmapsession.cpp): discover, refresh, the reply, setAccessToken and
-- clear, and the redirects that a request may follow.
use mailove.Common.{
  ℕ, suc, Bool, true, false, not, ◌&&◌, ◌||◌, Option, none, some, List, [], ◌∷◌, ◌++◌, Bytes, codes,
  equal, is_empty, last_index_of, length, drop, ltb, ◌==◌, if◌then◌else◌,
}
use mailove.PublicSuffix.{PublicSuffixList}
use mailove.Jmap.{Error, auth, throttled, connection, protocol, UrlPlatform}
use mailove.Jmap.Session.{SessionData, Ingested, accepted, refused, no_limits, same_site}
use mailove.Jmap.Ingest.{ingest_json}

-- MailBackend::Credentials, what JMAP reads of them
pub record Credentials : Type 0 where
  pub host : Bytes
  pub user : Bytes
  pub password : Bytes
  pub access_token : Bytes

-- A reply of the network. No status is 0.
pub record NetworkReply (p : UrlPlatform) : Type 0 where
  pub status : ℕ
  pub has_error : Bool
  pub body : Bytes
  pub url : p.Url

-- `is_waiting`: there is an m_reply.
pub record JmapSession (p : UrlPlatform) : Type 0 where
  pub authorization : Bytes
  pub credentials : Credentials
  pub have_credentials : Bool
  pub is_waiting : Bool
  pub valid : Bool
  pub content : SessionData p

-- The signals ready and failed.
pub data Signal : Type 0 where
  ready : Signal
  failed : Error → Signal

unfoldable pub authorization_header : (p : UrlPlatform) → Credentials → Bytes
unfolding is_empty
authorization_header p c =
    if not (is_empty (c.access_token))
    then codes "Bearer " ++ p.to_utf8 (c.access_token)
    else if is_empty (c.user) && is_empty (c.password)
    then []
    else codes "Basic " ++ p.to_base64 (p.to_utf8 (c.user) ++ (b':' ∷ p.to_utf8 (c.password)))

unfoldable pub domain_of_user : (p : UrlPlatform) → Option ℕ → Bytes → Bytes
domain_of_user p none user = []
domain_of_user p (some i) user = p.trim_text (drop (suc i) user)

unfoldable pub configured_host : (p : UrlPlatform) → Credentials → Bytes
unfolding is_empty domain_of_user last_index_of
configured_host p c =
    let host = p.trim_text (c.host) in
    if is_empty host then domain_of_user p (last_index_of b'@' (c.user)) (c.user) else host

unfoldable pub with_scheme : (p : UrlPlatform) → Bytes → Bytes
with_scheme p host =
    if not (p.starts_with_caseless (codes "http://") host)
      && not (p.starts_with_caseless (codes "https://") host)
    then codes "https://" ++ host
    else host

unfoldable pub well_known_url : (p : UrlPlatform) → Credentials → p.Url
unfolding is_empty configured_host with_scheme equal
well_known_url p c =
    let host = configured_host p c in
    let url = p.parse_tolerant (with_scheme p host) in
    if is_empty host
    then p.no_url
    else if not (p.is_valid url) || is_empty (p.host url)
    then p.no_url
    else if is_empty (p.path url) || equal (p.path url) (codes "/")
    then p.set_path (codes "/.well-known/jmap") url
    else url

-- A reply that is waited for is abandoned first.
unfoldable pub discover :
    (p : UrlPlatform) → Credentials → JmapSession p → JmapSession p × List Signal
unfolding well_known_url authorization_header
discover p c s =
    if not (p.is_valid (well_known_url p c))
    then (record s { is_waiting = false }, failed connection ∷ [])
    else (
      record s {
        authorization = authorization_header p c;
        credentials = c;
        have_credentials = true;
        is_waiting = true;
      },
      [],
    )

unfoldable pub refresh : (p : UrlPlatform) → JmapSession p → JmapSession p × List Signal
unfolding discover
refresh p s =
    if not (s.have_credentials) then (s, failed auth ∷ []) else discover p (s.credentials) s

-- ingest: a session object that is refused leaves the session that works.
unfoldable pub take_ingested :
    {p : UrlPlatform} → Ingested p → JmapSession p → JmapSession p × List Signal
take_ingested (accepted content) s = (record s { valid = true; content = content }, ready ∷ [])
take_ingested (refused r) s = (s, failed protocol ∷ [])

unfoldable pub judge_reply :
    (p : UrlPlatform)
    → PublicSuffixList
    → ℕ
    → NetworkReply p
    → JmapSession p
    → JmapSession p × List Signal
unfolding take_ingested ingest_json
judge_reply p psl max_bytes reply s =
    if reply.status == 401 || reply.status == 403
    then (s, failed auth ∷ [])
    else if reply.status == 429
    then (s, failed throttled ∷ [])
    else if reply.has_error && ltb (reply.status) 400
    then (s, failed connection ∷ [])
    else if not (reply.status == 200)
    then (s, failed protocol ∷ [])
    else if ltb max_bytes (length (reply.body))
    then (s, failed protocol ∷ [])
    else take_ingested (ingest_json p psl (p.parse_json (reply.body)) (reply.url)) s

-- The end of the reply; without one that is waited for, nothing happens.
unfoldable pub handle_reply :
    (p : UrlPlatform)
    → PublicSuffixList
    → ℕ
    → NetworkReply p
    → JmapSession p
    → JmapSession p × List Signal
unfolding judge_reply
handle_reply p psl max_bytes reply s =
    if s.is_waiting
    then judge_reply p psl max_bytes reply (record s { is_waiting = false })
    else (s, [])

unfoldable pub cancel : {p : UrlPlatform} → JmapSession p → JmapSession p
cancel s = record s { is_waiting = false }

unfoldable pub set_access_token : (p : UrlPlatform) → Bytes → JmapSession p → JmapSession p
unfolding authorization_header
set_access_token p token s =
    let c = record (s.credentials) { access_token = token } in
    if not (s.have_credentials)
    then s
    else record s { credentials = c; authorization = authorization_header p c }

unfoldable pub no_content : (p : UrlPlatform) → SessionData p
no_content p = record {
  origin = p.no_url;
  api_url = p.no_url;
  download_url = p.no_url;
  upload_url = p.no_url;
  event_source_url = p.no_url;
  state = [];
  username = [];
  mail_account_id = [];
  submission_account_id = [];
  accounts = [];
  capabilities = [];
  limits = no_limits;
}

unfoldable pub clear : (p : UrlPlatform) → JmapSession p → JmapSession p
unfolding no_content
clear p s = record s { valid = false; content = no_content p }

-- guardRedirects: a target on another site is not followed.
unfoldable pub allows_redirect : (p : UrlPlatform) → PublicSuffixList → JmapSession p → p.Url → Bool
unfolding same_site
allows_redirect p psl s target = same_site p psl target (s.content.origin)

-- The addresses that a request goes to when the server answers with these redirects.
unfoldable pub visits :
    (p : UrlPlatform) → PublicSuffixList → JmapSession p → p.Url → List p.Url → List p.Url
unfolding allows_redirect
visits p psl s url [] = url ∷ []
visits p psl s url (target ∷ targets) =
    let rest = visits p psl s target targets in
    if allows_redirect p psl s target then url ∷ rest else url ∷ []
