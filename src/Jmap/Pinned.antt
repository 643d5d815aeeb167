-- ===== src/Jmap/Pinned.antt =====
-- Where the credentials of an account may go: to the site that its session came from.
use mailove.Common.{
  ℕ, Bool, true, false, not, ◌&&◌, ◌||◌, ◌≡◌, refl, ◌⊎◌, inl, inr, Option, none, some, List, [],
  ◌∷◌, Bytes, codes, equal_iff, is_empty, contains, if◌then◌else◌, Bool-cases, arith,
}
use mailove.PublicSuffix.{PublicSuffixList}
use mailove.Jmap.{
  Json, null, boolean, number, text, array, object, JsonFields, to_object, to_text, value_of,
  UrlPlatform,
}
use mailove.Jmap.Session.{
  Account, SessionData, Refusal, Ingested, accepted, refused, same_site, is_clear, session_url,
  endpoint,
}
use mailove.Jmap.Ingest.{
  has_account, scan_accounts, pick, take_session, ingest_object, ingest_json, read_accounts,
  mail_capability,
}
use mailove.Jmap.Discovery.{
  Credentials, NetworkReply, JmapSession, Signal, well_known_url, discover, refresh, take_ingested,
  judge_reply, handle_reply, cancel, set_access_token, clear,
}

module _ (p : UrlPlatform) (psl : PublicSuffixList) where
  -- No address, or one on the site.
  abbrev pub MaySee : p.Url → p.Url → Type 0
  MaySee origin url = (p.is_empty_url url ≡ true) ⊎ (same_site p psl url origin ≡ true)

  -- Every endpoint is on the site that the session came from, and the account for mail is listed.
  pub record Pinned (c : SessionData p) : Type 0 where
    pub api : MaySee c.origin c.api_url
    pub usable : (p.is_valid c.api_url ≡ true) × (p.is_empty_url c.api_url ≡ false)
    pub download : MaySee c.origin c.download_url
    pub upload : MaySee c.origin c.upload_url
    pub event_source : MaySee c.origin c.event_source_url
    pub listed : has_account c.mail_account_id c.accounts ≡ true

  -- An endpoint that is not complained about may see the credentials.
  endpoint_clear :
      (root : JsonFields) (from : p.Url) (key : Bytes) (wrong : Option Refusal)
      → (endpoint p psl root from key wrong).1 ≡ none
      → (wrong ≡ none) × MaySee from (endpoint p psl root from key wrong).0
  unfolding endpoint is_clear
  endpoint_clear root from key none h =
      let url = session_url p root key from in
      elim (Bool-cases (p.is_empty_url url)) [
        | inl e ↦ ground arith
        | inr e ↦ elim (Bool-cases (same_site p psl url from)) [
          | inl s ↦ ground arith
          | inr s ↦ ground arith
        ]
      ]
  endpoint_clear root from key (some r) h = ground arith

has_account-here :
    (id : Bytes) (a : Account) (accounts : List Account)
    → id ≡ a.id
    → has_account id (a ∷ accounts) ≡ true
unfolding has_account
has_account-here id a accounts e = ground (arith, equal_iff a.id id)

has_account-there :
    (id : Bytes) (a : Account) (accounts : List Account)
    → has_account id accounts ≡ true
    → has_account id (a ∷ accounts) ≡ true
unfolding has_account
has_account-there id a accounts e = ground arith

-- The scan ends at the fallback that it began with, or at an account of the list.
scan_accounts-listed :
    (capability fallback : Bytes) (accounts : List Account)
    → (scan_accounts capability fallback accounts ≡ fallback)
      ⊎ (has_account (scan_accounts capability fallback accounts) accounts ≡ true)
unfolding scan_accounts
scan_accounts-listed capability fallback [] = inl refl
scan_accounts-listed capability fallback (a ∷ accounts) =
    let offers = contains capability a.account_capabilities in
    elim (Bool-cases (offers && a.is_personal)) [
      | inl e ↦ rw e (inr (has_account-here a.id a accounts refl))
      | inr e ↦ elim (Bool-cases (offers && is_empty fallback)) [
        | inl f ↦ rw e (
            rw f (elim (scan_accounts-listed capability a.id accounts) [
              | inl g ↦ inr (has_account-here _ a accounts g)
              | inr g ↦ inr (has_account-there _ a accounts g)
            ]))
        | inr f ↦ rw e (
            rw f (elim (scan_accounts-listed capability fallback accounts) [
              | inl g ↦ inl g
              | inr g ↦ inr (has_account-there _ a accounts g)
            ]))
      ]
    ]

pick-listed :
    (primary : JsonFields) (accounts : List Account) (capability : Bytes)
    → is_empty (pick primary accounts capability) ≡ false
    → has_account (pick primary accounts capability) accounts ≡ true
unfolding pick
pick-listed primary accounts capability =
    let stated = to_text (value_of capability primary) in
    elim (Bool-cases (not (is_empty stated) && has_account stated accounts)) [
      | inl e ↦ rw e (λ h. ground arith)
      | inr e ↦ rw e (λ h. elim (scan_accounts-listed capability [] accounts) [
        | inl f ↦ filled _ f h
        | inr f ↦ f
      ])
    ]
  where
    filled : (id : Bytes) → id ≡ [] → is_empty id ≡ false → has_account id accounts ≡ true
    filled id e h = ground (arith, equal_iff id [])

module _ (p : UrlPlatform) (psl : PublicSuffixList) where
  -- What is known of a result: if it is a session, it is one of these.
  abbrev pub Accepts : (SessionData p → Type 0) → Ingested p → Type 0
  Accepts P (accepted c) = P c
  Accepts P (refused r) = Unit

  abbrev pub From : p.Url → SessionData p → Type 0
  From from c = Pinned p psl c × (c.origin ≡ from)

  take_session-From :
      (root : JsonFields) (from api download upload event : p.Url) (wrong : Option Refusal)
      → (wrong ≡ none
          → MaySee p psl from api
            × MaySee p psl from download
            × MaySee p psl from upload
            × MaySee p psl from event)
      → Accepts (From from) (take_session p root from api download upload event wrong)
  unfolding take_session
  take_session-From root from api download upload event (some r) h = tt
  take_session-From root from api download upload event none h =
      let (a, d, u, e) = h refl in
      let accounts = read_accounts (to_object (value_of (codes "accounts") root)) in
      let primary = to_object (value_of (codes "primaryAccounts") root) in
      elim (Bool-cases (not (p.is_valid api) || p.is_empty_url api)) [
        | inl b ↦ rw b tt
        | inr b ↦ elim (Bool-cases (is_empty (pick primary accounts mail_capability))) [
          | inl k ↦ rw b (rw k tt)
          | inr k ↦ rw b (
              rw k (
                record {
                  api = a;
                  usable = (ground arith, ground arith);
                  download = d;
                  upload = u;
                  event_source = e;
                  listed = pick-listed primary accounts mail_capability k;
                },
                refl,
              ))
        ]
      ]

  ingest_object-From :
      (root : JsonFields) (from : p.Url) → Accepts (From from) (ingest_object p psl root from)
  unfolding ingest_object
  ingest_object-From root from = take_session-From root from _ _ _ _ _ (λ h.
      let (w3, e) = endpoint_clear p psl root from _ _ h in
      let (w2, u) = endpoint_clear p psl root from _ _ w3 in
      let (w1, d) = endpoint_clear p psl root from _ _ w2 in
      let (w0, a) = endpoint_clear p psl root from _ none w1 in (a, d, u, e))

  pub ingest_json-From :
      (json : Option Json) (from : p.Url) → Accepts (From from) (ingest_json p psl json from)
  unfolding ingest_json
  ingest_json-From none from = tt
  ingest_json-From (some (object root)) from = ingest_object-From root from
  ingest_json-From (some null) from = tt
  ingest_json-From (some (boolean b)) from = tt
  ingest_json-From (some (number n)) from = tt
  ingest_json-From (some (text b)) from = tt
  ingest_json-From (some (array items)) from = tt

  -- A session object in any order of operations and replies, since the session was made.
  pub data Reach (max_bytes : ℕ) : JmapSession p → Type 0 where
    made : {s : JmapSession p} → s.valid ≡ false → Reach max_bytes s
    discovered :
        {s : JmapSession p} (c : Credentials)
        → Reach max_bytes s
        → Reach max_bytes (discover p c s).0
    refreshed : {s : JmapSession p} → Reach max_bytes s → Reach max_bytes (refresh p s).0
    answered :
        {s : JmapSession p} (reply : NetworkReply p)
        → Reach max_bytes s
        → Reach max_bytes (handle_reply p psl max_bytes reply s).0
    cancelled : {s : JmapSession p} → Reach max_bytes s → Reach max_bytes (cancel s)
    token_set :
        {s : JmapSession p} (token : Bytes)
        → Reach max_bytes s
        → Reach max_bytes (set_access_token p token s)
    cleared : {s : JmapSession p} → Reach max_bytes s → Reach max_bytes (clear p s)

  -- If the session is valid, its endpoints are pinned.
  record Holds (r : JmapSession p × List Signal) : Type 0 where
    pinned : r.0.valid ≡ true → Pinned p psl r.0.content

  abbrev Kept : JmapSession p → Type 0
  Kept s = s.valid ≡ true → Pinned p psl s.content

  Holds-if :
      (b : Bool) (x y : JmapSession p × List Signal)
      → Holds x
      → Holds y
      → Holds (if b then x else y)
  Holds-if true x y h k = h
  Holds-if false x y h k = k

  discover-Holds : (c : Credentials) (s : JmapSession p) → Kept s → Holds (discover p c s)
  unfolding discover
  discover-Holds c s h =
      Holds-if (not (p.is_valid (well_known_url p c))) _ _ record { pinned = h }
        record { pinned = h }

  refresh-Holds : (s : JmapSession p) → Kept s → Holds (refresh p s)
  unfolding refresh
  refresh-Holds s h =
      Holds-if (not s.have_credentials) _ _ record { pinned = h } (discover-Holds s.credentials s h)

  take_ingested-Holds :
      (i : Ingested p) (from : p.Url) (s : JmapSession p)
      → Accepts (From from) i
      → Kept s
      → Holds (take_ingested i s)
  unfolding take_ingested
  take_ingested-Holds (accepted c) from s a h = record { pinned = λ v. a.0 }
  take_ingested-Holds (refused r) from s a h = record { pinned = h }

  unchanged : (s : JmapSession p) (signals : List Signal) → Kept s → Holds (s, signals)
  unchanged s signals h = record { pinned = h }

  judge_reply-Holds :
      (max_bytes : ℕ) (reply : NetworkReply p) (s : JmapSession p)
      → Kept s
      → Holds (judge_reply p psl max_bytes reply s)
  unfolding judge_reply
  judge_reply-Holds max_bytes reply s h =
      let taken =
        take_ingested-Holds (ingest_json p psl (p.parse_json reply.body) reply.url) reply.url s
          (ingest_json-From (p.parse_json reply.body) reply.url) h in
      search (Holds-if, unchanged) depth 9

  handle_reply-Holds :
      (max_bytes : ℕ) (reply : NetworkReply p) (s : JmapSession p)
      → Kept s
      → Holds (handle_reply p psl max_bytes reply s)
  unfolding handle_reply
  handle_reply-Holds max_bytes reply s h =
      Holds-if s.is_waiting _ _
        (judge_reply-Holds max_bytes reply (record s { is_waiting = false }) h)
        record { pinned = h }

  set_access_token-Holds :
      (token : Bytes) (s : JmapSession p) → Kept s → Holds (set_access_token p token s, [])
  unfolding set_access_token
  set_access_token-Holds token s h = elim (Bool-cases s.have_credentials) [
    | inl e ↦ rw e record { pinned = h }
    | inr e ↦ rw e record { pinned = h }
  ]

  -- A session that is valid is pinned, whatever was done since it was made.
  pub Reach-Pinned :
      (max_bytes : ℕ) (s : JmapSession p)
      → Reach max_bytes s
      → s.valid ≡ true
      → Pinned p psl s.content
  unfolding cancel clear
  Reach-Pinned max_bytes _ (made e) v = ground arith
  Reach-Pinned max_bytes _ (discovered {s} c r) v =
      (discover-Holds c s (Reach-Pinned max_bytes s r)).pinned v
  Reach-Pinned max_bytes _ (refreshed {s} r) v =
      (refresh-Holds s (Reach-Pinned max_bytes s r)).pinned v
  Reach-Pinned max_bytes _ (answered {s} reply r) v =
      (handle_reply-Holds max_bytes reply s (Reach-Pinned max_bytes s r)).pinned v
  Reach-Pinned max_bytes _ (cancelled {s} r) v = Reach-Pinned max_bytes s r v
  Reach-Pinned max_bytes _ (token_set {s} token r) v =
      (set_access_token-Holds token s (Reach-Pinned max_bytes s r)).pinned v
  Reach-Pinned max_bytes _ (cleared {s} r) v = ground arith
