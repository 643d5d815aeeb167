-- ===== src/Jmap/Posts.antt =====
-- Where the Authorization header of a request goes: to the session's API address, and on from there
-- only within the site that the session came from.
pub mod Api
use mailove.Common.{
  ℕ, zero, suc, Bool, true, false, not, ◌&&◌, ◌||◌, ◌≡◌, refl, sym, subst, ap, ◌∙◌, ◌⊎◌, inl, inr,
  Option, none, some, List, [], ◌∷◌, ◌++◌, Bytes, All, length, ltb, ◌==◌, if◌then◌else◌, Bool-cases,
  arith,
}
use mailove.PublicSuffix.{PublicSuffixList}
use mailove.Jmap.{JsonFields, Error, no_error, auth, throttled, connection, protocol, UrlPlatform}
use mailove.Jmap.Session.{Ingested, accepted, refused, same_site}
use mailove.Jmap.Ingest.{ingest_json}
use mailove.Jmap.Discovery.{
  NetworkReply, JmapSession, Signal, ready, failed, discover, refresh, take_ingested, judge_reply,
  handle_reply, allows_redirect, visits,
}
use mailove.Jmap.Pinned.{Reach, answered, refreshed, Pinned, Reach-Pinned}
use mailove.Jmap.Once.Answers.{Answer, to_request, to_session, take_answer}
use mailove.Jmap.Request.{
  Response, Message, session_failed, no_session, no_calls, Parsed, parsed, unreadable,
  parse_response,
}
use mailove.Jmap.Sending.{
  JmapRequest, Delivery, posted, called, Turn, call_back, finish, post, has_calls, send_batch,
  and_then, nothing, run_handlers, take_signal, take_signals, finish_parsed, judge_response, renew,
  handle_response, answer_post, answer_session,
}
use mailove.Jmap.Posts.Api.{
  ToApi, call, api, Keeps, nothing-Keeps, send_batch-Keeps, judge_response-Keeps, refresh-Heard,
  handle_reply-Heard, Heard,
}

module _ (p : UrlPlatform) (psl : PublicSuffixList) where
  -- The addresses that a request goes to when the server redirects it are on the site of the first.
  visits-same_site :
      (s : JmapSession p) (url : p.Url) (targets : List p.Url)
      → same_site p psl url s.content.origin ≡ true
      → All (λ u. same_site p psl u s.content.origin ≡ true) (visits p psl s url targets)
  unfolding visits allows_redirect
  visits-same_site s url [] h = (h, tt)
  visits-same_site s url (target ∷ targets) h =
      elim (Bool-cases (same_site p psl target s.content.origin)) [
        | inl e ↦ rw e (h, visits-same_site s target targets e)
        | inr e ↦ rw e (h, tt)
      ]

module _ {p : UrlPlatform} {C : Type 0} (psl : PublicSuffixList) (max_bytes : ℕ) where
  -- A POST carries the session's authorization, and wherever the server redirects it, it visits only
  -- the site that the session came from.
  pub data OnSite (s : JmapSession p) : Delivery p C → Type 0 where
    no_post :
        {done : C} {error : Error} {responses : List Response} {message : Message}
        → OnSite s (called done error responses message)
    on_site :
        {url : p.Url} {authorization : Bytes} {body : JsonFields}
        → authorization ≡ s.authorization
        → ((targets : List p.Url)
            → All (λ u. same_site p psl u s.content.origin ≡ true) (visits p psl s url targets))
        → OnSite s (posted url authorization body)

  to_site :
      (s : JmapSession p) (d : Delivery p C) → Reach p psl max_bytes s → ToApi s d → OnSite s d
  to_site s _ h call = no_post
  to_site s _ h (api v u a) =
      let c = Reach-Pinned p psl max_bytes s h v in
      on_site a (λ targets. visits-same_site p psl s _ targets (
        subst (λ (x : p.Url). same_site p psl x s.content.origin ≡ true) (sym u)
          (seen c.api c.usable.1)))
    where
      seen :
          (p.is_empty_url s.content.api_url ≡ true)
            ⊎ (same_site p psl s.content.api_url s.content.origin ≡ true)
          → p.is_empty_url s.content.api_url ≡ false
          → same_site p psl s.content.api_url s.content.origin ≡ true
      seen (inl e) n = ground arith
      seen (inr e) n = e

  pub record Safe (t : Turn p C) : Type 0 where
    pub reachable : Reach p psl max_bytes t.session
    pub sites : All (OnSite t.session) t.deliveries

  Keeps-Safe : (s : JmapSession p) (t : Turn p C) → Reach p psl max_bytes s → Keeps C s t → Safe t
  Keeps-Safe s t h k =
      let reach = subst (Reach p psl max_bytes) (sym k.same) h in
      record {
        reachable = reach;
        sites =
            all t.deliveries
              (subst (λ (x : JmapSession p). All (ToApi x) t.deliveries) (sym k.same) k.goes) reach;
      }
    where
      all :
          (ds : List (Delivery p C))
          → All (ToApi t.session) ds
          → Reach p psl max_bytes t.session
          → All (OnSite t.session) ds
      all [] h r = tt
      all (d ∷ ds) (g, h) r = (to_site t.session d r g, all ds h r)

  pub send_batch-Safe :
      (done : C) (s : JmapSession p) (r : JmapRequest C)
      → Reach p psl max_bytes s
      → Safe (send_batch done s r)
  send_batch-Safe done s r h = Keeps-Safe s _ h (send_batch-Keeps C done s r)

  answer_session-Safe :
      (reply : NetworkReply p) (s : JmapSession p) (r : JmapRequest C)
      → Reach p psl max_bytes s
      → Safe (answer_session psl max_bytes reply s r)
  unfolding answer_session
  answer_session-Safe reply s r h =
      Keeps-Safe (handle_reply p psl max_bytes reply s).0 _ (answered reply h)
        ((handle_reply-Heard C psl max_bytes reply s).keeps r)

  answer_post-Safe :
      (reply : NetworkReply p) (o : Option Bool) (s : JmapSession p) (r : JmapRequest C)
      → Reach p psl max_bytes s
      → Safe (answer_post reply o s r)
  unfolding answer_post handle_response renew
  answer_post-Safe reply none s r h = Keeps-Safe s _ h (nothing-Keeps C s r)
  answer_post-Safe reply (some is_retry) s r h =
      Safe-if (reply.status == 401 && not is_retry) _ _
        (Keeps-Safe (refresh p s).0 _ (refreshed h) ((refresh-Heard C s).keeps _))
        (Keeps-Safe s _ h (judge_response-Keeps C reply s (record r { in_flight = none })))
    where
      Safe-if : (b : Bool) (x y : Turn p C) → Safe x → Safe y → Safe (if b then x else y)
      Safe-if true x y h k = h
      Safe-if false x y h k = k

  -- From a session that operations and replies have led to since it was made, any reply, to the request
  -- or to the session, leads to such a session again, and whatever the request then posts carries the
  -- session's authorization and visits only the site that the session came from, wherever the server
  -- redirects it.
  pub take_answer-Safe :
      (answer : Answer p) (s : JmapSession p) (r : JmapRequest C)
      → Reach p psl max_bytes s
      → Safe (take_answer psl max_bytes answer s r)
  unfolding take_answer
  take_answer-Safe (to_request reply) s r h = answer_post-Safe reply r.in_flight s r h
  take_answer-Safe (to_session reply) s r h = answer_session-Safe reply s r h
