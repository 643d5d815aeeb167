-- ===== src/Jmap/Posts/Api.antt =====
-- What a request posts goes to the API address of a valid session.
use mailove.Common.{
  ℕ, zero, suc, Bool, true, false, not, ◌≡◌, refl, sym, subst, Option, none, some, List, [], ◌∷◌,
  ◌++◌, Bytes, All, if◌then◌else◌,
}
use mailove.PublicSuffix.{PublicSuffixList}
use mailove.Jmap.{JsonFields, Error, auth, protocol, UrlPlatform}
use mailove.Jmap.Session.{Ingested, accepted, refused}
use mailove.Jmap.Ingest.{ingest_json}
use mailove.Jmap.Discovery.{
  NetworkReply, JmapSession, Signal, ready, failed, discover, refresh, take_ingested, judge_reply,
  handle_reply,
}
use mailove.Jmap.Request.{
  Response, Message, session_failed, no_session, no_calls, Parsed, parsed, unreadable,
  parse_response,
}
use mailove.Jmap.Sending.{
  JmapRequest, Delivery, posted, called, Turn, call_back, finish, post, has_calls, send_batch,
  and_then, nothing, run_handlers, take_signal, take_signals, finish_parsed, judge_response,
}

-- A POST that is made goes to the API address of a valid session, with its authorization.
pub data ToApi {p : UrlPlatform} {C : Type 0} (s : JmapSession p) : Delivery p C → Type 0 where
  call :
      {done : C} {error : Error} {responses : List Response} {message : Message}
      → ToApi s (called done error responses message)
  api :
      {url : p.Url} {authorization : Bytes} {body : JsonFields}
      → s.valid ≡ true
      → url ≡ s.content.api_url
      → authorization ≡ s.authorization
      → ToApi s (posted url authorization body)

module _ {p : UrlPlatform} (C : Type 0) where
  -- A turn that leaves the session as it is, with POSTs to its API address only
  pub record Keeps (s : JmapSession p) (t : Turn p C) : Type 0 where
    pub same : t.session ≡ s
    pub goes : All (ToApi s) t.deliveries

  Keeps-if :
      {s : JmapSession p} (b : Bool) (x y : Turn p C)
      → Keeps s x
      → Keeps s y
      → Keeps s (if b then x else y)
  Keeps-if true x y h k = h
  Keeps-if false x y h k = k

  All-append :
      (s : JmapSession p) (ds es : List (Delivery p C))
      → All (ToApi s) ds
      → All (ToApi s) es
      → All (ToApi s) (ds ++ es)
  All-append s [] es h k = k
  All-append s (d ∷ ds) es (g, h) k = (g, All-append s ds es h k)

  and_then-Keeps :
      (s : JmapSession p) (t : Turn p C) (f : JmapSession p → JmapRequest C → Turn p C)
      → Keeps s t
      → ((r : JmapRequest C) → Keeps s (f s r))
      → Keeps s (and_then t f)
  unfolding and_then
  and_then-Keeps s t f h k =
      let n = subst (λ (x : JmapSession p). Keeps s (f x t.request)) (sym h.same) (k t.request) in
      record { same = n.same; goes = All-append s t.deliveries _ h.goes n.goes }

  pub nothing-Keeps : (s : JmapSession p) (r : JmapRequest C) → Keeps s (nothing s r)
  unfolding nothing
  nothing-Keeps s r = record { same = refl; goes = tt }

  finish-Keeps :
      (error : Error) (responses : List Response) (message : Message) (s : JmapSession p)
      (r : JmapRequest C)
      → Keeps s (finish error responses message s r)
  unfolding finish call_back
  finish-Keeps error responses message s r = record { same = refl; goes = calls r.done }
    where
      calls : (o : Option C) → All (ToApi s) (call_back o error responses message)
      calls none = tt
      calls (some done) = (call, tt)

  post-Keeps :
      (is_retry : Bool) (s : JmapSession p) (r : JmapRequest C)
      → s.valid ≡ true
      → Keeps s (post is_retry s r)
  unfolding post
  post-Keeps is_retry s r v = record { same = refl; goes = (api v refl refl, tt) }

  run_handlers-Keeps :
      (n : ℕ) (handler : JmapSession p → JmapRequest C → Turn p C) (s : JmapSession p)
      (r : JmapRequest C)
      → ((q : JmapRequest C) → Keeps s (handler s q))
      → Keeps s (run_handlers n handler s r)
  unfolding run_handlers
  run_handlers-Keeps zero handler s r h = nothing-Keeps s r
  run_handlers-Keeps (suc n) handler s r h =
      and_then-Keeps s (handler s r) (run_handlers n handler) (h r)
        (λ q. run_handlers-Keeps n handler s q h)

  -- Whatever request hears what the session says
  pub record Heard (x : JmapSession p × List Signal) : Type 0 where
    pub keeps : (r : JmapRequest C) → Keeps x.0 (take_signals x.1 x.0 r)

  Heard-if :
      (b : Bool) (x y : JmapSession p × List Signal)
      → Heard x
      → Heard y
      → Heard (if b then x else y)
  Heard-if true x y h k = h
  Heard-if false x y h k = k

  silent-Heard : (s : JmapSession p) → Heard (s, [])
  unfolding take_signals
  silent-Heard s = record { keeps = nothing-Keeps s }

  failed-Heard : (error : Error) (s : JmapSession p) → Heard (s, failed error ∷ [])
  unfolding take_signals take_signal
  failed-Heard error s = record {
    keeps = λ r.
        and_then-Keeps s _ (take_signals [])
          (run_handlers-Keeps r.listening _ s _ (finish-Keeps error [] session_failed s))
          (nothing-Keeps s);
  }

  ready-Heard : (s : JmapSession p) → s.valid ≡ true → Heard (s, ready ∷ [])
  unfolding take_signals take_signal
  ready-Heard s v = record {
    keeps = λ r.
        and_then-Keeps s _ (take_signals [])
          (run_handlers-Keeps r.listening _ s _ (λ q. post-Keeps true s q v)) (nothing-Keeps s);
  }

  pub refresh-Heard : (s : JmapSession p) → Heard (refresh p s)
  unfolding refresh discover
  refresh-Heard s = search (Heard-if, failed-Heard, silent-Heard) depth 9

  judge_reply-Heard :
      (psl : PublicSuffixList) (max_bytes : ℕ) (reply : NetworkReply p) (s : JmapSession p)
      → Heard (judge_reply p psl max_bytes reply s)
  unfolding judge_reply take_ingested
  judge_reply-Heard psl max_bytes reply s =
      let last = taken (ingest_json p psl (p.parse_json reply.body) reply.url) in
      search (Heard-if, failed-Heard) depth 9
    where
      taken : (i : Ingested p) → Heard (take_ingested i s)
      taken (accepted c) = ready-Heard _ refl
      taken (refused x) = failed-Heard protocol s

  pub handle_reply-Heard :
      (psl : PublicSuffixList) (max_bytes : ℕ) (reply : NetworkReply p) (s : JmapSession p)
      → Heard (handle_reply p psl max_bytes reply s)
  unfolding handle_reply
  handle_reply-Heard psl max_bytes reply s =
      Heard-if s.is_waiting _ _
        (judge_reply-Heard psl max_bytes reply (record s { is_waiting = false })) (silent-Heard s)

  pub send_batch-Keeps :
      (done : C) (s : JmapSession p) (r : JmapRequest C) → Keeps s (send_batch done s r)
  unfolding send_batch
  send_batch-Keeps done s r =
      Keeps-if (not (has_calls r.batch.calls)) _ _
        (finish-Keeps protocol [] no_calls s (record r { done = some done })) (guarded s.valid refl)
    where
      guarded :
          (v : Bool)
          → s.valid ≡ v
          → Keeps s (
              if not v
              then finish auth [] no_session s (record r { done = some done })
              else post false s (record r { done = some done }))
      guarded true v = post-Keeps false s (record r { done = some done }) v
      guarded false v = finish-Keeps _ _ _ s (record r { done = some done })

  pub judge_response-Keeps :
      (reply : NetworkReply p) (s : JmapSession p) (r : JmapRequest C)
      → Keeps s (judge_response reply s r)
  unfolding judge_response finish_parsed
  judge_response-Keeps reply s r =
      let last = read (parse_response (p.parse_json reply.body)) in
      search (Keeps-if, finish-Keeps) depth 9
    where
      read : (q : Parsed) → Keeps s (finish_parsed q s r)
      read (parsed responses state) = finish-Keeps _ _ _ s r
      read (unreadable message) = finish-Keeps _ _ _ s r
