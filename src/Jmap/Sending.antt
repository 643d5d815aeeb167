-- ===== src/Jmap/Sending.antt =====
-- A batch on its way (jmaprequest.cpp): send, post, cancel, handleReply and finish, with the session
-- that is asked again when it has expired.
use mailove.Common.{
  ℕ, zero, suc, Bool, true, false, not, ◌&&◌, ◌||◌, Option, none, some, List, [], ◌∷◌, ◌++◌, Bytes,
  length, ltb, ◌==◌, if◌then◌else◌,
}
use mailove.PublicSuffix.{PublicSuffixList}
use mailove.Jmap.{JsonFields, Error, no_error, auth, throttled, connection, protocol, UrlPlatform}
use mailove.Jmap.Discovery.{NetworkReply, JmapSession, Signal, ready, failed, refresh, handle_reply}
use mailove.Jmap.Request.{
  Response, Call, Batch, request_object, Message, silent, no_calls, no_session, session_failed,
  rejected, slower_pace, error_string, http_status, too_large, Parsed, parsed, unreadable,
  parse_response,
}

-- kMaxResponseBytes
abbrev pub max_response_bytes : ℕ
max_response_bytes = 67108864

-- The callback is a value of C. `in_flight` is m_reply with the flag isRetry that its handler keeps,
-- `listening` counts the handlers that wait for the session's ready or failed.
pub record JmapRequest (C : Type 0) : Type 0 where
  pub batch : Batch
  pub done : Option C
  pub in_flight : Option Bool
  pub listening : ℕ

-- What a request does: a POST with the Authorization header and a body, or a call of its callback.
pub data Delivery (p : UrlPlatform) (C : Type 0) : Type 0 where
  posted : p.Url → Bytes → JsonFields → Delivery p C
  called : C → Error → List Response → Message → Delivery p C

-- The request and its session after an event, and what was done.
pub record Turn (p : UrlPlatform) (C : Type 0) : Type 0 where
  pub request : JmapRequest C
  pub session : JmapSession p
  pub deliveries : List (Delivery p C)

unfoldable pub call_back :
    {p : UrlPlatform} {C : Type 0}
    → Option C
    → Error
    → List Response
    → Message
    → List (Delivery p C)
call_back none error responses message = []
call_back (some done) error responses message = called done error responses message ∷ []

unfoldable pub finish :
    {p : UrlPlatform} {C : Type 0}
    → Error
    → List Response
    → Message
    → JmapSession p
    → JmapRequest C
    → Turn p C
unfolding call_back
finish error responses message s r = record {
  request = record r { done = none };
  session = s;
  deliveries = call_back r.done error responses message;
}

unfoldable pub post :
    {p : UrlPlatform} {C : Type 0} → Bool → JmapSession p → JmapRequest C → Turn p C
unfolding request_object
post is_retry s r = record {
  request = record r { in_flight = some is_retry };
  session = s;
  deliveries = posted s.content.api_url s.authorization (request_object r.batch) ∷ [];
}

unfoldable pub has_calls : List Call → Bool
has_calls [] = false
has_calls (c ∷ calls) = true

unfoldable pub send_batch :
    {p : UrlPlatform} {C : Type 0} → C → JmapSession p → JmapRequest C → Turn p C
unfolding finish post has_calls
send_batch done s before =
    let r = record before { done = some done } in
    if not (has_calls r.batch.calls)
    then finish protocol [] no_calls s r
    else if not s.valid
    then finish auth [] no_session s r
    else post false s r

-- The handlers that listen stay connected.
unfoldable pub cancel_request : {C : Type 0} → JmapRequest C → JmapRequest C
cancel_request r = record r { done = none; in_flight = none }

-- Turns one after the other.
unfoldable pub and_then :
    {p : UrlPlatform} {C : Type 0}
    → Turn p C
    → (JmapSession p → JmapRequest C → Turn p C)
    → Turn p C
and_then t f =
    let next = f t.session t.request in record next { deliveries = t.deliveries ++ next.deliveries }

unfoldable pub nothing : {p : UrlPlatform} {C : Type 0} → JmapSession p → JmapRequest C → Turn p C
nothing s r = record { request = r; session = s; deliveries = [] }

-- The handlers of ready or of failed, after they have disconnected themselves.
unfoldable pub run_handlers :
    {p : UrlPlatform} {C : Type 0}
    → ℕ
    → (JmapSession p → JmapRequest C → Turn p C)
    → JmapSession p
    → JmapRequest C
    → Turn p C
unfolding and_then nothing
run_handlers zero handler s r = nothing s r
run_handlers (suc n) handler s r = and_then (handler s r) (run_handlers n handler)

unfoldable pub take_signal :
    {p : UrlPlatform} {C : Type 0} → Signal → JmapSession p → JmapRequest C → Turn p C
unfolding run_handlers post finish
take_signal ready s r = run_handlers r.listening (post true) s (record r { listening = 0 })
take_signal (failed error) s r =
    run_handlers r.listening (finish error [] session_failed) s (record r { listening = 0 })

unfoldable pub take_signals :
    {p : UrlPlatform} {C : Type 0} → List Signal → JmapSession p → JmapRequest C → Turn p C
unfolding take_signal and_then nothing
take_signals [] s r = nothing s r
take_signals (signal ∷ signals) s r = and_then (take_signal signal s r) (take_signals signals)

unfoldable pub finish_parsed :
    {p : UrlPlatform} {C : Type 0} → Parsed → JmapSession p → JmapRequest C → Turn p C
unfolding finish
finish_parsed (parsed responses state) s r = finish no_error responses silent s r
finish_parsed (unreadable message) s r = finish protocol [] message s r

-- handleReply past its first test
unfoldable pub judge_response :
    {p : UrlPlatform} {C : Type 0} → NetworkReply p → JmapSession p → JmapRequest C → Turn p C
unfolding finish finish_parsed parse_response
judge_response {p} reply s r =
    if reply.status == 401 || reply.status == 403
    then finish auth [] rejected s r
    else if reply.status == 429 || reply.status == 503
    then finish throttled [] slower_pace s r
    else if reply.has_error && ltb reply.status 400
    then finish connection [] error_string s r
    else if not (reply.status == 200)
    then finish protocol [] (http_status reply.status) s r
    else if ltb max_response_bytes (length reply.body)
    then finish protocol [] too_large s r
    else finish_parsed (parse_response (p.parse_json reply.body)) s r

-- The session is asked again; it fails at once where it has no credentials or no address.
unfoldable pub renew : {p : UrlPlatform} {C : Type 0} → JmapSession p → JmapRequest C → Turn p C
unfolding refresh take_signals
renew {p} s r =
    let (after, signals) = refresh p s in
    take_signals signals after (record r { listening = suc r.listening })

unfoldable pub handle_response :
    {p : UrlPlatform} {C : Type 0}
    → NetworkReply p
    → Bool
    → JmapSession p
    → JmapRequest C
    → Turn p C
unfolding renew judge_response
handle_response reply is_retry s r =
    if reply.status == 401 && not is_retry then renew s r else judge_response reply s r

-- The end of the reply to a POST
unfoldable pub answer_post :
    {p : UrlPlatform} {C : Type 0}
    → NetworkReply p
    → Option Bool
    → JmapSession p
    → JmapRequest C
    → Turn p C
unfolding handle_response nothing
answer_post reply none s r = nothing s r
answer_post reply (some is_retry) s r =
    handle_response reply is_retry s (record r { in_flight = none })

-- The end of the session's own reply, which the request hears of
unfoldable pub answer_session :
    {p : UrlPlatform} {C : Type 0}
    → PublicSuffixList
    → ℕ
    → NetworkReply p
    → JmapSession p
    → JmapRequest C
    → Turn p C
unfolding handle_reply take_signals
answer_session {p} psl max_bytes reply s r =
    let (after, signals) = handle_reply p psl max_bytes reply s in take_signals signals after r
