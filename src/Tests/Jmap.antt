-- ===== src/Tests/Jmap.antt =====
-- Runs of a JMAP session and of its requests. An address is its host, and two documents are known.
use mailove.Common.{
  ℕ, false, not, ◌≡◌, refl, ap, Option, none, some, List, [], ◌∷◌, ◌++◌, Bytes, pos, codes, equal,
  is_empty, starts_with, to_lower, trimmed, length, if◌then◌else◌, arith, ◌≤◌,
}
use mailove.PublicSuffix.{empty_list}
use mailove.Jmap.{
  Json, text, array, object, nil, cons, JsonFields, end, field, value_of, to_text, UrlPlatform,
}
use mailove.Jmap.Ingest.{mail_capability}
use mailove.Jmap.Discovery.{
  Credentials, NetworkReply, JmapSession, discover, handle_reply, no_content,
}
use mailove.Jmap.Templates.{Variable, template_string, expand_template}
use mailove.Jmap.Request.{Batch, new_batch, add_call, parse_response}
use mailove.Jmap.Sending.{JmapRequest, Turn, send_batch, cancel_request, and_then, answer_session}
use mailove.Jmap.Pinned.{Reach, made, discovered, answered, Pinned, Reach-Pinned}
use mailove.Jmap.Posts.{Safe, take_answer-Safe}
use mailove.Jmap.Expanded.{Part, literal, named, no_brace, fill, print_parts, expand_template-parts}
use mailove.Jmap.Batches.{Read, parse_response-Read}
use mailove.Jmap.Numbered.{Built, fresh, adds, DistinctIds, Within, Built-distinct}
use mailove.Jmap.Once.{pending, send_batch-run, send_batch-run_awaited}
use mailove.Jmap.Once.Phases.{callbacks, posts}
use mailove.Jmap.Once.Answers.{to_request, to_session, take_answer, run, run_awaited}

abbrev session_document : Json
session_document = object (
    field (codes "apiUrl") (text (codes "api.x.org")) (
      field (codes "accounts")
        (object (
          field (codes "u1")
            (object (
              field (codes "accountCapabilities") (object (field mail_capability (object end) end))
                end))
            end))
        end))

abbrev triple : Json
triple = array (cons (text (codes "Mailbox/get")) (cons (object end) (cons (text (codes "c")) nil)))

abbrev response_fields : JsonFields
response_fields = field (codes "methodResponses") (array (cons triple nil)) end

unfoldable known_document : Bytes → Option Json
unfolding equal
known_document b =
    if equal b (codes "session")
    then some session_document
    else if equal b (codes "response")
    then some (object response_fields)
    else none

abbrev hosts : UrlPlatform
hosts = record {
  Url = Bytes;
  no_url = [];
  is_valid = λ u. not (is_empty u);
  is_empty_url = is_empty;
  is_relative = λ u. false;
  parse_tolerant = λ b. b;
  parse_strict = λ b. b;
  resolved = λ base u. u;
  scheme = λ u. codes "https";
  host = λ u. u;
  path = λ u. [];
  port = λ u n. pos n;
  set_path = λ path u. u;
  fully_encoded = λ u. u;
  percent_encode = λ b. b;
  equal_caseless = equal;
  starts_with_caseless = starts_with;
  replace_caseless = λ before after b. b;
  lower_text = to_lower;
  trim_text = trimmed;
  to_utf8 = λ b. b;
  to_base64 = λ b. b;
  print_number = λ n. n ∷ [];
  parse_json = known_document;
}

abbrev me : Credentials
me = record { host = codes "x.org"; user = codes "a"; password = []; access_token = codes "t" }

abbrev unused : JmapSession hosts
unused = record {
  authorization = [];
  credentials = me;
  have_credentials = false;
  is_waiting = false;
  valid = false;
  content = no_content hosts;
}

abbrev reply : ℕ → Bytes → NetworkReply hosts
reply status body = record { status = status; has_error = false; body = body; url = codes "x.org" }

-- The session object came from x.org, and names api.x.org.
abbrev found : JmapSession hosts
found =
    (handle_reply hosts empty_list 100 (reply 200 (codes "session")) (discover hosts me unused).0).0

found-Reach : Reach hosts empty_list 100 found
found-Reach = answered (reply 200 (codes "session")) (discovered me (made refl))

Reach-Pinned_example : Pinned hosts empty_list found.content
unfolding handle_reply discover trimmed starts_with known_document to_lower
Reach-Pinned_example = Reach-Pinned hosts empty_list 100 found found-Reach refl

abbrev two_calls : Batch
two_calls =
    (add_call hosts.print_number (some (pos 2)) (codes "Email/get") end
      (add_call hosts.print_number (some (pos 2)) (codes "Email/query") end new_batch).0).0

abbrev idle : JmapRequest ℕ
idle = record { batch = two_calls; done = none; in_flight = none; listening = 0 }

abbrev expired : List (NetworkReply hosts)
expired = reply 401 [] ∷ reply 200 (codes "session") ∷ reply 200 (codes "response") ∷ []

-- The server says 401, and the request waits for the session.
abbrev renewing_turn : Turn hosts ℕ
renewing_turn =
    and_then (send_batch 7 found idle) (run empty_list 100 (to_request (reply 401 []) ∷ []))

take_answer-Safe_example : Safe empty_list 100 (
    take_answer empty_list 100
      (to_session (reply 200 (codes "session")))
      found
      renewing_turn.request)
take_answer-Safe_example =
    take_answer-Safe empty_list 100 (to_session (reply 200 (codes "session"))) found
      renewing_turn.request found-Reach

send_batch-run_example :
    let t =
      and_then (send_batch 7 found idle) (run empty_list 100 (to_request (reply 401 []) ∷ [])) in
    (callbacks t.deliveries ++ pending t.request.done ≡ 7 ∷ []) × (posts t.deliveries ≤ 2)
send_batch-run_example =
    send_batch-run empty_list 100 7 found idle (to_request (reply 401 []) ∷ []) refl refl

send_batch-run_awaited_example :
    let t = and_then (send_batch 7 found idle) (run_awaited empty_list 100 expired) in
    (callbacks t.deliveries ≡ 7 ∷ []) × (t.request.done ≡ none)
send_batch-run_awaited_example =
    send_batch-run_awaited empty_list 100 7 found idle expired refl refl (omega arith)

-- After a 401 the batch is posted again, with the session that was found again.
posted_twice :
    posts (and_then (send_batch 7 found idle) (run_awaited empty_list 100 expired)).deliveries ≡ 2
unfolding send_batch handle_reply discover run_awaited posts add_call trimmed starts_with
    known_document to_lower
posted_twice = refl

-- A request that is cancelled while the session is asked again is posted all the same.
cancelled_post :
    posts
      (answer_session empty_list 100
        (reply 200 (codes "session"))
        renewing_turn.session
        (cancel_request renewing_turn.request)).deliveries
    ≡ 1
unfolding send_batch handle_reply discover run posts add_call answer_session cancel_request trimmed
    starts_with known_document to_lower
cancelled_post = refl

two_calls-Built : Built hosts.print_number (some (pos 2)) two_calls
two_calls-Built = adds (codes "Email/get") end (adds (codes "Email/query") end fresh)

same_numbers : (m n : ℕ) → hosts.print_number m ≡ hosts.print_number n → m ≡ n
same_numbers m n = ap number_of
  where
    number_of : Bytes → ℕ
    number_of [] = 0
    number_of (k ∷ b) = k

Built-distinct_example :
    DistinctIds two_calls.calls × Within (some (pos 2)) (length two_calls.calls)
Built-distinct_example =
    Built-distinct hosts.print_number (some (pos 2)) same_numbers two_calls two_calls-Built

parse_response-Read_example :
    Read (cons triple nil) [] (parse_response (some (object response_fields)))
unfolding value_of to_text
parse_response-Read_example = parse_response-Read response_fields (cons triple nil) refl

abbrev blob : List Variable
blob = record { name = codes "id"; value = codes "{n}" } ∷ []

abbrev download : List Part
download =
    literal (codes "x.org/") ∷ named (codes "id") ∷ literal (codes "/") ∷ named (codes "n") ∷ []

expand_template-parts_example :
    expand_template hosts (codes "x.org/{id}/{n}") blob ≡ codes "x.org/{n}/"
unfolding fill print_parts template_string
expand_template-parts_example =
    expand_template-parts hosts (codes "x.org/{id}/{n}") blob download []
      (refl, (refl, (refl, (refl, tt)))) (no_brace refl) refl refl
