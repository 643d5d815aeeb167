-- ===== src/Jmap/Request.antt =====
-- A batch of method calls (jmaprequest.cpp): how it is built, sent and answered.
use mailove.Common.{
  ℕ, suc, Bool, false, not, ◌&&◌, ◌||◌, Option, none, some, List, [], ◌∷◌, ◌++◌, Bytes, ℤ, pos,
  negsuc, codes, equal, is_empty, contains, length, ltb, leb, if◌then◌else◌,
}
use mailove.Jmap.{
  Json, null, boolean, number, text, array, object, JsonItems, nil, cons, JsonFields, end, field,
  value_of, to_text, to_object, to_array, Error, auth, throttled, protocol, not_found,
}
use mailove.Jmap.Ingest.{core_capability, mail_capability}

pub record Response : Type 0 where
  pub method : Bytes
  pub arguments : JsonFields
  pub call_id : Bytes

unfoldable pub is_error : Response → Bool
unfolding equal
is_error r = equal r.method (codes "error")

unfoldable pub error_type : Response → Bytes
unfolding is_error to_text value_of
error_type r = if not (is_error r) then [] else to_text (value_of (codes "type") r.arguments)

abbrev pub no_response : Response
no_response = record { method = []; arguments = end; call_id = [] }

unfoldable pub first_error : List Response → Response
unfolding is_error
first_error [] = no_response
first_error (r ∷ responses) = if is_error r then r else first_error responses

unfoldable pub error_for_type : Bytes → Error
unfolding equal
error_for_type type =
    if equal type (codes "rateLimit")
    then throttled
    else if equal type (codes "serverUnavailable")
    then throttled
    else if equal type (codes "forbidden") || equal type (codes "accountReadOnly")
    then auth
    else if equal type (codes "accountNotFound") || equal type (codes "notFound")
    then not_found
    else protocol

-- A method call, [name, arguments, callId] in m_calls.
pub record Call : Type 0 where
  pub name : Bytes
  pub call_arguments : JsonFields
  pub id : Bytes

-- What is being built: m_calls, m_capabilities and m_nextCallId.
pub record Batch : Type 0 where
  pub calls : List Call
  pub used : List Bytes
  pub next_call_id : ℕ

-- the constructor
abbrev pub new_batch : Batch
new_batch = record { calls = []; used = core_capability ∷ mail_capability ∷ []; next_call_id = 0 }

unfoldable pub use_capability : Bytes → Batch → Batch
unfolding is_empty contains
use_capability uri b =
    if not (is_empty uri) && not (contains uri b.used)
    then record b { used = b.used ++ (uri ∷ []) }
    else b

-- limit > 0 && m_calls.size() >= limit
unfoldable pub reaches : ℤ → ℕ → Bool
reaches (pos n) size = ltb 0 n && leb n size
reaches (negsuc n) size = false

-- A limit is given where there is a session.
unfoldable pub is_full : Option ℤ → Batch → Bool
unfolding reaches
is_full none b = false
is_full (some limit) b = reaches limit (length b.calls)

-- The id is empty if the call was refused.
unfoldable pub add_call : (ℕ → Bytes) → Option ℤ → Bytes → JsonFields → Batch → Batch × Bytes
unfolding is_full
add_call print_number limit method arguments b =
    let id = b'c' ∷ print_number b.next_call_id in
    if is_full limit b then (b, []) else (
      record b {
        calls = b.calls ++ (record { name = method; call_arguments = arguments; id = id } ∷ []);
        next_call_id = suc b.next_call_id;
      },
      id,
    )

-- The fields of a QJsonObject are in the order of their names.
unfoldable pub result_reference : Bytes → Bytes → Bytes → JsonFields
result_reference id method path =
    field (codes "name") (text method)
      (field (codes "path") (text path) (field (codes "resultOf") (text id) end))

unfoldable pub call_items : List Call → JsonItems
call_items [] = nil
call_items (c ∷ calls) =
    cons (array (cons (text c.name) (cons (object c.call_arguments) (cons (text c.id) nil))))
      (call_items calls)

unfoldable pub text_items : List Bytes → JsonItems
text_items [] = nil
text_items (b ∷ texts) = cons (text b) (text_items texts)

unfoldable pub request_object : Batch → JsonFields
unfolding call_items text_items
request_object b =
    field (codes "methodCalls") (array (call_items b.calls))
      (field (codes "using") (array (text_items b.used)) end)

-- The texts that a request ends with.
pub data Message : Type 0 where
  silent : Message
  no_calls : Message
  no_session : Message
  session_failed : Message
  rejected : Message
  slower_pace : Message
  error_string : Message
  http_status : ℕ → Message
  too_large : Message
  bad_json : Message
  no_object : Message
  no_responses : Message
  no_triple : Message

-- What parseResponse makes of a document: the responses and the state of the session.
pub data Parsed : Type 0 where
  parsed : List Response → Bytes → Parsed
  unreadable : Message → Parsed

-- One element of methodResponses, as the array that it is.
unfoldable pub read_triple : JsonItems → Option Response
unfolding to_text to_object
read_triple nil = none
read_triple (cons a nil) = none
read_triple (cons a (cons b nil)) = none
read_triple (cons a (cons b (cons c nil))) =
    some record { method = to_text a; arguments = to_object b; call_id = to_text c }
read_triple (cons a (cons b (cons c (cons d items)))) = none

unfoldable pub read_responses : JsonItems → Option (List Response)
unfolding read_triple to_array
read_responses nil = some []
read_responses (cons value items) = elim (read_triple (to_array value)) [
  | none ↦ none
  | some r ↦ elim (read_responses items) [ none ↦ none | some responses ↦ some (r ∷ responses) ]
]

unfoldable pub read_array : Json → Bytes → Parsed
unfolding read_responses
read_array (array items) state = elim (read_responses items) [
  | none ↦ unreadable no_triple
  | some responses ↦ parsed responses state
]
read_array null state = unreadable no_responses
read_array (boolean b) state = unreadable no_responses
read_array (number n) state = unreadable no_responses
read_array (text b) state = unreadable no_responses
read_array (object fields) state = unreadable no_responses

unfoldable pub parse_response : Option Json → Parsed
unfolding read_array value_of to_text
parse_response none = unreadable bad_json
parse_response (some (object root)) =
    read_array (value_of (codes "methodResponses") root)
      (to_text (value_of (codes "sessionState") root))
parse_response (some null) = unreadable no_object
parse_response (some (boolean b)) = unreadable no_object
parse_response (some (number n)) = unreadable no_object
parse_response (some (text b)) = unreadable no_object
parse_response (some (array items)) = unreadable no_object
