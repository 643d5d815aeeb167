-- ===== src/Jmap/Batches.antt =====
-- The answers of a server to a batch are read in their order, or not at all (jmaprequest.cpp).
use mailove.Common.{
  ℕ, suc, ◌≡◌, ◌≢◌, refl, ap, ◌⊎◌, inl, inr, Option, none, some, List, [], ◌∷◌, Bytes, codes,
  length, arith,
}
use mailove.Jmap.{
  text, array, object, JsonItems, nil, cons, JsonFields, value_of, to_text, to_array, to_object,
}
use mailove.Jmap.Request.{
  Response, Parsed, no_triple, read_triple, read_responses, read_array, parsed, unreadable,
  parse_response,
}

-- How a server writes the responses: each an array of its three parts.
unfoldable pub write_responses : List Response → JsonItems
write_responses [] = nil
write_responses (r ∷ responses) =
    cons (array (cons (text r.method) (cons (object r.arguments) (cons (text r.call_id) nil))))
      (write_responses responses)

read-write_responses :
    (responses : List Response) → read_responses (write_responses responses) ≡ some responses
unfolding read_responses write_responses read_triple to_array to_text to_object
read-write_responses [] = refl
read-write_responses (r ∷ responses) = rw (read-write_responses responses) refl

-- The number of elements
unfoldable pub size : JsonItems → ℕ
size nil = 0
size (cons value items) = suc (size items)

unfoldable pub IsTriples : JsonItems → Type 0
unfolding to_array size
IsTriples nil = Unit
IsTriples (cons value items) = (size (to_array value) ≡ 3) × IsTriples items

-- Every element is an array of three and gives a response, or one is not and there is no response.
data Reading (items : JsonItems) : Option (List Response) → Type 0 where
  whole :
      {responses : List Response}
      → IsTriples items
      → length responses ≡ size items
      → Reading items (some responses)
  broken : ¬ IsTriples items → Reading items none

read_triple-size :
    (items : JsonItems)
    → ((size items ≡ 3) × ((r : Response) × (read_triple items ≡ some r)))
      ⊎ ((size items ≢ 3) × (read_triple items ≡ none))
unfolding read_triple size
read_triple-size nil = inr (omega arith, refl)
read_triple-size (cons a nil) = inr (omega arith, refl)
read_triple-size (cons a (cons b nil)) = inr (omega arith, refl)
read_triple-size (cons a (cons b (cons c nil))) = inl (refl, (_, refl))
read_triple-size (cons a (cons b (cons c (cons d items)))) = inr (omega arith, refl)

read_responses-Reading : (items : JsonItems) → Reading items (read_responses items)
unfolding read_responses IsTriples size
read_responses-Reading nil = whole tt refl
read_responses-Reading (cons value items) = elim (read_triple-size (to_array value)) [
  | inr (n, e) ↦ rw (read_responses, e) (broken (λ t. n t.0))
  | inl (n, (r, e)) ↦
      rw (read_responses, e) (add n r (read_responses items) (read_responses-Reading items))
]
  where
    add :
        size (to_array value) ≡ 3
        → (r : Response) (rest : Option (List Response)) → Reading items rest
        → Reading
            (cons value items)
            (elim rest [ none ↦ none | some responses ↦ some (r ∷ responses) ])
    add n r _ (whole t l) = whole (n, t) (ap suc l)
    add n r _ (broken b) = broken (λ t. b t.1)

-- What is known of a document by its methodResponses: with triples only, they are read as many as
-- they are; otherwise nothing is.
pub data Read (items : JsonItems) (state : Bytes) : Parsed → Type 0 where
  answers :
      (responses : List Response)
      → IsTriples items
      → length responses ≡ size items
      → Read items state (parsed responses state)
  no_answers : ¬ IsTriples items → Read items state (unreadable no_triple)

-- A document whose methodResponses are an array gives one response for each element and the state of
-- the session, if each element is an array of three; otherwise it is unreadable as a whole.
pub parse_response-Read :
    (root : JsonFields) (items : JsonItems)
    → value_of (codes "methodResponses") root ≡ array items
    → Read items
        (to_text (value_of (codes "sessionState") root))
        (parse_response (some (object root)))
unfolding parse_response read_array
parse_response-Read root items e = rw e (go (read_responses items) (read_responses-Reading items))
  where
    go :
        (o : Option (List Response))
        → Reading items o
        → Read items (to_text (value_of (codes "sessionState") root)) (elim o [
          | none ↦ unreadable no_triple
          | some responses ↦ parsed responses (to_text (value_of (codes "sessionState") root))
        ])
    go _ (whole t l) = answers _ t l
    go _ (broken b) = no_answers b

-- A document whose methodResponses are the responses that a server writes is read as these, in their
-- order, with the session's state.
pub parse_response-write_responses :
    (root : JsonFields) (responses : List Response)
    → value_of (codes "methodResponses") root ≡ array (write_responses responses)
    → parse_response (some (object root))
      ≡ parsed responses (to_text (value_of (codes "sessionState") root))
unfolding parse_response read_array
parse_response-write_responses root responses e =
    rw e (rw (read_array, read-write_responses responses) refl)
