-- ===== src/Jmap/Templates.antt =====
-- The addresses that a session gives as templates (jmapsession.cpp): expandTemplate and its callers.
use mailove.Common.{
  ℕ, zero, suc, Option, none, some, List, [], ◌∷◌, ◌++◌, Bytes, codes, equal, is_empty, index_of,
  join, length, take, drop, if◌then◌else◌,
}
use mailove.Jmap.{UrlPlatform}
use mailove.Jmap.Session.{SessionData}

-- An entry of the variables; one that is not given is empty (QHash::value).
pub record Variable : Type 0 where
  pub name : Bytes
  pub value : Bytes

unfoldable pub value_of_name : Bytes → List Variable → Bytes
unfolding equal
value_of_name name [] = []
value_of_name name (v ∷ variables) =
    if equal v.name name then v.value else value_of_name name variables

unfoldable pub template_string : (p : UrlPlatform) → p.Url → Bytes
template_string p url =
    p.replace_caseless (codes "%7D") (codes "}")
      (p.replace_caseless (codes "%7B") (codes "{") (p.fully_encoded url))

unfoldable pub encoded_value : (Bytes → Bytes) → List Variable → Bytes → Bytes
unfolding is_empty value_of_name
encoded_value percent_encode variables name =
    let value = value_of_name name variables in if is_empty value then [] else percent_encode value

-- A round of the loop of expandTemplate, past the opening brace at `start`: `value` is the text for
-- a name, and `next` reads what follows the closing brace.
unfoldable pub fill_braces : (Bytes → Bytes) → (Bytes → Bytes) → Bytes → ℕ → Option ℕ → Bytes
fill_braces value next text start none = text
fill_braces value next text start (some n) =
    let inside = drop (suc start) text in
    take start text ++ (value (take n inside) ++ next (drop (suc n) inside))

unfoldable pub expand_from : (Bytes → Bytes) → (Bytes → Bytes) → Bytes → Option ℕ → Bytes
unfolding fill_braces index_of
expand_from value next text none = text
expand_from value next text (some start) =
    fill_braces value next text start (index_of b'}' (drop (suc start) text))

-- The loop of expandTemplate on the text from position i on; each round drops two bytes at least.
unfoldable pub expand_text : (Bytes → Bytes) → List Variable → ℕ → Bytes → Bytes
unfolding index_of encoded_value expand_from
expand_text percent_encode variables zero text = []
expand_text percent_encode variables (suc fuel) text =
    expand_from (encoded_value percent_encode variables) (expand_text percent_encode variables fuel)
      text (index_of b'{' text)

unfoldable pub expand_template : (p : UrlPlatform) → p.Url → List Variable → p.Url
unfolding template_string expand_text
expand_template p tpl variables =
    let text = template_string p tpl in
    if p.is_empty_url tpl
    then p.no_url
    else p.parse_strict (expand_text p.percent_encode variables (suc (length text)) text)

unfoldable pub download_url_for :
    (p : UrlPlatform) → SessionData p → Bytes → Bytes → Bytes → Bytes → p.Url
unfolding expand_template
download_url_for p s account blob type name = expand_template p s.download_url (
    record { name = codes "accountId"; value = account }
    ∷ record { name = codes "blobId"; value = blob }
    ∷ record { name = codes "type"; value = type }
    ∷ record { name = codes "name"; value = name }
    ∷ [])

unfoldable pub upload_url_for : (p : UrlPlatform) → SessionData p → Bytes → p.Url
unfolding expand_template
upload_url_for p s account =
    expand_template p s.upload_url (record { name = codes "accountId"; value = account } ∷ [])

unfoldable pub join_types : List Bytes → Bytes
unfolding join
join_types [] = codes "*"
join_types (t ∷ types) = join b',' (t ∷ types)

-- A negative number of seconds is 0 already: qMax(0, pingSeconds).
unfoldable pub event_source_url_for : (p : UrlPlatform) → SessionData p → List Bytes → ℕ → p.Url
unfolding expand_template join_types
event_source_url_for p s types ping_seconds = expand_template p s.event_source_url (
    record { name = codes "types"; value = join_types types }
    ∷ record { name = codes "closeafter"; value = codes "no" }
    ∷ record { name = codes "ping"; value = p.print_number ping_seconds }
    ∷ [])
