-- ===== src/SpamHeuristics/Header.antt =====
-- The rules of score on the names and addresses of a header, behind those on the sender: each is a
-- function from Score to Score, given the decoded value of From.
use mailove.Common.{
  ℕ, zero, suc, ◌+◌, ◌-◌, ◌/◌, Bool, true, false, not, ◌&&◌, ◌||◌, Option, none, some, List, [],
  ◌∷◌, Bytes, ℤ, pos, codes, equal, is_empty, starts_with, split, last_index_of, drop, ltb, ◌==◌,
  if◌then◌else◌,
}
use mailove.PublicSuffix.{PublicSuffixList}
use mailove.SpamHeuristics.{SpamPlatform, SpamConfig}
use mailove.SpamHeuristics.Fields.{Field, first_value}
use mailove.SpamHeuristics.Mailbox.{
  address_of, normalize_address, address_pattern, last_piece, organizational_domain_of,
}
use mailove.SpamHeuristics.Names.{brand_claimed_by, Brand, brand_owns, is_freemail, is_role_name}
use mailove.SpamHeuristics.Scoring.{Score, Context, hit, is_familiar_org}
use mailove.SpamHeuristics.Words.{
  TextPlatform, is_match, has_text, count_fields, has_confusable_word, has_confusable_label,
  has_invisible_inside_word, is_ip_literal,
}

-- if (b) hit(id, weight)
unfoldable pub hit_if : SpamConfig → Bool → Bytes → ℤ → Score → Score
unfolding hit
hit_if config b id weight out = if b then hit config id weight out else out

-- What score takes from the From field.
pub record Sender : Type 0 where
  pub from_value : Bytes
  pub from_addr : Bytes
  pub from_org : Bytes
  pub display_name : Bytes
  pub relayed : Bool

unfoldable pub shown_org : SpamPlatform → PublicSuffixList → Option (List Bytes) → Bytes
unfolding organizational_domain_of normalize_address
shown_org p suffixes none = []
shown_org p suffixes (some []) = []
shown_org p suffixes (some (shown ∷ texts)) =
    organizational_domain_of p suffixes (normalize_address p shown)

unfoldable pub score_display_name :
    SpamPlatform → TextPlatform → PublicSuffixList → SpamConfig → Sender → Score → Score
unfolding shown_org is_empty equal has_confusable_word
score_display_name p q suffixes config s out =
    let org = shown_org p suffixes (p.match_pattern false address_pattern s.display_name) in
    let has_names = not (is_empty s.display_name) && not (is_empty s.from_org) in
    hit_if config (has_names && has_confusable_word p q s.display_name)
      (codes "display-name-confusable") (pos 30)
      (hit_if config (has_names && not (is_empty org) && not (equal org s.from_org))
        (codes "display-name-address") (pos 30) out)

unfoldable pub claims_other : Option Brand → Bytes → Bool
unfolding brand_owns
claims_other none org = false
claims_other (some b) org = not (brand_owns b org)

unfoldable pub claims_any : Option Brand → Bool
claims_any none = false
claims_any (some b) = true

unfoldable pub score_brand :
    SpamPlatform → TextPlatform → SpamConfig → Context → Sender → Score → Score
unfolding claims_other claims_any is_empty is_familiar_org is_freemail is_role_name brand_claimed_by
    has_invisible_inside_word
score_brand p q config ctx s out =
    let claimed = brand_claimed_by p q s.display_name in
    let named = not (is_empty s.display_name) in
    hit_if config (has_invisible_inside_word q s.from_value) (codes "zero-width-obfuscation")
      (pos 25)
      (hit_if config
        (named
          && is_freemail s.from_org
          && not s.relayed
          && (is_role_name p s.display_name || claims_any claimed))
        (codes "freemail-brand-name") (pos 25)
        (hit_if config
          (named
            && not (is_empty s.from_org)
            && not (is_familiar_org config ctx)
            && not s.relayed
            && claims_other claimed s.from_org)
          (codes "brand-impersonation") (pos 30) out))

-- QString::remove of a character
unfoldable pub without_char : ℕ → Bytes → Bytes
without_char c [] = []
without_char c (x ∷ b) = let rest = without_char c b in if x == c then rest else x ∷ rest

unfoldable pub domain_of_from : SpamPlatform → Bytes → Bytes
unfolding without_char last_piece split equal
domain_of_from p from_value =
    let domain =
      p.lower_text (
        p.trim_text (without_char b'"' (without_char b'>' (last_piece (split b'@' from_value))))) in
    if equal domain (p.lower_text (p.trim_text from_value)) then [] else domain

unfoldable pub score_from_domain : SpamPlatform → TextPlatform → SpamConfig → Sender → Score → Score
unfolding domain_of_from is_empty has_confusable_label starts_with is_ip_literal
score_from_domain p q config s out =
    let domain = domain_of_from p s.from_value in
    let decoded = q.from_ace domain in
    let shown = if is_empty decoded then domain else decoded in
    let named = not (is_empty domain) in
    hit_if config (named && (starts_with (codes "[") domain || is_ip_literal p domain))
      (codes "from-ip-literal") (pos 25)
      (hit_if config (named && has_confusable_label p q shown) (codes "from-domain-confusable")
        (pos 30) out)

unfoldable pub score_reply_to :
    SpamPlatform → PublicSuffixList → SpamConfig → Context → List Field → Sender → Score → Score
unfolding first_value is_empty equal organizational_domain_of address_of is_freemail
score_reply_to p suffixes config ctx fields s out =
    let reply_to = first_value fields (codes "reply-to") in
    let org = organizational_domain_of p suffixes (address_of p reply_to) in
    let differs =
      not (is_empty reply_to)
      && not ctx.auth_passed
      && not (is_empty org)
      && not (is_empty s.from_org)
      && not (equal org s.from_org) in
    hit_if config (differs && is_freemail org && not (is_freemail s.from_org))
      (codes "freemail-reply-to") (pos 20)
      (hit_if config differs (codes "reply-to-mismatch") (pos 8) out)

unfoldable pub is_local_host : SpamPlatform → Bytes → Bool
unfolding equal starts_with is_ip_literal
is_local_host p host =
    equal host (codes "localhost") || starts_with (codes "localhost.") host || is_ip_literal p host

-- The position of the last '@' of a Message-ID that is not empty.
unfoldable pub score_id_host : SpamPlatform → SpamConfig → Bytes → Option ℕ → Score → Score
unfolding hit without_char is_local_host
score_id_host p config msgid none out = hit config (codes "msgid-malformed") (pos 15) out
score_id_host p config msgid (some zero) out = hit config (codes "msgid-malformed") (pos 15) out
score_id_host p config msgid (some (suc at)) out =
    let host =
      p.lower_text
        (p.trim_text (without_char b'"' (without_char b'>' (drop (suc (suc at)) msgid)))) in
    hit_if config (is_local_host p host) (codes "msgid-local") (pos 15) out

unfoldable pub score_message_id : SpamPlatform → SpamConfig → List Field → Score → Score
unfolding hit score_id_host first_value is_empty last_index_of
score_message_id p config fields out =
    let msgid = first_value fields (codes "message-id") in
    if is_empty msgid
    then hit config (codes "no-message-id") (pos 18) out
    else score_id_host p config msgid (last_index_of b'@' msgid) out

-- From the captured texts of fromRe
unfoldable pub is_unknown_host : SpamPlatform → Option (List Bytes) → Bool
unfolding equal is_ip_literal has_text
is_unknown_host p none = true
is_unknown_host p (some []) = true
is_unknown_host p (some (whole ∷ [])) = true
is_unknown_host p (some (whole ∷ name ∷ texts)) =
    let host = p.lower_text name in
    equal host (codes "unknown")
    || is_ip_literal p host
    || not (has_text (codes ".") host)
    || not (any_letter host)
  where
    any_letter : Bytes → Bool
    any_letter [] = false
    any_letter (c ∷ b) = p.is_letter c || any_letter b

unfoldable pub received_from_unknown_host : SpamPlatform → Bytes → Bool
unfolding is_match is_unknown_host
received_from_unknown_host p received =
    if is_match (p.match_pattern true (codes "\\bwith\\s+(?:UTF8)?[EL]?[SM]?MTPS?A\\b") received)
    then false
    else is_unknown_host p (p.match_pattern true (codes "\\bfrom\\s+([^\\s;]+)") received)

unfoldable pub score_relays : SpamPlatform → SpamConfig → List Field → Score → Score
unfolding hit count_fields received_from_unknown_host first_value
score_relays p config fields out =
    let received = count_fields fields (codes "received") in
    if received == 0
    then hit config (codes "no-received") (pos 20) out
    else if received == 1 && received_from_unknown_host p (first_value fields (codes "received"))
    then hit config (codes "single-hop-unknown") (pos 12) out
    else out

-- skewHours > 48
unfoldable pub is_skewed : Option ℕ → Option ℕ → Bool
is_skewed none actual = false
is_skewed (some claimed) none = false
is_skewed (some claimed) (some actual) = ltb 48 (((claimed - actual) + (actual - claimed)) / 3600)

unfoldable pub score_date : SpamPlatform → TextPlatform → SpamConfig → List Field → Score → Score
unfolding hit first_value is_empty is_skewed last_piece split
score_date p q config fields out =
    let value = first_value fields (codes "date") in
    let received = first_value fields (codes "received") in
    if is_empty value
    then hit config (codes "no-date") (pos 15) out
    else hit_if config
        (not (is_empty received)
          && is_skewed (q.date_seconds value)
              (q.date_seconds (p.trim_text (last_piece (split b';' received)))))
        (codes "date-skew") (pos 15) out
