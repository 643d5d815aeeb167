-- ===== src/Dkim/Verify.antt =====
-- The verdict on a message (DkimVerifier::verify). The one call of `finished` is the result.
pub mod Signed
pub mod Vouched
pub mod Sound
use mailove.Common.{
  ℕ, suc, ◌+◌, Bool, true, false, not, ◌&&◌, ◌||◌, List, [], ◌∷◌, ◌++◌, Option, none, some,
  if◌then◌else◌, Bytes, codes, crlf, is_empty, equal, starts_with, take, drop, to_lower,
}
use mailove.PublicSuffix.{PublicSuffixList}
use mailove.Dkim.Platform.{Platform}
use mailove.Dkim.Tags.{TagList, parse_tag_list, tag_value, strip_wsp}
use mailove.Dkim.Fields.{Field, split_fields}
use mailove.Dkim.Results.{
  DkimResult, DkimStatus, no_result, is_pass, more_informative, Detail, no_separator,
  missing_domain, no_dns, no_key_published, revoked, unusable_key, does_not_match, signed_by,
  signed_by_other, is_nothing,
}
use mailove.Dkim.Align.{domains_aligned}
use mailove.Dkim.Keys.{World, KeyReply, public_key_record, load_public_key, verify_signature}
use mailove.Dkim.Prepare.{Signature, Prepared, refused, prepared, prepare}
use mailove.Dkim.Arc.{KeyState, key_type_of, dns_name_of, read_signature, verify_arc_chain}

-- indexOf("\r\n\r\n")
unfoldable pub find_body : Bytes → Option ℕ
unfolding starts_with
find_body [] = none
find_body (c ∷ cs) =
    let rest = find_body cs in
    if starts_with (13 ∷ 10 ∷ 13 ∷ 10 ∷ []) (c ∷ cs)
    then some 0
    else elim rest [ none ↦ none | some i ↦ some (suc i) ]

unfoldable pub collect_signatures : List Field → List Signature
unfolding equal to_lower read_signature
collect_signatures [] = []
collect_signatures (f ∷ fields) =
    let rest = collect_signatures fields in
    if equal (to_lower f.name) (codes "dkim-signature") then read_signature f ∷ rest else rest

abbrev with_status : DkimResult → DkimStatus → Detail → DkimResult
with_status r s d = record r { status = s; detail = d }

-- The detail of a pass, unless prepare left one.
abbrev pass_detail : DkimResult → Bytes → Detail
pass_detail r from_domain =
    if is_nothing r.detail
    then (if r.aligned then signed_by r.domain else signed_by_other r.domain from_domain)
    else r.detail

-- best and haveBest: keep()
unfoldable pub keep : DkimResult → Option DkimResult → Option DkimResult
keep r none = some r
keep r (some best) = if more_informative r best then some r else some best

module _ (p : Platform) (w : World) (psl : PublicSuffixList) (from_domain : Bytes) where
  open p use {from_base64, lower_text}

  abbrev start_result : Signature → DkimResult
  start_result sig = record no_result {
    domain = lower_text (tag_value sig.tags (codes "d"));
    selector = tag_value sig.tags (codes "s");
    aligned =
        domains_aligned lower_text psl (lower_text (tag_value sig.tags (codes "d"))) from_domain;
  }

  -- The signature against a key record that was found.
  unfoldable pub check_key : Signature → Bytes → DkimResult → Bytes → DkimResult
  check_key sig signed r key_record =
      let key_tags = parse_tag_list key_record in
      let key_type = key_type_of key_tags in
      let key_data = strip_wsp (tag_value key_tags (codes "p")) in
      if is_empty key_data
      then with_status r DkimStatus.perm_error revoked
      else elim (load_public_key p (from_base64 key_data) key_type) [
        | none ↦ with_status r DkimStatus.perm_error unusable_key
        | some key ↦
            if verify_signature p key key_type signed
              (from_base64 (strip_wsp (tag_value sig.tags (codes "b"))))
            then with_status r DkimStatus.pass (pass_detail r from_domain)
            else with_status r DkimStatus.fail does_not_match
      ]

  -- The signature behind prepare: the key is fetched.
  unfoldable pub check_prepared : Signature → Bytes → DkimResult → KeyState → KeyState × DkimResult
  check_prepared sig signed r st =
      let k = public_key_record w st.verifier (dns_name_of r.selector r.domain) st.cache in
      let after : KeyState = record { verifier = k.verifier; cache = k.cache } in
      if is_empty k.key_record
      then (
        after,
        if k.temp_error
            then with_status r DkimStatus.temp_error no_dns
            else with_status r DkimStatus.perm_error (no_key_published r.selector),
      )
      else (after, check_key sig signed r k.key_record)

  -- One round of the loop over the signatures, up to the call of keep() or finished().
  unfoldable pub check_signature : Bytes → Bytes → Signature → KeyState → KeyState × DkimResult
  check_signature head body sig st =
      let r = start_result sig in
      if is_empty r.domain || is_empty r.selector
      then (st, with_status r DkimStatus.perm_error missing_domain)
      else elim (prepare p head body sig r) [
        | refused out ↦ (st, out)
        | prepared signed out ↦ check_prepared sig signed out st
      ]

  -- An aligned pass ends the loop; anything else goes to keep().
  abbrev wins : DkimResult → Bool
  wins r = is_pass r.status && r.aligned

  abbrev or_empty : Option DkimResult → DkimResult
  or_empty none = no_result
  or_empty (some r) = r

  unfoldable pub try_signatures :
      Bytes → Bytes → List Signature → Option DkimResult → KeyState → KeyState × DkimResult
  try_signatures head body [] best st =
      let (after, arc) = verify_arc_chain p w head body st in
      (after, record (or_empty best) { arc = arc })
  try_signatures head body (sig ∷ sigs) best st =
      let (after, r) = check_signature head body sig st in
      let rest = try_signatures head body sigs (keep r best) after in
      if wins r then (after, r) else rest

  unfoldable pub verify_parts : Bytes → Bytes → KeyState → KeyState × DkimResult
  verify_parts head body st =
      try_signatures head body (collect_signatures (split_fields head)) none st

  -- Both branches on an empty list of signatures give the verdict None with the ARC chain.
  unfoldable pub verify : Bytes → KeyState → KeyState × DkimResult
  verify raw_message_crlf st = elim (find_body raw_message_crlf) [
    | none ↦ (st, with_status no_result DkimStatus.perm_error no_separator)
    | some split ↦
        verify_parts (take (suc (suc split)) raw_message_crlf)
          (drop (suc (suc (suc (suc split)))) raw_message_crlf) st
  ]
