-- ===== src/Dkim/Prepare.antt =====
-- What a signature covers, computed before any key is fetched (DkimVerifier::prepare).
pub mod Laws
pub mod Fields
use mailove.Common.{
  ℕ, zero, suc, ◌+◌, Bool, true, false, not, ◌&&◌, ◌||◌, List, [], ◌∷◌, ◌++◌, Option, none, some,
  ◌==◌, ltb, if◌then◌else◌, Bytes, ℤ, pos, negsuc, codes, crlf, is_empty, equal, length, take, chop,
  ends_with, to_lower, trimmed, split,
}
use mailove.Dkim.Platform.{Platform}
use mailove.Dkim.Tags.{TagList, tag_value, strip_wsp}
use mailove.Dkim.Canon.{header_relaxed, header_simple, body_relaxed, body_simple}
use mailove.Dkim.Fields.{Field, split_fields}
use mailove.Dkim.Results.{
  DkimResult, DkimStatus, unsupported, body_mismatch, perm_error, obsolete_algorithm, body_changed,
  from_not_covered, signed_prefix,
}

pub record Signature : Type 0 where
  pub tags : TagList
  pub raw_name : Bytes
  pub raw_value : Bytes
  pub raw_field : Bytes
  pub header_canon : Bytes
  pub body_canon : Bytes

abbrev pub relaxed : Bytes
relaxed = codes "relaxed"

-- The algorithms that are not refused.
unfoldable pub is_supported : Bytes → Bool
unfolding equal
is_supported algorithm =
    equal algorithm (codes "rsa-sha256") || equal algorithm (codes "ed25519-sha256")

unfoldable pub signs_from : List Bytes → Bool
unfolding equal to_lower trimmed
signs_from [] = false
signs_from (raw_name ∷ wanted) =
    equal (to_lower (trimmed raw_name)) (codes "from") || signs_from wanted

unfoldable pub matches : Bytes → Field → Bool
unfolding equal to_lower
matches name f = not f.used && equal (to_lower f.name) name

abbrev mark_used : Field → Field
mark_used f = record f { used = true }

abbrev keep_front :
    Field → Option (Field × List Field) → Option (Field × List Field) → Option (Field × List Field)
keep_front x (some (f, fields)) other = some (f, x ∷ fields)
keep_front x none other = other

-- The last field of the name that no entry of h= took yet, and the fields with it marked.
unfoldable pub take_last : Bytes → List Field → Option (Field × List Field)
take_last name [] = none
take_last name (x ∷ xs) =
    keep_front x (take_last name xs) (if matches name x then some (x, mark_used x ∷ xs) else none)

unfoldable pub canon_field : Signature → Field → Bytes
unfolding equal
canon_field sig f =
    if equal sig.header_canon relaxed then header_relaxed f.name f.value else header_simple f.raw

-- One round of the loop over h=: the canonical field, if there is one, and the fields left.
unfoldable pub sign_one : Signature → Bytes → List Field → Bytes × List Field
sign_one sig raw_name fields =
    let name = to_lower (trimmed raw_name) in
    if is_empty name then ([], fields) else elim (take_last name fields) [
      | none ↦ ([], fields)
      | some (f, rest) ↦ (canon_field sig f, rest)
    ]

unfoldable pub signed_headers : Signature → List Bytes → List Field → Bytes
unfolding sign_one
signed_headers sig [] fields = []
signed_headers sig (raw_name ∷ wanted) fields =
    let (bytes, rest) = sign_one sig raw_name fields in bytes ++ signed_headers sig wanted rest

unfoldable pub canonical_body : Signature → Bytes → Bytes
unfolding equal
canonical_body sig body =
    if equal sig.body_canon relaxed then body_relaxed body else body_simple body

-- The value of l=, cut off where it is shorter than the body.
unfoldable pub cut_body : Option ℤ → Bytes → Bytes × Bool
cut_body none body = (body, false)
cut_body (some (negsuc n)) body = (body, false)
cut_body (some (pos n)) body = if ltb n (length body) then (take n body, true) else (body, false)

-- What prepare returns: false with the result filled in, or true with the signed data.
pub data Prepared : Type 0 where
  refused : DkimResult → Prepared
  prepared : Bytes → DkimResult → Prepared

module _ (p : Platform) where
  open p use {sha256, to_base64, to_long_long, replace}

  -- The regular expression is applied by Qt.
  unfoldable pub strip_b_tag : Bytes → Bytes
  strip_b_tag value = replace (codes "(;?\\s*\\bb\\s*=)[^;]*") (codes "\\1") value

  unfoldable pub limited_body : Signature → Bytes → Bytes × Bool
  limited_body sig body =
      let length_tag = tag_value sig.tags (codes "l") in
      let canon_body = canonical_body sig body in
      if is_empty length_tag
      then (canon_body, false)
      else cut_body (to_long_long length_tag) canon_body

  unfoldable pub own_field : Signature → Bytes
  unfolding equal ends_with chop strip_b_tag
  own_field sig =
      let sig_canon =
        if equal sig.header_canon relaxed
        then header_relaxed sig.raw_name (strip_b_tag sig.raw_value)
        else header_simple (strip_b_tag sig.raw_field) in
      if ends_with crlf sig_canon then chop 2 sig_canon else sig_canon

  abbrev note_truncation : Bool → Bytes → DkimResult → DkimResult
  note_truncation truncated length_tag out =
      if truncated
      then record out { body_truncated = true; detail = signed_prefix length_tag }
      else out

  unfoldable pub prepare : Bytes → Bytes → Signature → DkimResult → Prepared
  prepare head body sig out =
      let wanted = split b':' (tag_value sig.tags (codes "h")) in
      let (canon_body, truncated) = limited_body sig body in
      if not (is_supported (to_lower (tag_value sig.tags (codes "a"))))
      then refused (record out { status = unsupported; detail = obsolete_algorithm })
      else if not
          (equal (to_base64 (sha256 canon_body)) (strip_wsp (tag_value sig.tags (codes "bh"))))
      then refused (record out { status = body_mismatch; detail = body_changed })
      else if not (signs_from wanted)
      then refused (record out { status = perm_error; detail = from_not_covered })
      else prepared (signed_headers sig wanted (split_fields head) ++ own_field sig)
          (note_truncation truncated (tag_value sig.tags (codes "l")) out)
