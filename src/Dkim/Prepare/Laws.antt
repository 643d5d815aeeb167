-- ===== src/Dkim/Prepare/Laws.antt =====
-- What a prepared signature says.
use mailove.Common.{
  true, false, ◌||◌, ◌++◌, ◌≡◌, refl, Option, none, some, Bytes, ℤ, pos, negsuc, codes, equal_iff,
  to_lower, split, ◌⊎◌, inl, inr, arith,
}
use mailove.Dkim.Platform.{Platform}
use mailove.Dkim.Tags.{tag_value, strip_wsp}
use mailove.Dkim.Fields.{split_fields}
use mailove.Dkim.Results.{DkimResult, is_pass}
use mailove.Dkim.Prepare.{
  Signature, Prepared, prepared, refused, is_supported, signs_from, signed_headers, canonical_body,
  cut_body, limited_body, own_field, prepare,
}

-- What is known once a signature is prepared: `result` is the verdict so far, from `out`.
pub record Covers (p : Platform) (head body : Bytes) (sig : Signature) (out : DkimResult)
    (signed : Bytes) (result : DkimResult) : Type 0 where
  pub supported : is_supported (to_lower (tag_value sig.tags (codes "a"))) ≡ true
  pub body_hash :
      p.to_base64 (p.sha256 (limited_body p sig body).0)
      ≡ strip_wsp (tag_value sig.tags (codes "bh"))
  pub from_signed : signs_from (split b':' (tag_value sig.tags (codes "h"))) ≡ true
  pub signed_is :
      signed
      ≡ signed_headers sig (split b':' (tag_value sig.tags (codes "h"))) (split_fields head)
        ++ own_field p sig
  pub same_status : result.status ≡ out.status
  pub same_domain : result.domain ≡ out.domain
  pub same_selector : result.selector ≡ out.selector
  pub same_aligned : result.aligned ≡ out.aligned
  pub same_arc : result.arc ≡ out.arc
  pub cut : result.body_truncated ≡ (limited_body p sig body).1 || out.body_truncated

module _ (p : Platform) (head body : Bytes) (sig : Signature) (out : DkimResult) where
  -- A signature is prepared only if its algorithm is supported, the hash of the body is the one it
  -- states and From is among its headers; the signed data are then those headers and the signature
  -- field itself, and only the truncation mark and the detail of the verdict change.
  pub prepare-Covers :
      (signed : Bytes) (result : DkimResult)
      → prepare p head body sig out ≡ prepared signed result
      → Covers p head body sig out signed result
  unfolding prepare
  prepare-Covers signed result e = ground (
    arith,
    equal_iff (p.to_base64 (p.sha256 (limited_body p sig body).0))
        (strip_wsp (tag_value sig.tags (codes "bh"))),
  )

pub Prepared-cases :
    (x : Prepared)
    → ((r : DkimResult) × (x ≡ refused r))
      ⊎ ((signed : Bytes) × (r : DkimResult) × (x ≡ prepared signed r))
Prepared-cases (refused r) = inl (r, refl)
Prepared-cases (prepared signed r) = inr (signed, r, refl)

-- A refused signature is no pass.
pub prepare_refused :
    (p : Platform) (head body : Bytes) (sig : Signature) (out r : DkimResult)
    → prepare p head body sig out ≡ refused r
    → is_pass r.status ≡ false
unfolding prepare
prepare_refused p head body sig out r e = ground arith

cut_body_whole :
    (limit : Option ℤ) (b : Bytes) → (cut_body limit b).1 ≡ false → (cut_body limit b).0 ≡ b
unfolding cut_body
cut_body_whole none b h = refl
cut_body_whole (some (negsuc n)) b h = refl
cut_body_whole (some (pos n)) b h = ground arith

-- If the body was not cut, what was hashed is the whole canonical body.
pub limited_body_whole :
    (p : Platform) (sig : Signature) (body : Bytes)
    → (limited_body p sig body).1 ≡ false
    → (limited_body p sig body).0 ≡ canonical_body sig body
unfolding limited_body
limited_body_whole p sig body h = ground (
  arith,
  cut_body_whole (p.to_long_long (tag_value sig.tags (codes "l"))) (canonical_body sig body),
)
