-- ===== src/Dkim/Verify/Vouched.antt =====
-- What a verdict over all signatures of a header stands on.
use mailove.Common.{
  ℕ, suc, Bool, true, false, List, [], ◌∷◌, ◌++◌, ◌≡◌, refl, sym, ap, ◌∙◌, Option, none, some,
  if◌then◌else◌, Bytes, codes, take, drop, arith,
}
use mailove.PublicSuffix.{PublicSuffixList}
use mailove.Dkim.Platform.{Platform}
use mailove.Dkim.Tags.{tag_value, strip_wsp}
use mailove.Dkim.Fields.{split_fields}
use mailove.Dkim.Results.{DkimResult, trustworthy}
use mailove.Dkim.Keys.{World}
use mailove.Dkim.Keys.Sources.{Sourced}
use mailove.Dkim.Prepare.{Signature, canonical_body, limited_body}
use mailove.Dkim.Prepare.Laws.{limited_body_whole}
use mailove.Dkim.Arc.{KeyState, verify_arc_chain}
use mailove.Dkim.Verify.{
  find_body, collect_signatures, keep, check_signature, wins, or_empty, try_signatures,
  verify_parts, verify,
}
use mailove.Dkim.Verify.Signed.{Vouches, check_signature-pass, check_signature-Sourced}

module _ (p : Platform) (w : World) (psl : PublicSuffixList) (from_domain : Bytes) where
  -- A signature of the list whose pass is the verdict, aligned and over the whole body.
  pub record VouchedBy (head body : Bytes) (sigs : List Signature) (r : DkimResult) : Type 0 where
    pub before : List Signature
    pub sig : Signature
    pub after : List Signature
    pub listed : sigs ≡ before ++ (sig ∷ after)
    pub vouches : Vouches p w psl from_domain head body sig r
    pub is_aligned : r.aligned ≡ true
    pub whole : r.body_truncated ≡ false
    pub whole_hash :
        p.to_base64 (p.sha256 (canonical_body sig body))
        ≡ strip_wsp (tag_value sig.tags (codes "bh"))

  Vouches-whole_hash :
      (head body : Bytes) (sig : Signature) (r : DkimResult)
      → Vouches p w psl from_domain head body sig r
      → r.body_truncated ≡ false
      → p.to_base64 (p.sha256 (canonical_body sig body))
        ≡ strip_wsp (tag_value sig.tags (codes "bh"))
  Vouches-whole_hash head body sig r v h =
      let uncut : (limited_body p sig body).1 ≡ false = ground (arith, v.covers.cut, v.same) in
      ap (λ (b : Bytes). p.to_base64 (p.sha256 b)) (sym (limited_body_whole p sig body uncut))
      ∙ v.covers.body_hash

  VouchedBy-cons :
      (head body : Bytes) (s : Signature) (sigs : List Signature) (r : DkimResult)
      → VouchedBy head body sigs r
      → VouchedBy head body (s ∷ sigs) r
  VouchedBy-cons head body s sigs r v = record {
    before = s ∷ v.before;
    sig = v.sig;
    after = v.after;
    listed = ap (◌∷◌ s) v.listed;
    vouches = v.vouches;
    is_aligned = v.is_aligned;
    whole = v.whole;
    whole_hash = v.whole_hash;
  }

  keep-loses :
      (r : DkimResult) (best : Option DkimResult)
      → wins p w psl from_domain r ≡ false
      → wins p w psl from_domain (or_empty p w psl from_domain best) ≡ false
      → wins p w psl from_domain (or_empty p w psl from_domain (keep r best)) ≡ false
  unfolding keep
  keep-loses r none h k = h
  keep-loses r (some best) h k = ground arith

  trustworthy-wins :
      (r : DkimResult)
      → trustworthy r ≡ true
      → (wins p w psl from_domain r ≡ true) × (r.aligned ≡ true) × (r.body_truncated ≡ false)
  unfolding trustworthy
  trustworthy-wins r h = ground arith

  -- Either branch of a test.
  if-VouchedBy :
      (head body : Bytes) (sigs : List Signature) (b : Bool) (x y : KeyState × DkimResult)
      → (b ≡ true → trustworthy x.1 ≡ true → VouchedBy head body sigs x.1)
      → (b ≡ false → trustworthy y.1 ≡ true → VouchedBy head body sigs y.1)
      → trustworthy (if b then x else y).1 ≡ true
      → VouchedBy head body sigs (if b then x else y).1
  if-VouchedBy head body sigs true x y f g h = f refl h
  if-VouchedBy head body sigs false x y f g h = g refl h

  VouchedBy-here :
      (head body : Bytes) (sig : Signature) (sigs : List Signature) (st : KeyState)
      → Sourced w st.verifier st.cache
      → trustworthy (check_signature p w psl from_domain head body sig st).1 ≡ true
      → VouchedBy head body (sig ∷ sigs) (check_signature p w psl from_domain head body sig st).1
  VouchedBy-here head body sig sigs st s h =
      let r = (check_signature p w psl from_domain head body sig st).1 in
      let (won, a, whole) = trustworthy-wins r h in
      let v = check_signature-pass p w psl from_domain head body sig st s (ground (arith, won)) in
      record {
        before = [];
        sig = sig;
        after = sigs;
        listed = refl;
        vouches = v;
        is_aligned = a;
        whole = whole;
        whole_hash = Vouches-whole_hash head body sig r v whole;
      }

  try_signatures-VouchedBy :
      (head body : Bytes) (sigs : List Signature) (best : Option DkimResult) (st : KeyState)
      → Sourced w st.verifier st.cache
      → wins p w psl from_domain (or_empty p w psl from_domain best) ≡ false
      → trustworthy (try_signatures p w psl from_domain head body sigs best st).1 ≡ true
      → VouchedBy head body sigs (try_signatures p w psl from_domain head body sigs best st).1
  unfolding try_signatures
  try_signatures-VouchedBy head body [] best st s l h =
      let r = or_empty p w psl from_domain best in
      let (won, a, whole) =
        trustworthy-wins (record r { arc = (verify_arc_chain p w head body st).1 }) h in
      absurd (ground (arith, won))
  try_signatures-VouchedBy head body (sig ∷ sigs) best st s l h =
      let c = check_signature p w psl from_domain head body sig st in
      let rest = try_signatures p w psl from_domain head body sigs (keep c.1 best) c.0 in
      if-VouchedBy head body (sig ∷ sigs) (wins p w psl from_domain c.1) c rest
        (λ e. VouchedBy-here head body sig sigs st s)
        (λ e t. VouchedBy-cons head body sig sigs rest.1 (
          try_signatures-VouchedBy head body sigs (keep c.1 best) c.0
            (check_signature-Sourced p w psl from_domain head body sig st s)
            (keep-loses c.1 best e l) t))
        h

  verify_split :
      (raw_message : Bytes) (st : KeyState) (n : ℕ)
      → find_body raw_message ≡ some n
      → verify p w psl from_domain raw_message st
        ≡ verify_parts p w psl from_domain
            (take (suc (suc n)) raw_message)
            (drop (suc (suc (suc (suc n)))) raw_message)
            st
  unfolding verify
  verify_split raw_message st n e = rw (e, verify)

  pub verify-VouchedBy :
      (raw_message : Bytes) (st : KeyState) (n : ℕ)
      → Sourced w st.verifier st.cache
      → find_body raw_message ≡ some n
      → trustworthy (verify p w psl from_domain raw_message st).1 ≡ true
      → VouchedBy
          (take (suc (suc n)) raw_message)
          (drop (suc (suc (suc (suc n)))) raw_message)
          (collect_signatures (split_fields (take (suc (suc n)) raw_message)))
          (verify p w psl from_domain raw_message st).1
  verify-VouchedBy raw_message st n s e =
      let head = take (suc (suc n)) raw_message in
      let body = drop (suc (suc (suc (suc n)))) raw_message in
      let sigs = collect_signatures (split_fields head) in
      rw (verify_split raw_message st n e)
        (unfold verify_parts in try_signatures-VouchedBy head body sigs none st s refl)
