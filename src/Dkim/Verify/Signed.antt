-- ===== src/Dkim/Verify/Signed.antt =====
-- What a pass of one signature stands on, and what the check of it leaves in the caches.
use mailove.Common.{
  true, ◌||◌, ◌++◌, ◌≡◌, subst, ◌∙◌, some, Bytes, codes, is_empty, inl, inr, Bool-cases,
  Option-cases, arith,
}
use mailove.PublicSuffix.{PublicSuffixList}
use mailove.Dkim.Platform.{Platform}
use mailove.Dkim.Tags.{parse_tag_list, tag_value, strip_wsp}
use mailove.Dkim.Results.{DkimResult, is_pass}
use mailove.Dkim.Keys.{World, public_key_record, load_public_key, verify_signature}
use mailove.Dkim.Keys.Sources.{Published, Sourced, Known-Published, public_key_record-Sources}
use mailove.Dkim.Align.{domains_aligned}
use mailove.Dkim.Prepare.{Signature, prepared, prepare}
use mailove.Dkim.Prepare.Laws.{Covers, prepare-Covers, Prepared-cases, prepare_refused}
use mailove.Dkim.Arc.{KeyState, key_type_of}
use mailove.Dkim.Verify.{start_result, check_key, check_prepared, check_signature}

-- A key record whose key accepts the signature in b= over the signed bytes.
pub record Accepts (p : Platform) (sig : Signature) (signed key_record : Bytes) : Type 0 where
  pub key : p.PublicKey
  pub loaded :
      load_public_key p
        (p.from_base64 (strip_wsp (tag_value (parse_tag_list key_record) (codes "p"))))
        (key_type_of (parse_tag_list key_record))
      ≡ some key
  pub accepted :
      verify_signature p key
        (key_type_of (parse_tag_list key_record))
        signed
        (p.from_base64 (strip_wsp (tag_value sig.tags (codes "b"))))
      ≡ true

abbrev pub SameVerdict : DkimResult → DkimResult → Type 0
SameVerdict r s =
    (r.domain ≡ s.domain)
    × (r.selector ≡ s.selector)
    × (r.aligned ≡ s.aligned)
    × (r.body_truncated ≡ s.body_truncated)

module _ (p : Platform) (w : World) (psl : PublicSuffixList) (from_domain : Bytes) where
  check_key-SameVerdict :
      (sig : Signature) (signed : Bytes) (r : DkimResult) (k : Bytes)
      → SameVerdict (check_key p w psl from_domain sig signed r k) r
  unfolding check_key
  check_key-SameVerdict sig signed r k = ground arith

  check_key-Accepts :
      (sig : Signature) (signed : Bytes) (r : DkimResult) (k : Bytes)
      → is_pass (check_key p w psl from_domain sig signed r k).status ≡ true
      → Accepts p sig signed k
  unfolding check_key
  check_key-Accepts sig signed r k h =
      elim (Option-cases (
        load_public_key p (p.from_base64 (strip_wsp (tag_value (parse_tag_list k) (codes "p"))))
          (key_type_of (parse_tag_list k)))) [
            | inl e ↦ absurd (ground arith)
            | inr (key, e) ↦ record { key = key; loaded = e; accepted = ground arith }
          ]

  -- What a pass of one signature stands on.
  pub record Vouches (head body : Bytes) (sig : Signature) (r : DkimResult) : Type 0 where
    pub signed : Bytes
    pub key_record : Bytes
    pub drafted : DkimResult
    pub same : SameVerdict r drafted
    pub covers : Covers p head body sig (start_result p w psl from_domain sig) signed drafted
    pub selector_is : r.selector ≡ tag_value sig.tags (codes "s")
    pub domain_is : r.domain ≡ p.lower_text (tag_value sig.tags (codes "d"))
    pub aligned_is :
        r.aligned
        ≡ domains_aligned p.lower_text psl
            (p.lower_text (tag_value sig.tags (codes "d")))
            from_domain
    pub published :
        Published w
          (tag_value sig.tags (codes "s")
            ++ (codes "._domainkey." ++ p.lower_text (tag_value sig.tags (codes "d"))))
          key_record
    pub accepts : Accepts p sig signed key_record

  check_prepared-pass :
      (sig : Signature) (signed : Bytes) (r : DkimResult) (st : KeyState)
      → Sourced w st.verifier st.cache
      → is_pass (check_prepared p w psl from_domain sig signed r st).1.status ≡ true
      → (k : Bytes) × SameVerdict (check_prepared p w psl from_domain sig signed r st).1 r
        × Published w (r.selector ++ (codes "._domainkey." ++ r.domain)) k
        × Accepts p sig signed k
  unfolding check_prepared
  check_prepared-pass sig signed r st s h =
      let name = r.selector ++ (codes "._domainkey." ++ r.domain) in
      let k = (public_key_record w st.verifier name st.cache).key_record in
      let known = (public_key_record-Sources w name st.verifier st.cache s).1 in
      elim (Bool-cases (is_empty k)) [
        | inl e ↦ absurd (ground arith)
        | inr e ↦ (
          k,
          ground (arith, check_key-SameVerdict sig signed r k),
          Known-Published w name k e known,
          check_key-Accepts sig signed r k (ground arith),
        )
      ]

  check_prepared-Sourced :
      (sig : Signature) (signed : Bytes) (r : DkimResult) (st : KeyState)
      → Sourced w st.verifier st.cache
      → let after = (check_prepared p w psl from_domain sig signed r st).0 in
        Sourced w after.verifier after.cache
  unfolding check_prepared
  check_prepared-Sourced sig signed r st s =
      let name = r.selector ++ (codes "._domainkey." ++ r.domain) in
      let k = (public_key_record w st.verifier name st.cache).key_record in
      let kept = (public_key_record-Sources w name st.verifier st.cache s).0 in
      elim (Bool-cases (is_empty k)) [ inl e ↦ rw e kept | inr e ↦ rw e kept ]

  pub check_signature-Sourced :
      (head body : Bytes) (sig : Signature) (st : KeyState)
      → Sourced w st.verifier st.cache
      → let after = (check_signature p w psl from_domain head body sig st).0 in
        Sourced w after.verifier after.cache
  unfolding check_signature
  check_signature-Sourced head body sig st s =
      let start = start_result p w psl from_domain sig in
      elim (Bool-cases (is_empty start.domain || is_empty start.selector)) [
        | inl e ↦ rw e s
        | inr e ↦ elim (Prepared-cases (prepare p head body sig start)) [
          | inl (r, q) ↦ rw (e, q) s
          | inr (signed, r, q) ↦ rw (e, q) (check_prepared-Sourced sig signed r st s)
        ]
      ]

  Vouches-prepared :
      (head body : Bytes) (sig : Signature) (signed : Bytes) (drafted : DkimResult) (st : KeyState)
      → prepare p head body sig (start_result p w psl from_domain sig) ≡ prepared signed drafted
      → Sourced w st.verifier st.cache
      → is_pass (check_prepared p w psl from_domain sig signed drafted st).1.status ≡ true
      → Vouches head body sig (check_prepared p w psl from_domain sig signed drafted st).1
  Vouches-prepared head body sig signed drafted st q s h =
      let start = start_result p w psl from_domain sig in
      let covers = prepare-Covers p head body sig start signed drafted q in
      let (k, same, known, good) = check_prepared-pass sig signed drafted st s h in
      let (same_domain, same_selector, same_aligned, same_cut) = same in
      record {
        signed = signed;
        key_record = k;
        drafted = drafted;
        same = same;
        covers = covers;
        selector_is = same_selector ∙ covers.same_selector;
        domain_is = same_domain ∙ covers.same_domain;
        aligned_is = same_aligned ∙ covers.same_aligned;
        published =
            subst (λ (d : Bytes). Published w (start.selector ++ (codes "._domainkey." ++ d)) k)
              covers.same_domain
              (subst (λ (n : Bytes). Published w (n ++ (codes "._domainkey." ++ drafted.domain)) k)
                covers.same_selector known);
        accepts = good;
      }

  pub check_signature-pass :
      (head body : Bytes) (sig : Signature) (st : KeyState)
      → Sourced w st.verifier st.cache
      → is_pass (check_signature p w psl from_domain head body sig st).1.status ≡ true
      → Vouches head body sig (check_signature p w psl from_domain head body sig st).1
  unfolding check_signature
  check_signature-pass head body sig st s h =
      let start = start_result p w psl from_domain sig in
      elim (Bool-cases (is_empty start.domain || is_empty start.selector)) [
        | inl e ↦ absurd (ground arith)
        | inr e ↦ elim (Prepared-cases (prepare p head body sig start)) [
          | inl (r, q) ↦ absurd (ground (arith, prepare_refused p head body sig start r q))
          | inr (signed, r, q) ↦
              rw (e, q) (Vouches-prepared head body sig signed r st q s (ground arith))
        ]
      ]
