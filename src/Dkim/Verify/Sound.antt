-- ===== src/Dkim/Verify/Sound.antt =====
-- What a verdict that the reader may trust stands on, after any messages.
use mailove.Common.{
  ℕ, suc, true, List, [], ◌∷◌, ◌≡◌, refl, Option, none, some, Bytes, is_empty, lookup, take, drop,
  inl, inr, Bool-cases, Option-cases, arith,
}
use mailove.PublicSuffix.{PublicSuffixList}
use mailove.Dkim.Platform.{Platform}
use mailove.Dkim.Fields.{split_fields}
use mailove.Dkim.Results.{DkimResult, trustworthy}
use mailove.Dkim.Keys.{World, Verifier}
use mailove.Dkim.Prepare.{Signature}
use mailove.Dkim.Arc.{KeyState}
use mailove.Dkim.Arc.Sources.{Sound, verify_arc_chain-Sound}
use mailove.Dkim.Verify.{
  find_body, collect_signatures, keep, check_signature, wins, try_signatures, verify_parts, verify,
}
use mailove.Dkim.Verify.Signed.{check_signature-Sourced}
use mailove.Dkim.Verify.Vouched.{VouchedBy, verify-VouchedBy}

module _ (p : Platform) (w : World) (psl : PublicSuffixList) (from_domain : Bytes) where
  try_signatures-Sourced :
      (head body : Bytes) (sigs : List Signature) (best : Option DkimResult) (st : KeyState)
      → Sound w st
      → Sound w (try_signatures p w psl from_domain head body sigs best st).0
  unfolding try_signatures
  try_signatures-Sourced head body [] best st s = verify_arc_chain-Sound p w head body st s
  try_signatures-Sourced head body (sig ∷ sigs) best st s =
      let c = check_signature p w psl from_domain head body sig st in
      let kept = check_signature-Sourced p w psl from_domain head body sig st s in
      elim (Bool-cases (wins p w psl from_domain c.1)) [
        | inl e ↦ rw e kept
        | inr e ↦ rw e (try_signatures-Sourced head body sigs (keep c.1 best) c.0 kept)
      ]

  verify-Sourced :
      (raw_message : Bytes) (st : KeyState)
      → Sound w st
      → Sound w (verify p w psl from_domain raw_message st).0
  unfolding verify verify_parts
  verify-Sourced raw_message st s = elim (Option-cases (find_body raw_message)) [
    | inl e ↦ rw (e, verify) s
    | inr (n, e) ↦
        let head = take (suc (suc n)) raw_message in
        let body = drop (suc (suc (suc (suc n)))) raw_message in
        rw (e, verify)
          (try_signatures-Sourced head body (collect_signatures (split_fields head)) none st s)
  ]

-- A message starts with an empty cache of its own (keyCache in verify).
abbrev pub with_verifier : Verifier → KeyState
with_verifier v = record { verifier = v; cache = [] }

module _ (p : Platform) (w : World) where
  -- A verifier that verified any messages since it was made, and was given no record by a test.
  pub data Reached : Verifier → Type 0 where
    made : Reached (record { test_key_record = []; dns_cache = []; requests = 0 })
    verified :
        {v : Verifier} (psl : PublicSuffixList) (from_domain raw_message : Bytes)
        → Reached v
        → Reached (verify p w psl from_domain raw_message (with_verifier v)).0.verifier

  Sourced-with_verifier : (st : KeyState) → Sound w st → Sound w (with_verifier st.verifier)
  unfolding lookup
  Sourced-with_verifier st s = record {
    untested = s.untested;
    kept = s.kept;
    cached = λ n k e. absurd (ground arith);
  }

  Reached-Sourced : (v : Verifier) → Reached v → Sound w (with_verifier v)
  unfolding lookup is_empty
  Reached-Sourced v made = record {
    untested = refl;
    kept = λ n c e. absurd (ground arith);
    cached = λ n k e. absurd (ground arith);
  }
  Reached-Sourced v (verified {v = u} psl from_domain raw_message r) =
      let after = (verify p w psl from_domain raw_message (with_verifier u)).0 in
      Sourced-with_verifier after
        (verify-Sourced p w psl from_domain raw_message (with_verifier u) (Reached-Sourced u r))

  -- However many messages were verified before, with no key record set by a test, a verdict that
  -- counts as trustworthy, on a message in which a blank line ends the header, is that of one of the
  -- DKIM-Signature fields of the header: its domain, that of d=, is aligned with the sender's, From
  -- is among the headers that it signs, the hash that it states is that of the whole canonical body,
  -- and a key that the resolver once gave for the name of s= and d= accepts its signature over the
  -- signed data.
  pub verify_sound :
      (psl : PublicSuffixList) (from_domain raw_message : Bytes) (v : Verifier) (n : ℕ)
      → Reached v
      → find_body raw_message ≡ some n
      → trustworthy (verify p w psl from_domain raw_message (with_verifier v)).1 ≡ true
      → let head = take (suc (suc n)) raw_message in
        let body = drop (suc (suc (suc (suc n)))) raw_message in
        VouchedBy p w psl from_domain head body
          (collect_signatures (split_fields head))
          (verify p w psl from_domain raw_message (with_verifier v)).1
  verify_sound psl from_domain raw_message v n r e t =
      verify-VouchedBy p w psl from_domain raw_message (with_verifier v) n (Reached-Sourced v r) e t
