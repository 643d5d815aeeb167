-- ===== src/Dkim/Align.antt =====
-- Alignment of the signing domain with the sender's (domainsAligned).
pub mod Laws
use mailove.Common.{
  ℕ, Bool, true, false, not, ◌&&◌, ◌||◌, List, [], ◌∷◌, ◌++◌, ◌≡◌, ◌≢◌, refl, sym, ◌∙◌, inl, inr,
  if◌then◌else◌, Bytes, is_empty, equal, equal_iff, ends_with, ends_with-append, Bool-cases, arith,
}
use mailove.PublicSuffix.{PublicSuffixList, is_loaded, organizational_domain}

unfoldable pub domains_aligned : (Bytes → Bytes) → PublicSuffixList → Bytes → Bytes → Bool
domains_aligned lower psl signing from =
    let s = lower signing in
    let f = lower from in
    if is_empty s || is_empty f
    then false
    else if equal s f
    then true
    else if is_loaded psl
    then (let s_org = organizational_domain lower psl s in
        let f_org = organizational_domain lower psl f in
        if not (is_empty s_org) && not (is_empty f_org) then equal s_org f_org else false)
    else ends_with (b'.' ∷ s) f || ends_with (b'.' ∷ f) s
