-- ===== src/Dkim/Align/Laws.antt =====
-- Alignment as a relation between domains, and the fallback without a list.
use mailove.Common.{
  Bool, true, false, not, ◌&&◌, ◌||◌, [], ◌∷◌, ◌++◌, ◌≡◌, refl, ap, inl, inr, if◌then◌else◌, Bytes,
  is_empty, equal, equal_iff, ends_with, ends_with-append, length, length-append, Bool-cases, arith,
}
use mailove.PublicSuffix.{PublicSuffixList, is_loaded, organizational_domain}
use mailove.PublicSuffix.Domain.{append-ne}
use mailove.Dkim.Align.{domains_aligned}

-- The decision on two lower-case names, given what the list says of each.
abbrev decide_aligned : Bool → Bytes → Bytes → Bytes → Bytes → Bool → Bool
decide_aligned loaded s f s_org f_org related =
    if is_empty s || is_empty f
    then false
    else if equal s f
    then true
    else if loaded
    then (if not (is_empty s_org) && not (is_empty f_org) then equal s_org f_org else false)
    else related

equal_comm : (a b : Bytes) → equal a b ≡ equal b a
equal_comm a b = ground (arith, equal_iff a b, equal_iff b a)

decide_aligned_comm :
    (loaded : Bool) (s f s_org f_org : Bytes) (a b : Bool)
    → decide_aligned loaded s f s_org f_org (a || b)
      ≡ decide_aligned loaded f s f_org s_org (b || a)
decide_aligned_comm loaded s f s_org f_org a b =
    ground (arith, equal_comm s f, equal_comm s_org f_org)

-- Alignment does not depend on which of the two domains signs, whatever list is loaded, and also
-- with none.
pub domains_aligned_comm :
    (lower : Bytes → Bytes) (psl : PublicSuffixList) (a b : Bytes)
    → domains_aligned lower psl a b ≡ domains_aligned lower psl b a
unfolding domains_aligned
domains_aligned_comm lower psl a b =
    let s = lower a in
    let f = lower b in
    decide_aligned_comm (is_loaded psl) s f (organizational_domain lower psl s)
      (organizational_domain lower psl f) (ends_with (b'.' ∷ s) f) (ends_with (b'.' ∷ f) s)

-- With a list, alignment carries over: a domain aligned with a second one, which is aligned with a
-- third, is aligned with the third.
pub domains_aligned_trans :
    (lower : Bytes → Bytes) (psl : PublicSuffixList) (a b c : Bytes)
    → is_loaded psl ≡ true
    → domains_aligned lower psl a b ≡ true
    → domains_aligned lower psl b c ≡ true
    → domains_aligned lower psl a c ≡ true
unfolding domains_aligned
domains_aligned_trans lower psl a b c l h k =
    let s = lower a in
    let m = lower b in
    let f = lower c in
    let o = organizational_domain lower psl in
    ground (
      arith,
      equal_iff s m,
      equal_iff m f,
      equal_iff s f,
      equal_iff (o s) (o m),
      equal_iff (o m) (o f),
      equal_iff (o s) (o f),
    )

empty_is_empty : is_empty [] ≡ true
unfolding is_empty
empty_is_empty = refl

equal_longer : (s front : Bytes) → equal s (front ++ (b'.' ∷ s)) ≡ false
equal_longer s front = elim (Bool-cases (equal s (front ++ (b'.' ∷ s)))) [
  | inl e ↦
      let q = ap length ((equal_iff s (front ++ (b'.' ∷ s))).0 e) in
      absurd (omega (arith, q, length-append front (b'.' ∷ s)))
  | inr e ↦ e
]

-- A signing domain that has no organizational domain, such as a public suffix, is aligned with its
-- subdomains as long as no list is loaded, and with none of them once this list is. The domains are
-- in lower case.
pub fallback_looser :
    (lower : Bytes → Bytes) (none_loaded psl : PublicSuffixList) (s front : Bytes)
    → is_loaded none_loaded ≡ false
    → is_loaded psl ≡ true
    → is_empty s ≡ false
    → lower s ≡ s
    → lower (front ++ (b'.' ∷ s)) ≡ front ++ (b'.' ∷ s)
    → organizational_domain lower psl s ≡ []
    → (domains_aligned lower none_loaded s (front ++ (b'.' ∷ s)) ≡ true)
      × (domains_aligned lower psl s (front ++ (b'.' ∷ s)) ≡ false)
unfolding domains_aligned
fallback_looser lower none_loaded psl s front n l h e k o =
    rw (e, k)
      (ground (
        arith,
        append-ne front b'.' s,
        equal_longer s front,
        ends_with-append front (b'.' ∷ s),
        empty_is_empty,
      ))

-- Alignment does not depend on which of the two domains signs, whatever list is loaded, and also
-- with none. With a list it carries over: a domain aligned with a second one, which is aligned with
-- a third, is aligned with the third.
pub domains_aligned_lem :
    (lower : Bytes → Bytes) (psl : PublicSuffixList) (a b c : Bytes)
    → (domains_aligned lower psl a b ≡ domains_aligned lower psl b a)
      × (is_loaded psl ≡ true
          → domains_aligned lower psl a b ≡ true
          → domains_aligned lower psl b c ≡ true
          → domains_aligned lower psl a c ≡ true)
domains_aligned_lem lower psl a b c =
    (domains_aligned_comm lower psl a b, domains_aligned_trans lower psl a b c)
