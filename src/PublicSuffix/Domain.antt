-- ===== src/PublicSuffix/Domain.antt =====
-- The organizational domain of a name is a fixed point of the search.
use mailove.Common.{
  ℕ, zero, suc, ◌+◌, ◌-◌, ◌≤◌, ◌<◌, false, List, [], ◌∷◌, ◌++◌, ◌≡◌, refl, sym, ap, ◌∙◌, ◌⊎◌, inl,
  inr, if◌then◌else◌, Bytes, length, drop, is_empty, split, join, Bool-cases, arith, dec_lt,
}
use mailove.PublicSuffix.Labels.{
  AreLabels, split-AreLabels, split_pos, split-join, drop-AreLabels, length-drop,
}
use mailove.PublicSuffix.{
  PublicSuffixList, find_suffix, public_suffix, last_label, dotted, is_loaded,
  organizational_labels,
}

abbrev labels_in : Bytes → ℕ
labels_in s = length (split b'.' s)

length-split-dotted :
    (p : Bytes) (ls : List Bytes)
    → AreLabels b'.' (p ∷ ls)
    → labels_in (dotted (p ∷ ls)) ≡ suc (length ls)
length-split-dotted p ls h = ap length (split-join b'.' p ls h)

-- One step of the loop: a rule matched here, and the suffix is all the labels or all but the first,
-- or the loop goes on.
find_suffix_step :
    (l : PublicSuffixList) (p : Bytes) (ls : List Bytes)
    → ((find_suffix l (p ∷ ls) ≡ dotted (p ∷ ls)) ⊎ (find_suffix l (p ∷ ls) ≡ dotted ls))
      ⊎ (find_suffix l (p ∷ ls) ≡ find_suffix l ls)
unfolding find_suffix
find_suffix_step l p ls = ground arith

abbrev pick : Bytes → Bytes → Bytes
pick s d = if is_empty s then d else s

pub append-ne : (p : Bytes) (c : ℕ) (rest : Bytes) → is_empty (p ++ (c ∷ rest)) ≡ false
unfolding is_empty
append-ne [] c rest = refl
append-ne (x ∷ p) c rest = refl

pick-dotted :
    (d q : Bytes) (ls : List Bytes)
    → AreLabels b'.' (q ∷ ls)
    → suc (length ls) ≤ labels_in (pick (dotted (q ∷ ls)) d)
pick-dotted d q [] h = split_pos b'.' (pick (dotted (q ∷ [])) d)
pick-dotted d q (r ∷ ls) h =
    let e : is_empty (dotted (q ∷ r ∷ ls)) ≡ false =
      unfold join in append-ne q b'.' (dotted (r ∷ ls)) in
    rw e (omega (arith, length-split-dotted q (r ∷ ls) h))

-- If the suffix leaves one of the other labels free, the first label has no part in it.
public_suffix-cons :
    (l : PublicSuffixList) (p : Bytes) (ls : List Bytes)
    → AreLabels b'.' (p ∷ ls)
    → labels_in (public_suffix l (p ∷ ls)) < length ls
    → public_suffix l ls ≡ public_suffix l (p ∷ ls)
unfolding public_suffix is_empty
public_suffix-cons l p [] h k = elim k [ ]
public_suffix-cons l p (q ∷ ls) h k = elim (find_suffix_step l p (q ∷ ls)) [
  | inl (inl e) ↦
      let few : labels_in (pick (dotted (p ∷ q ∷ ls)) (last_label (q ∷ ls))) < suc (length ls) =
        rw e at k in
      absurd (omega (arith, pick-dotted (last_label (q ∷ ls)) p (q ∷ ls) h))
  | inl (inr e) ↦
      let few : labels_in (pick (dotted (q ∷ ls)) (last_label (q ∷ ls))) < suc (length ls) =
        rw e at k in
      absurd (omega (arith, pick-dotted (last_label (q ∷ ls)) q ls h.1))
  | inr e ↦ rw e
]

public_suffix-drop :
    (l : PublicSuffixList) (n : ℕ) (ls : List Bytes)
    → AreLabels b'.' ls
    → labels_in (public_suffix l ls) + n < length ls
    → public_suffix l (drop n ls) ≡ public_suffix l ls
public_suffix-drop l zero ls h k = refl
public_suffix-drop l (suc n) [] h k = refl
public_suffix-drop l (suc n) (p ∷ ls) h k =
    let e = public_suffix-cons l p ls h (omega arith) in
    public_suffix-drop l n ls h.1 (rw e (omega arith)) ∙ e

-- The labels that organizationalDomain keeps.
abbrev kept : PublicSuffixList → List Bytes → List Bytes
kept l ls = drop (length ls - labels_in (public_suffix l ls) - 1) ls

length-kept :
    (l : PublicSuffixList) (ls : List Bytes)
    → labels_in (public_suffix l ls) < length ls
    → length (kept l ls) ≡ suc (labels_in (public_suffix l ls))
length-kept l ls h = omega (arith, length-drop (length ls - labels_in (public_suffix l ls) - 1) ls)

split-dotted : (ls : List Bytes) → AreLabels b'.' ls → 1 ≤ length ls → split b'.' (dotted ls) ≡ ls
split-dotted [] h k = elim k [ ]
split-dotted (p ∷ ls) h k = split-join b'.' p ls h

abbrev org : PublicSuffixList → Bytes → Bytes
org l s = organizational_labels l (split b'.' s)

drop_zero : (m : List Bytes) {n : ℕ} → n ≡ 0 → drop n m ≡ m
drop_zero m e = ap (λ (k : ℕ). drop k m) e

org_short :
    (l : PublicSuffixList) (ls : List Bytes)
    → ¬ (labels_in (public_suffix l ls) < length ls)
    → organizational_labels l ls ≡ []
unfolding organizational_labels
org_short l ls h = ground arith

org_long :
    (l : PublicSuffixList) (ls : List Bytes)
    → labels_in (public_suffix l ls) < length ls
    → organizational_labels l ls ≡ (if is_loaded l then dotted (kept l ls) else [])
unfolding organizational_labels
org_long l ls h = ground (arith, split_pos b'.' (public_suffix l ls))

org_loaded :
    (l : PublicSuffixList) (ls : List Bytes)
    → AreLabels b'.' ls
    → labels_in (public_suffix l ls) < length ls
    → organizational_labels l (kept l ls) ≡ organizational_labels l ls
org_loaded l ls h k =
    let m = kept l ls in
    let same =
      public_suffix-drop l (length ls - labels_in (public_suffix l ls) - 1) ls h (omega arith) in
    let longer : labels_in (public_suffix l m) < length m =
      rw same (omega (arith, length-kept l ls k)) in
    let whole : kept l m ≡ m = drop_zero m (rw same (omega (arith, length-kept l ls k))) in
    org_long l m longer ∙ rw whole (sym (org_long l ls k))

org_nil : (l : PublicSuffixList) → org l [] ≡ []
unfolding organizational_labels split
org_nil l = refl

org_fixed :
    (l : PublicSuffixList) (ls : List Bytes)
    → AreLabels b'.' ls
    → labels_in (public_suffix l ls) < length ls
    → org l (organizational_labels l ls) ≡ organizational_labels l ls
org_fixed l ls h k = elim (Bool-cases (is_loaded l)) [
  | inl e ↦
      let m = kept l ls in
      let is_dotted : organizational_labels l ls ≡ dotted m = org_long l ls k ∙ rw e in
      let back =
        split-dotted m (drop-AreLabels b'.' (length ls - labels_in (public_suffix l ls) - 1) ls h)
          (omega (arith, length-kept l ls k)) in
      ap (org l) is_dotted ∙ ap (organizational_labels l) back ∙ org_loaded l ls h k
  | inr e ↦
      let no_list : organizational_labels l ls ≡ [] = org_long l ls k ∙ rw e in
      rw no_list (org_nil l)
]

-- The organizational domain of an organizational domain is itself, for every list of rules and
-- every name.
pub organizational_labels_idem :
    (l : PublicSuffixList) (name : Bytes)
    → organizational_labels l (split b'.' (organizational_labels l (split b'.' name)))
      ≡ organizational_labels l (split b'.' name)
organizational_labels_idem l name =
    elim (dec_lt (labels_in (public_suffix l (split b'.' name))) (labels_in name)) [
      | yes k ↦ org_fixed l (split b'.' name) (split-AreLabels b'.' name) k
      | no k ↦ rw (org_short l (split b'.' name) k) (org_nil l)
    ]

org_counts :
    (l : PublicSuffixList) (ls : List Bytes)
    → AreLabels b'.' ls
    → labels_in (public_suffix l ls) < length ls
    → (organizational_labels l ls ≡ [])
      ⊎ (labels_in (organizational_labels l ls) ≡ suc (labels_in (public_suffix l ls)))
org_counts l ls h k = elim (Bool-cases (is_loaded l)) [
  | inl e ↦
      let m = kept l ls in
      let is_dotted : organizational_labels l ls ≡ dotted m = org_long l ls k ∙ rw e in
      let back =
        split-dotted m (drop-AreLabels b'.' (length ls - labels_in (public_suffix l ls) - 1) ls h)
          (omega (arith, length-kept l ls k)) in
      inr (rw is_dotted (rw back (length-kept l ls k)))
  | inr e ↦ inl (org_long l ls k ∙ rw e)
]

-- What organizationalDomain finds, if it finds any, has one label more than the public suffix.
pub organizational_labels_count :
    (l : PublicSuffixList) (name : Bytes)
    → (organizational_labels l (split b'.' name) ≡ [])
      ⊎ (length (split b'.' (organizational_labels l (split b'.' name)))
          ≡ suc (length (split b'.' (public_suffix l (split b'.' name)))))
organizational_labels_count l name =
    elim (dec_lt (labels_in (public_suffix l (split b'.' name))) (labels_in name)) [
      | yes k ↦ org_counts l (split b'.' name) (split-AreLabels b'.' name) k
      | no k ↦ inl (org_short l (split b'.' name) k)
    ]
