-- ===== src/SpamHeuristics/Transit.antt =====
-- A verdict of a mail server's filter is read only above the last Received field.
use mailove.Common.{
  ℕ, suc, ◌+◌, ◌≤◌, Bool, false, ◌≡◌, refl, ap, ◌∙◌, inl, inr, Option, none, some, List, [], ◌∷◌,
  ◌++◌, Bytes, All, length, codes, equal, Bool-cases, arith,
}
use mailove.SpamHeuristics.{SpamPlatform}
use mailove.SpamHeuristics.Fields.{
  Field, Upstream, no_upstream, last_index_from, last_index_of_field, is_above, added_in_transit,
  read_upstream_from, read_upstream,
}

-- The field has another name.
abbrev pub IsNot : Bytes → Field → Type 0
IsNot name f = equal (f.name) name ≡ false

last_index_from-absent :
    (i : ℕ) (found : Option ℕ) (sent : List Field) (name : Bytes)
    → All (IsNot name) sent
    → last_index_from i found sent name ≡ found
unfolding last_index_from
last_index_from-absent i found [] name a = refl
last_index_from-absent i found (f ∷ sent) name (e, a) =
    rw e (last_index_from-absent (suc i) found sent name a)

last_index_from-append :
    (i : ℕ) (found : Option ℕ) (relayed sent : List Field) (name : Bytes)
    → All (IsNot name) sent
    → last_index_from i found (relayed ++ sent) name ≡ last_index_from i found relayed name
unfolding last_index_from
last_index_from-append i found [] sent name a = last_index_from-absent i found sent name a
last_index_from-append i found (f ∷ relayed) sent name a =
    last_index_from-append (suc i) _ relayed sent name a

-- The last index is inside the list, if it was before.
last_index_from-bound :
    (i j : ℕ) (found : Option ℕ) (fields : List Field) (name : Bytes)
    → (is_above j found ≡ false)
    → i + length fields ≤ suc j
    → is_above j (last_index_from i found fields name) ≡ false
unfolding last_index_from is_above
last_index_from-bound i j found [] name h k = h
last_index_from-bound i j found (f ∷ fields) name h k = elim (Bool-cases (equal (f.name) name)) [
  | inl e ↦ rw e (last_index_from-bound (suc i) j (some i) fields name (ground arith) (omega arith))
  | inr e ↦ rw e (last_index_from-bound (suc i) j found fields name h (omega arith))
]

read_upstream_from-below :
    (p : SpamPlatform) (in_transit : ℕ → Bool) (i : ℕ) (sent : List Field) (up : Upstream)
    → ((j : ℕ) → i ≤ j → in_transit j ≡ false)
    → read_upstream_from p in_transit i sent up ≡ up
unfolding read_upstream_from
read_upstream_from-below p in_transit i [] up h = refl
read_upstream_from-below p in_transit i (f ∷ sent) up h =
    rw (h i (omega arith))
      (read_upstream_from-below p in_transit (suc i) sent up (λ j k. h j (omega arith)))

read_upstream_from-append :
    (p : SpamPlatform) (in_transit : ℕ → Bool) (i : ℕ) (relayed sent : List Field) (up : Upstream)
    → ((j : ℕ) → i + length relayed ≤ j → in_transit j ≡ false)
    → read_upstream_from p in_transit i (relayed ++ sent) up
      ≡ read_upstream_from p in_transit i relayed up
unfolding read_upstream_from
read_upstream_from-append p in_transit i [] sent up h =
    read_upstream_from-below p in_transit i sent up (λ j k. h j (omega arith))
read_upstream_from-append p in_transit i (f ∷ relayed) sent up h =
    read_upstream_from-append p in_transit (suc i) relayed sent _ (λ j k. h j (omega arith))

-- Fields that follow the last Received field, in any number and with any content, change nothing in
-- what the server's filter is taken to have said.
pub read_upstream-sent :
    (p : SpamPlatform) (relayed sent : List Field)
    → All (IsNot (codes "received")) sent
    → read_upstream p (relayed ++ sent) ≡ read_upstream p relayed
unfolding read_upstream added_in_transit last_index_of_field
read_upstream-sent p relayed sent a =
    ap
      (λ (last : Option ℕ).
        read_upstream_from p (λ i. is_above i last) 0 (relayed ++ sent) no_upstream)
      (last_index_from-append 0 none relayed sent (codes "received") a)
    ∙ read_upstream_from-append p
        (λ i. is_above i (last_index_from 0 none relayed (codes "received"))) 0 relayed sent
        no_upstream
        (λ j k. last_index_from-bound 0 j none relayed (codes "received") refl (omega arith))
