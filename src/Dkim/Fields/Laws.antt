-- ===== src/Dkim/Fields/Laws.antt =====
-- No byte of a header block is lost or changed by the split into fields.
use mailove.Common.{
  ℕ, zero, suc, List, [], ◌∷◌, ◌++◌, ◌≡◌, ◌≢◌, refl, subst, false, is_empty, sym, ap, ◌∙◌, none,
  some, Bytes, crlf, All, index_of, take, drop, trimmed, append_assoc, ◌⊎◌, Option-cases, ==_iff,
  inl, inr, append-nil, arith,
}
use mailove.Dkim.Fields.Pieces.{AreCut, scan_fields-AreCut}
use mailove.Dkim.Fields.{
  Field, scan_fields, field_at, make_field, make_fields, split_fields, append_field,
}

abbrev pub join_lines : List Bytes → Bytes
join_lines [] = []
join_lines (p ∷ []) = p
join_lines (p ∷ q ∷ ps) = p ++ (crlf ++ join_lines (q ∷ ps))

abbrev IsCons : List Bytes → Type 0
IsCons [] = ⊥
IsCons (p ∷ ps) = Unit {0}

scan_fields-IsCons : (raw b : Bytes) → IsCons (scan_fields raw b)
unfolding scan_fields
scan_fields-IsCons raw [] = tt
scan_fields-IsCons raw (c ∷ []) = tt
scan_fields-IsCons raw (c ∷ d ∷ cs) =
    ground (arith, scan_fields-IsCons (raw ++ crlf) cs, scan_fields-IsCons (raw ++ c ∷ []) (d ∷ cs))

join_lines-cons :
    (p : Bytes) (ps : List Bytes) → IsCons ps → join_lines (p ∷ ps) ≡ p ++ (crlf ++ join_lines ps)
join_lines-cons p [] h = elim h [ ]
join_lines-cons p (q ∷ ps) h = refl

scan_fields_step :
    (raw : Bytes) (c d : ℕ) (cs : Bytes)
    → (((c ∷ d ∷ []) ≡ crlf) × (scan_fields raw (c ∷ d ∷ cs) ≡ scan_fields (raw ++ crlf) cs))
      ⊎ ((((c ∷ d ∷ []) ≡ crlf) × (scan_fields raw (c ∷ d ∷ cs) ≡ raw ∷ scan_fields [] cs))
          ⊎ (scan_fields raw (c ∷ d ∷ cs) ≡ scan_fields (raw ++ c ∷ []) (d ∷ cs)))
unfolding scan_fields
scan_fields_step raw c d cs = ground arith

join_lines-scan_fields : (b raw : Bytes) → join_lines (scan_fields raw b) ≡ raw ++ b
join_lines-scan_fields [] raw = unfold scan_fields in sym (append-nil raw)
join_lines-scan_fields (c ∷ []) raw = unfold scan_fields in refl
join_lines-scan_fields (c ∷ d ∷ cs) raw = elim (scan_fields_step raw c d cs) [
  | inl (q, e) ↦ rw e (
      join_lines-scan_fields cs (raw ++ crlf)
      ∙ append_assoc raw crlf cs
      ∙ ap (λ (x : Bytes). raw ++ (x ++ cs)) (sym q))
  | inr (inl (q, e)) ↦ rw e (
      join_lines-cons raw (scan_fields [] cs) (scan_fields-IsCons [] cs)
      ∙ rw (join_lines-scan_fields cs []) (ap (λ (x : Bytes). raw ++ (x ++ cs)) (sym q)))
  | inr (inr e) ↦
      rw e (join_lines-scan_fields (d ∷ cs) (raw ++ c ∷ []) ∙ append_assoc raw (c ∷ []) (d ∷ cs))
]

abbrev pub LacksColon : Bytes → Type 0
LacksColon b = All (λ c. c ≢ b':') b

-- The fields that the pieces give: one for each piece whose first colon stands behind its first
-- byte, its name in front of that colon and its value behind it, and none for any other piece.
pub data FieldsOf : List Bytes → List Field → Type 0 where
  no_pieces : FieldsOf [] []
  one_field :
      (front value : Bytes) {raws : List Bytes} {fs : List Field}
      → is_empty front ≡ false
      → LacksColon front
      → FieldsOf raws fs
      → FieldsOf ((front ++ (b':' ∷ value)) ∷ raws) (
          record {
            name = trimmed front;
            value = value;
            raw = front ++ (b':' ∷ value);
            used = false;
          }
          ∷ fs)
  no_field :
      (raw : Bytes) {raws : List Bytes} {fs : List Field}
      → (LacksColon raw) ⊎ ((value : Bytes) × (raw ≡ b':' ∷ value))
      → FieldsOf raws fs
      → FieldsOf (raw ∷ raws) fs

index_of-split :
    (c : ℕ) (b : Bytes) (i : ℕ)
    → index_of c b ≡ some i
    → (b ≡ take i b ++ (c ∷ drop (suc i) b)) × All (λ d. d ≢ c) (take i b)
unfolding index_of
index_of-split c [] i h = cc
index_of-split c (x ∷ b) zero h = ground (arith, ==_iff x c)
index_of-split c (x ∷ b) (suc i) h = ground (arith, index_of-split c b i, ==_iff x c)

index_of_none : (c : ℕ) (b : Bytes) → index_of c b ≡ none → All (λ d. d ≢ c) b
unfolding index_of
index_of_none c [] h = tt
index_of_none c (x ∷ b) h = ground (arith, index_of_none c b, ==_iff x c)

take-is_empty :
    (c : ℕ) (b : Bytes) (i : ℕ) → index_of c b ≡ some (suc i) → is_empty (take (suc i) b) ≡ false
unfolding index_of is_empty
take-is_empty c [] i h = cc
take-is_empty c (x ∷ b) i h = refl

field_at-FieldsOf :
    (raw : Bytes) (i : ℕ) (raws : List Bytes) (fs : List Field)
    → index_of b':' raw ≡ some i
    → FieldsOf raws fs
    → FieldsOf (raw ∷ raws) (append_field (field_at raw i) fs)
unfolding field_at
field_at-FieldsOf raw zero raws fs e t =
    no_field raw (inr (drop 1 raw, (index_of-split b':' raw zero e).0)) t
field_at-FieldsOf raw (suc i) raws fs e t =
    let front = take (suc i) raw in
    let value = drop (suc (suc i)) raw in
    let (same, lacks) = index_of-split b':' raw (suc i) e in
    subst
      (λ (b : Bytes).
        FieldsOf (b ∷ raws)
          (record { name = trimmed front; value = value; raw = b; used = false } ∷ fs))
      (sym same) (one_field front value (take-is_empty b':' raw i e) lacks t)

make_fields-FieldsOf : (raws : List Bytes) → FieldsOf raws (make_fields raws)
unfolding make_fields
make_fields-FieldsOf [] = no_pieces
make_fields-FieldsOf (raw ∷ raws) = elim (Option-cases (index_of b':' raw)) [
  | inl e ↦
      rw (e, make_field) (no_field raw (inl (index_of_none b':' raw e)) (make_fields-FieldsOf raws))
  | inr (i, e) ↦
      rw (e, make_field)
        (field_at-FieldsOf raw i raws (make_fields raws) e (make_fields-FieldsOf raws))
]

-- The pieces into which a header block is cut are the block again when the line ends are put back
-- between them; in each a line end stands in front of white space only, and none but the first
-- starts with white space. A piece is a field exactly if its first colon stands behind its first
-- byte: the trimmed bytes before that colon are its name, the bytes behind it, unchanged, its value.
pub split_fields_keeps :
    (head : Bytes)
    → (join_lines (scan_fields [] head) ≡ head)
      × AreCut (scan_fields [] head)
      × FieldsOf (scan_fields [] head) (split_fields head)
unfolding split_fields
split_fields_keeps head = (
  join_lines-scan_fields head [],
  scan_fields-AreCut head,
  make_fields-FieldsOf (scan_fields [] head),
)
