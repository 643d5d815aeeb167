-- ===== src/Dkim/Fields/Pieces.antt =====
-- Where a header block is cut.
use mailove.Common.{
  ℕ, true, false, ◌&&◌, ◌==◌, List, [], ◌∷◌, ◌++◌, ◌≡◌, ◌≢◌, refl, sym, subst, ap, ◌∙◌, ◌⊎◌, ◌↔◌,
  inl, inr, Bytes, crlf, All, ==_iff, append_assoc, Bool-cases, arith,
}
use mailove.Dkim.Fields.{starts_continuation, scan_fields}

-- White space at the front: the line continues the field before it.
abbrev pub IsContinuation : Bytes → Type 0
IsContinuation [] = ⊥
IsContinuation (c ∷ cs) = (c ≡ b' ') ⊎ (c ≡ b'\t')

-- Every line end stands in front of white space.
abbrev pub IsUnbroken : Bytes → Type 0
IsUnbroken [] = Unit {0}
IsUnbroken (c ∷ []) = Unit {0}
IsUnbroken (c ∷ d ∷ cs) = (((c ≢ b'\r') ⊎ (d ≢ b'\n')) ⊎ IsContinuation cs) × IsUnbroken (d ∷ cs)

-- The pieces: in each a line end stands in front of white space only, and none but the first starts
-- with white space.
abbrev pub AreCut : List Bytes → Type 0
AreCut [] = ⊥
AreCut (p ∷ ps) = IsUnbroken p × All (λ q. IsUnbroken q × ¬ IsContinuation q) ps

starts_continuation_iff : (b : Bytes) → (starts_continuation b ≡ true) ↔ IsContinuation b
starts_continuation_iff [] = ground arith
starts_continuation_iff (c ∷ cs) = ground (arith, ==_iff c b' ', ==_iff c b'\t')

-- The first piece of a block is empty or starts with the first byte of the block.
abbrev SameFirst : Bytes → Bytes → Type 0
SameFirst b [] = Unit {0}
SameFirst [] (d ∷ p) = ⊥
SameFirst (c ∷ cs) (d ∷ p) = c ≡ d

-- What is shown of the pieces of a block.
abbrev Cuts : Bytes → List Bytes → Type 0
Cuts b [] = ⊥
Cuts b (p ∷ ps) = AreCut (p ∷ ps) × SameFirst b p × ((IsContinuation b) → IsContinuation p)

abbrev prepend : Bytes → List Bytes → List Bytes
prepend raw [] = raw ∷ []
prepend raw (p ∷ ps) = (raw ++ p) ∷ ps

SameFirst-IsContinuation : (b p : Bytes) → SameFirst b p → ¬ IsContinuation b → ¬ IsContinuation p
SameFirst-IsContinuation b [] s n h = h
SameFirst-IsContinuation [] (d ∷ p) s n h = s
SameFirst-IsContinuation (c ∷ cs) (d ∷ p) s n h = ground (arith)

Cuts-byte :
    (c d : ℕ) (cs : Bytes) (ps : List Bytes)
    → (c ≢ b'\r') ⊎ (d ≢ b'\n')
    → Cuts (d ∷ cs) ps
    → Cuts (c ∷ d ∷ cs) (prepend (c ∷ []) ps)
Cuts-byte c d cs [] n h = absurd h
Cuts-byte c d cs ([] ∷ ps) n h = ground (arith)
Cuts-byte c d cs ((e ∷ p) ∷ ps) n h = ground (arith)

Cuts-fold :
    (c d : ℕ) (cs : Bytes) (ps : List Bytes)
    → (c ≡ b'\r') × (d ≡ b'\n')
    → IsContinuation cs
    → Cuts cs ps
    → Cuts (c ∷ d ∷ cs) (prepend crlf ps)
Cuts-fold c d cs [] e n h = absurd h
Cuts-fold c d cs ([] ∷ ps) e n h = absurd (ground arith)
Cuts-fold c d cs ((x ∷ p) ∷ ps) e n h = ground arith

Cuts-cut :
    (c d : ℕ) (cs : Bytes) (ps : List Bytes)
    → (c ≡ b'\r') × (d ≡ b'\n')
    → ¬ IsContinuation cs
    → Cuts cs ps
    → Cuts (c ∷ d ∷ cs) ([] ∷ ps)
Cuts-cut c d cs [] e n h = absurd h
Cuts-cut c d cs (p ∷ ps) e n h = ground (arith, SameFirst-IsContinuation cs p)

-- One step of the scan.
scan_fold :
    (raw : Bytes) (c d : ℕ) (cs : Bytes)
    → (c == b'\r' && d == b'\n') ≡ true
    → starts_continuation cs ≡ true
    → scan_fields raw (c ∷ d ∷ cs) ≡ scan_fields (raw ++ crlf) cs
unfolding scan_fields
scan_fold raw c d cs e h = ground arith

scan_cut :
    (raw : Bytes) (c d : ℕ) (cs : Bytes)
    → (c == b'\r' && d == b'\n') ≡ true
    → starts_continuation cs ≡ false
    → scan_fields raw (c ∷ d ∷ cs) ≡ raw ∷ scan_fields [] cs
unfolding scan_fields
scan_cut raw c d cs e h = ground arith

scan_byte :
    (raw : Bytes) (c d : ℕ) (cs : Bytes)
    → (c == b'\r' && d == b'\n') ≡ false
    → scan_fields raw (c ∷ d ∷ cs) ≡ scan_fields (raw ++ c ∷ []) (d ∷ cs)
unfolding scan_fields
scan_byte raw c d cs e = ground arith

scan_fields-prepend :
    (raw more b : Bytes) → scan_fields (raw ++ more) b ≡ prepend raw (scan_fields more b)
scan_fields-prepend raw more [] = unfold scan_fields in refl
scan_fields-prepend raw more (c ∷ []) =
    unfold scan_fields in ap (λ (x : Bytes). x ∷ []) (append_assoc raw more (c ∷ []))
scan_fields-prepend raw more (c ∷ d ∷ cs) = elim (Bool-cases (c == b'\r' && d == b'\n')) [
  | inl e ↦ elim (Bool-cases (starts_continuation cs)) [
    | inl h ↦
        rw (scan_fold (raw ++ more) c d cs e h, scan_fold more c d cs e h)
          (ap (λ (x : Bytes). scan_fields x cs) (append_assoc raw more crlf)
            ∙ scan_fields-prepend raw (more ++ crlf) cs)
    | inr h ↦ rw (scan_cut (raw ++ more) c d cs e h, scan_cut more c d cs e h) refl
  ]
  | inr e ↦
      rw (scan_byte (raw ++ more) c d cs e, scan_byte more c d cs e)
        (ap (λ (x : Bytes). scan_fields x (d ∷ cs)) (append_assoc raw more (c ∷ []))
          ∙ scan_fields-prepend raw (more ++ c ∷ []) (d ∷ cs))
]

is_line_end : (c d : ℕ) → (c == b'\r' && d == b'\n') ≡ true → (c ≡ b'\r') × (d ≡ b'\n')
is_line_end c d e = ground (arith, ==_iff c b'\r', ==_iff d b'\n')

is_no_line_end : (c d : ℕ) → (c == b'\r' && d == b'\n') ≡ false → (c ≢ b'\r') ⊎ (d ≢ b'\n')
is_no_line_end c d e = ground (arith, ==_iff c b'\r', ==_iff d b'\n')

scan_fields-Cuts : (b : Bytes) → Cuts b (scan_fields [] b)
scan_fields-Cuts [] = unfold scan_fields in (ground arith)
scan_fields-Cuts (c ∷ []) = unfold scan_fields in (ground arith)
scan_fields-Cuts (c ∷ d ∷ cs) = elim (Bool-cases (c == b'\r' && d == b'\n')) [
  | inl e ↦
      let ends = is_line_end c d e in
      let cont = starts_continuation_iff cs in
      elim (Bool-cases (starts_continuation cs)) [
        | inl h ↦
            subst (Cuts (c ∷ d ∷ cs))
              (sym (scan_fold [] c d cs e h ∙ scan_fields-prepend crlf [] cs))
              (Cuts-fold c d cs (scan_fields [] cs) ends (cont.0 h) (scan_fields-Cuts cs))
        | inr h ↦ subst (Cuts (c ∷ d ∷ cs)) (sym (scan_cut [] c d cs e h)) (
            Cuts-cut c d cs (scan_fields [] cs) ends (λ k. absurd (ground (arith, cont.1 k)))
              (scan_fields-Cuts cs))
      ]
  | inr e ↦
      subst (Cuts (c ∷ d ∷ cs))
        (sym (scan_byte [] c d cs e ∙ scan_fields-prepend (c ∷ []) [] (d ∷ cs)))
        (Cuts-byte c d cs (scan_fields [] (d ∷ cs)) (is_no_line_end c d e)
          (scan_fields-Cuts (d ∷ cs)))
]

Cuts-AreCut : (b : Bytes) (ps : List Bytes) → Cuts b ps → AreCut ps
Cuts-AreCut b [] h = h
Cuts-AreCut b (p ∷ ps) h = h.0

pub scan_fields-AreCut : (b : Bytes) → AreCut (scan_fields [] b)
scan_fields-AreCut b = Cuts-AreCut b (scan_fields [] b) (scan_fields-Cuts b)
