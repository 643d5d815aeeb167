-- ===== src/Dkim/Fields.antt =====
-- The header fields of a message (Field and splitFields).
pub mod Pieces
pub mod Laws
use mailove.Common.{
  ℕ, zero, suc, ◌+◌, Bool, true, false, ◌&&◌, ◌||◌, List, [], ◌∷◌, ◌++◌, Option, none, some, ◌==◌,
  if◌then◌else◌, Bytes, crlf, index_of, take, drop, trimmed,
}

pub record Field : Type 0 where
  pub name : Bytes
  pub value : Bytes
  pub raw : Bytes
  pub used : Bool

abbrev starts_continuation : Bytes → Bool
starts_continuation [] = false
starts_continuation (c ∷ cs) = c == b' ' || c == b'\t'

-- The fields' bytes: `raw` holds what is read of the current one. A line end that white space
-- follows belongs to the field.
unfoldable pub scan_fields : Bytes → Bytes → List Bytes
scan_fields raw [] = raw ∷ []
scan_fields raw (c ∷ []) = (raw ++ c ∷ []) ∷ []
scan_fields raw (c ∷ d ∷ cs) = elim (c == b'\r' && d == b'\n') [
  | true ↦ elim (starts_continuation cs) [
    | true ↦ scan_fields (raw ++ crlf) cs
    | false ↦ raw ∷ scan_fields [] cs
  ]
  | false ↦ scan_fields (raw ++ c ∷ []) (d ∷ cs)
]

-- colon > 0
unfoldable pub field_at : Bytes → ℕ → Option Field
unfolding trimmed
field_at raw zero = none
field_at raw (suc i) = some (record {
  name = trimmed (take (suc i) raw);
  value = drop (suc (suc i)) raw;
  raw = raw;
  used = false;
})

unfoldable pub make_field : Bytes → Option Field
unfolding index_of field_at
make_field raw = elim (index_of b':' raw) [ none ↦ none | some colon ↦ field_at raw colon ]

abbrev append_field : Option Field → List Field → List Field
append_field none fields = fields
append_field (some f) fields = f ∷ fields

unfoldable pub make_fields : List Bytes → List Field
unfolding make_field
make_fields [] = []
make_fields (raw ∷ raws) = append_field (make_field raw) (make_fields raws)

unfoldable pub split_fields : Bytes → List Field
unfolding make_fields scan_fields
split_fields head = make_fields (scan_fields [] head)
