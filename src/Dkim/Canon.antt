-- ===== src/Dkim/Canon.antt =====
-- Canonicalization (namespace DkimCanon, and relaxWhitespace).
pub mod Relaxed
pub mod Headers
pub mod Bodies
use mailove.Common.{
  ℕ, zero, suc, ◌+◌, Bool, true, false, ◌&&◌, ◌||◌, List, [], ◌∷◌, ◌++◌, ◌==◌, if◌then◌else◌, Bytes,
  crlf, length, is_empty, equal, ends_with, starts_with, chop, to_lower, Option, none, some,
}

abbrev pub is_wsp : ℕ → Bool
is_wsp c = c == b' ' || c == b'\t'

-- The loop of relaxWhitespace; the flag is `pendingSpace`.
unfoldable pub relax_from : Bool → Bytes → Bytes
relax_from pending [] = []
relax_from pending (c ∷ cs) =
    let rest = relax_from (is_wsp c) cs in
    if is_wsp c then rest else if pending then b' ' ∷ c ∷ rest else c ∷ rest

unfoldable pub relax_whitespace : Bytes → Bytes
unfolding relax_from
relax_whitespace = relax_from false

-- The loop of headerRelaxed over the value: the CRLF of a fold disappears, a lone LF too.
unfoldable pub unfold_value : Bytes → Bytes
unfold_value [] = []
unfold_value (c ∷ []) = if c == b'\n' then [] else c ∷ []
unfold_value (c ∷ d ∷ cs) = elim (c == b'\r' && d == b'\n') [
  | true ↦ unfold_value cs
  | false ↦ let rest = unfold_value (d ∷ cs) in if c == b'\n' then rest else c ∷ rest
]

-- while (v.startsWith(' ')) v.remove(0, 1)
unfoldable pub drop_spaces : Bytes → Bytes
drop_spaces [] = []
drop_spaces (c ∷ cs) = if c == b' ' then drop_spaces cs else c ∷ cs

-- while (b.endsWith(suffix)) b.chop(n), on fuel.
unfoldable pub chop_while : ℕ → Bytes → ℕ → Bytes → Bytes
unfolding ends_with chop
chop_while zero suffix n b = b
chop_while (suc fuel) suffix n b = elim (ends_with suffix b) [
  | true ↦ chop_while fuel suffix n (chop n b)
  | false ↦ b
]

-- A text gets shorter in each round, so its length is enough fuel.
unfoldable pub chop_spaces : Bytes → Bytes
unfolding chop_while
chop_spaces v = chop_while (length v) (b' ' ∷ []) 1 v

unfoldable pub header_relaxed : Bytes → Bytes → Bytes
unfolding unfold_value relax_whitespace chop_spaces drop_spaces to_lower
header_relaxed name value =
    let v = drop_spaces (chop_spaces (relax_whitespace (unfold_value value))) in
    to_lower name ++ (b':' ∷ (v ++ crlf))

-- while (out.endsWith('\n') || out.endsWith('\r')) out.chop(1), on fuel.
unfoldable pub chop_line_ends : ℕ → Bytes → Bytes
unfolding ends_with chop
chop_line_ends zero out = out
chop_line_ends (suc fuel) out = elim (ends_with (b'\n' ∷ []) out || ends_with (b'\r' ∷ []) out) [
  | true ↦ chop_line_ends fuel (chop 1 out)
  | false ↦ out
]

unfoldable pub header_simple : Bytes → Bytes
unfolding chop_line_ends
header_simple raw_field = chop_line_ends (length raw_field) raw_field ++ crlf

abbrev pub blank_line : Bytes
blank_line = 13 ∷ 10 ∷ 13 ∷ 10 ∷ []

-- while (b.endsWith("\r\n\r\n")) b.chop(2)
unfoldable pub chop_blank_lines : Bytes → Bytes
unfolding chop_while
chop_blank_lines b = chop_while (length b) blank_line 2 b

unfoldable pub body_simple : Bytes → Bytes
unfolding chop_blank_lines is_empty ends_with
body_simple body =
    let b = chop_blank_lines body in
    if is_empty b then crlf else if ends_with crlf b then b else b ++ crlf

-- One line of bodyRelaxed, with its CRLF.
unfoldable pub relax_line : Bytes → Bytes
unfolding relax_whitespace chop_spaces
relax_line line = chop_spaces (relax_whitespace line) ++ crlf

-- The loop over the lines: `line` holds the bytes of the current line read so far. The text behind
-- the last CRLF is a line only if it is not empty.
unfoldable pub relax_lines : Bytes → Bytes → Bytes
unfolding relax_line
relax_lines line [] = if is_empty line then [] else relax_line line
relax_lines line (c ∷ []) = relax_line (line ++ c ∷ [])
relax_lines line (c ∷ d ∷ cs) = elim (c == b'\r' && d == b'\n') [
  | true ↦ relax_line line ++ relax_lines [] cs
  | false ↦ relax_lines (line ++ c ∷ []) (d ∷ cs)
]

unfoldable pub body_relaxed : Bytes → Bytes
unfolding relax_lines chop_blank_lines equal
body_relaxed body =
    let out = chop_blank_lines (relax_lines [] body) in if equal out crlf then [] else out
