-- ===== src/Dkim/Canon/Relaxed.antt =====
-- The relaxed form of a body (relaxedBody): how it ends.
use mailove.Common.{
  ℕ, Bool, true, false, ◌&&◌, [], ◌∷◌, ◌++◌, ◌≡◌, ◌≢◌, refl, ◌∙◌, ◌⊎◌, inl, inr, ◌==◌,
  if◌then◌else◌, Bytes, crlf, is_empty, equal, equal_iff, ends_with, ends_with-append,
  ends_with-front, append_assoc, append-nil, Bool-cases, arith,
}
use mailove.Dkim.Canon.{
  chop_blank_lines, body_relaxed, relax_lines, relax_line, blank_line, chop_spaces,
  relax_whitespace,
}
use mailove.Dkim.Canon.Bodies.{
  chop_blank_lines-ends, chop_blank_lines-blank, IsLines, chop_while-IsLines,
}

relax_lines_step :
    (c d : ℕ) (cs line : Bytes)
    → relax_lines line (c ∷ d ∷ cs) ≡ (
        if c == b'\r' && d == b'\n'
        then relax_line line ++ relax_lines [] cs
        else relax_lines (line ++ c ∷ []) (d ∷ cs))
unfolding relax_lines
relax_lines_step c d cs line = ground arith

relax_lines_end : relax_lines [] [] ≡ []
unfolding relax_lines is_empty
relax_lines_end = refl

lines_crlf : relax_lines [] crlf ≡ crlf
unfolding relax_lines is_empty
lines_crlf = refl

relax_lines-crlf :
    (rest line : Bytes)
    → relax_lines line (13 ∷ 10 ∷ rest) ≡ relax_lines line crlf ++ relax_lines [] rest
relax_lines-crlf rest line = rw (
  relax_lines_step 13 10 rest line,
  relax_lines_step 13 10 [] line,
  relax_lines_end,
  append-nil (relax_line line),
)

-- Lines are relaxed one by one: what follows a CRLF starts afresh.
relax_lines-append :
    (b rest line : Bytes)
    → relax_lines line (b ++ (13 ∷ 10 ∷ rest)) ≡ relax_lines line (b ++ crlf) ++ relax_lines [] rest
relax_lines-append [] rest line = relax_lines-crlf rest line
relax_lines-append (c ∷ []) rest line =
    relax_lines_step c 13 (10 ∷ rest) line
    ∙ ground (arith, relax_lines_step c 13 (10 ∷ []) line, relax_lines-crlf rest (line ++ c ∷ []))
relax_lines-append (c ∷ d ∷ b) rest line = ground (
  arith,
  relax_lines_step c d (b ++ (13 ∷ 10 ∷ rest)) line,
  relax_lines_step c d (b ++ crlf) line,
  relax_lines-append b rest [],
  relax_lines-append (d ∷ b) rest (line ++ c ∷ []),
  append_assoc (relax_line line) (relax_lines [] (b ++ crlf)) (relax_lines [] rest),
)

ends_with-append_left : (a p b : Bytes) → ends_with p b ≡ true → ends_with p (a ++ b) ≡ true
unfolding ends_with
ends_with-append_left [] p b h = h
ends_with-append_left (c ∷ a) p b h = ground (arith, ends_with-append_left a p b h)

relax_line-ends : (line : Bytes) → ends_with crlf (relax_line line) ≡ true
unfolding relax_line
relax_line-ends line = ends_with-append (chop_spaces (relax_whitespace line)) crlf

IsLines-append : (a b : Bytes) → ends_with crlf a ≡ true → IsLines b → IsLines (a ++ b)
IsLines-append a b h (inl e) = inr (rw (e, append-nil a) h)
IsLines-append a b h (inr e) = inr (ends_with-append_left a crlf b e)

relax_lines_stop : (line : Bytes) → IsLines (relax_lines line [])
unfolding relax_lines is_empty
relax_lines_stop [] = inl refl
relax_lines_stop (c ∷ line) = inr (relax_line-ends (c ∷ line))

if-IsLines : (t : Bool) {x y : Bytes} → IsLines x → IsLines y → IsLines (if t then x else y)
if-IsLines true h k = h
if-IsLines false h k = k

relax_lines-IsLines : (b line : Bytes) → IsLines (relax_lines line b)
relax_lines-IsLines [] line = relax_lines_stop line
relax_lines-IsLines (c ∷ []) line = inr (unfold relax_lines in relax_line-ends (line ++ c ∷ []))
relax_lines-IsLines (c ∷ d ∷ cs) line = rw (relax_lines_step c d cs line) (
    if-IsLines (c == b'\r' && d == b'\n')
      (IsLines-append (relax_line line) _ (relax_line-ends line) (relax_lines-IsLines cs []))
      (relax_lines-IsLines (d ∷ cs) (line ++ c ∷ [])))

-- The last lines of bodyRelaxed.
abbrev strip_empty : Bytes → Bytes
strip_empty out = if equal out crlf then [] else out

strip_empty-shape :
    (out : Bytes)
    → IsLines out
    → ends_with blank_line out ≡ false
    → (strip_empty out ≡ [])
      ⊎ ((ends_with crlf (strip_empty out) ≡ true)
          × (ends_with blank_line (strip_empty out) ≡ false)
          × (strip_empty out ≢ crlf))
strip_empty-shape out (inl e) h = elim (Bool-cases (equal out crlf)) [
  | inl q ↦ rw q (inl refl)
  | inr q ↦ rw q (inl e)
]
strip_empty-shape out (inr e) h = elim (Bool-cases (equal out crlf)) [
  | inl q ↦ rw q (inl refl)
  | inr q ↦ rw q (inr (e, h, λ s. ground (arith, (equal_iff out crlf).1 s)))
]

-- The relaxed form of a body is empty, or it ends with a line end, does not end with an empty line
-- and is not a lone line end, for every body.
body_relaxed-ends :
    (body : Bytes)
    → (body_relaxed body ≡ [])
      ⊎ ((ends_with crlf (body_relaxed body) ≡ true)
          × (ends_with blank_line (body_relaxed body) ≡ false)
          × (body_relaxed body ≢ crlf))
unfolding body_relaxed
body_relaxed-ends body =
    let out = chop_blank_lines (relax_lines [] body) in
    strip_empty-shape out
      (unfold chop_blank_lines in
        chop_while-IsLines _ (relax_lines [] body) (relax_lines-IsLines body []))
      (chop_blank_lines-ends (relax_lines [] body))

relax_lines-crlf-ends : (line : Bytes) → ends_with crlf (relax_lines line crlf) ≡ true
relax_lines-crlf-ends line =
    rw (relax_lines_step 13 10 [] line, relax_lines_end, append-nil (relax_line line))
      (relax_line-ends line)

relax_lines-ends : (b line : Bytes) → ends_with crlf (relax_lines line (b ++ crlf)) ≡ true
relax_lines-ends [] line = relax_lines-crlf-ends line
relax_lines-ends (c ∷ []) line =
    ground (arith, relax_lines_step c 13 (10 ∷ []) line, relax_lines-crlf-ends (line ++ c ∷ []))
relax_lines-ends (c ∷ d ∷ b) line = ground (
  arith,
  relax_lines_step c d (b ++ crlf) line,
  ends_with-append_left (relax_line line) crlf (relax_lines [] (b ++ crlf)) (relax_lines-ends b []),
  relax_lines-ends (d ∷ b) (line ++ c ∷ []),
)

-- Empty lines added behind the last line do not change the relaxed form, for every body.
body_relaxed-blank :
    (body : Bytes) → body_relaxed ((body ++ crlf) ++ crlf) ≡ body_relaxed (body ++ crlf)
unfolding body_relaxed
body_relaxed-blank body =
    let (a, p) = ends_with-front crlf (relax_lines [] (body ++ crlf)) (relax_lines-ends body []) in
    let longer : relax_lines [] ((body ++ crlf) ++ crlf) ≡ relax_lines [] (body ++ crlf) ++ crlf =
      rw (append_assoc body crlf crlf) (relax_lines-append body crlf [] ∙ rw lines_crlf refl) in
    rw (longer, p, chop_blank_lines-blank a)

-- For every body, the relaxed form is empty, or it ends with a line end, does not end with an empty
-- line and is not a lone line end; and empty lines added behind the last line do not change it.
pub body_relaxed_lem :
    (body : Bytes)
    → ((body_relaxed body ≡ [])
        ⊎ ((ends_with crlf (body_relaxed body) ≡ true)
            × (ends_with blank_line (body_relaxed body) ≡ false)
            × (¬ (body_relaxed body ≡ crlf))))
      × (body_relaxed ((body ++ crlf) ++ crlf) ≡ body_relaxed (body ++ crlf))
body_relaxed_lem body = (body_relaxed-ends body, body_relaxed-blank body)
