-- ===== src/Dkim/Canon/Headers.antt =====
-- The canonical form of a header field, against a description by words.
use mailove.Common.{
  ℕ, zero, suc, Bool, true, false, ◌&&◌, ◌||◌, List, [], ◌∷◌, ◌++◌, ◌≡◌, refl, sym, subst, ◌∙◌, inl,
  inr, ◌==◌, if◌then◌else◌, Bytes, crlf, equal, ends_with, split_cons, join, to_lower,
  to_lower_idem, Bool-cases, All, arith,
}
use mailove.Dkim.Canon.{
  is_wsp, relax_from, relax_whitespace, unfold_value, drop_spaces, chop_while, chop_spaces,
  header_relaxed,
}

-- No byte of a word is at the start of `cs`.
abbrev pub word_ends : Bytes → Bool
word_ends [] = true
word_ends (c ∷ cs) = is_wsp c

-- The maximal runs of bytes other than white space.
unfoldable pub words : Bytes → List Bytes
unfolding split_cons
words [] = []
words (c ∷ cs) =
    let rest = words cs in
    if is_wsp c then rest else if word_ends cs then (c ∷ []) ∷ rest else split_cons c rest

-- What the loop emits for words: a space in front if one is pending.
abbrev spaced : Bool → List Bytes → Bytes
spaced b [] = []
spaced true (w ∷ ws) = b' ' ∷ join b' ' (w ∷ ws)
spaced false (w ∷ ws) = join b' ' (w ∷ ws)

abbrev starts_wsp : Bytes → Bool
starts_wsp [] = false
starts_wsp (c ∷ cs) = is_wsp c

spaced-join :
    (b : Bool) (c : ℕ) (ws : List Bytes)
    → c ∷ spaced b ws ≡ join b' ' (if b then (c ∷ []) ∷ ws else split_cons c ws)
unfolding split_cons join
spaced-join true c [] = refl
spaced-join true c (w ∷ ws) = refl
spaced-join false c [] = refl
spaced-join false c (w ∷ []) = refl
spaced-join false c (w ∷ v ∷ ws) = refl

relax_from_step :
    (cs : Bytes) (c : ℕ)
    → c ∷ spaced (starts_wsp cs) (words cs)
      ≡ join b' ' (if word_ends cs then (c ∷ []) ∷ words cs else split_cons c (words cs))
unfolding words join split_cons
relax_from_step [] c = refl
relax_from_step (d ∷ cs) c = spaced-join (is_wsp d) c (words (d ∷ cs))

spaced_ne :
    (b pending : Bool) (c : ℕ) (ws : List Bytes)
    → spaced pending (if b then (c ∷ []) ∷ ws else split_cons c ws) ≡ (
        if pending
        then b' ' ∷ join b' ' (if b then (c ∷ []) ∷ ws else split_cons c ws)
        else join b' ' (if b then (c ∷ []) ∷ ws else split_cons c ws))
unfolding split_cons
spaced_ne true true c ws = refl
spaced_ne true false c ws = refl
spaced_ne false true c [] = refl
spaced_ne false true c (w ∷ ws) = refl
spaced_ne false false c [] = refl
spaced_ne false false c (w ∷ ws) = refl

relax_from-words :
    (u : Bytes) (pending : Bool) → relax_from pending u ≡ spaced (pending || starts_wsp u) (words u)
unfolding relax_from words
relax_from-words [] true = refl
relax_from-words [] false = refl
relax_from-words (c ∷ cs) pending = ground (
  arith,
  relax_from-words cs (is_wsp c),
  relax_from_step cs c,
  spaced_ne (word_ends cs) pending c (words cs),
)

relax_from-no_space :
    (u : Bytes) (pending : Bool) → ends_with (b' ' ∷ []) (relax_from pending u) ≡ false
unfolding relax_from ends_with equal
relax_from-no_space [] pending = refl
relax_from-no_space (c ∷ cs) pending = ground (arith, relax_from-no_space cs (is_wsp c))

chop_while_no :
    (fuel : ℕ) (suffix : Bytes) (n : ℕ) (b : Bytes)
    → ends_with suffix b ≡ false
    → chop_while fuel suffix n b ≡ b
unfolding chop_while
chop_while_no zero suffix n b h = refl
chop_while_no (suc fuel) suffix n b h = rw (h, chop_while)

-- No trailing white space is left for `while (v.endsWith(' '))` to chop.
pub chop_spaces-relax_whitespace :
    (u : Bytes) → chop_spaces (relax_whitespace u) ≡ relax_whitespace u
unfolding chop_spaces relax_whitespace
chop_spaces-relax_whitespace u = chop_while_no _ _ 1 _ (relax_from-no_space u false)

-- No word begins with a space.
drop_spaces-words : (u : Bytes) → drop_spaces (join b' ' (words u)) ≡ join b' ' (words u)
unfolding words drop_spaces join
drop_spaces-words [] = refl
drop_spaces-words (c ∷ cs) = ground (arith, drop_spaces-words cs, relax_from_step cs c)

drop_spaces-spaced :
    (b : Bool) (ws : List Bytes)
    → drop_spaces (join b' ' ws) ≡ join b' ' ws
    → drop_spaces (spaced b ws) ≡ join b' ' ws
unfolding drop_spaces join
drop_spaces-spaced b [] h = refl
drop_spaces-spaced true (w ∷ ws) h = h
drop_spaces-spaced false (w ∷ ws) h = h

-- The relaxed form of a header field is the lower-case name, a colon and the words of the unfolded
-- value with one space between them, for every name and value.
pub header_relaxed-words :
    (name value : Bytes)
    → header_relaxed name value
      ≡ to_lower name ++ (b':' ∷ (join b' ' (words (unfold_value value)) ++ crlf))
unfolding header_relaxed relax_whitespace
header_relaxed-words name value =
    let u = unfold_value value in
    rw (
      chop_spaces-relax_whitespace u,
      relax_from-words u false,
      drop_spaces-spaced (starts_wsp u) (words u) (drop_spaces-words u),
    )

-- A folding CRLF anywhere before white space leaves no trace.
unfold_value_step :
    (c d : ℕ) (cs : Bytes)
    → unfold_value (c ∷ d ∷ cs) ≡ (
        if c == b'\r' && d == b'\n'
        then unfold_value cs
        else if c == b'\n'
        then unfold_value (d ∷ cs)
        else c ∷ unfold_value (d ∷ cs))
unfolding unfold_value
unfold_value_step c d cs = ground arith

unfold_value-fold :
    (a : Bytes) (d : ℕ) (b : Bytes)
    → is_wsp d ≡ true
    → unfold_value (a ++ (b'\r' ∷ b'\n' ∷ d ∷ b)) ≡ unfold_value (a ++ (d ∷ b))
unfold_value-fold [] d b h = unfold_value_step b'\r' b'\n' (d ∷ b)
unfold_value-fold (x ∷ []) d b h = ground (
  arith,
  unfold_value_step x b'\r' (b'\n' ∷ d ∷ b),
  unfold_value_step b'\r' b'\n' (d ∷ b),
  unfold_value_step x d b,
)
unfold_value-fold (x ∷ y ∷ a) d b h = rw (
  unfold_value_step x y (a ++ (b'\r' ∷ b'\n' ∷ d ∷ b)),
  unfold_value_step x y (a ++ (d ∷ b)),
  unfold_value-fold a d b h,
  unfold_value-fold (y ∷ a) d b h,
)

-- A header field that is folded before white space, anywhere in its value, has the same relaxed
-- form as the field on one line.
pub header_relaxed-fold :
    (name a : Bytes) (d : ℕ) (b : Bytes)
    → is_wsp d ≡ true
    → header_relaxed name (a ++ (b'\r' ∷ b'\n' ∷ d ∷ b)) ≡ header_relaxed name (a ++ (d ∷ b))
unfolding header_relaxed
header_relaxed-fold name a d b h = rw (unfold_value-fold a d b h)

abbrev NoLf : Bytes → Type 0
NoLf = All (λ c. (c == b'\n') ≡ false)

unfold_value-NoLf : (b : Bytes) → NoLf (unfold_value b)
unfolding unfold_value
unfold_value-NoLf [] = tt
unfold_value-NoLf (c ∷ []) = ground arith
unfold_value-NoLf (c ∷ d ∷ cs) = ground (arith, unfold_value-NoLf cs, unfold_value-NoLf (d ∷ cs))

unfold_value-id : (b : Bytes) → NoLf b → unfold_value b ≡ b
unfolding unfold_value
unfold_value-id [] h = refl
unfold_value-id (c ∷ []) h = ground arith
unfold_value-id (c ∷ d ∷ cs) h = ground (arith, unfold_value-id (d ∷ cs) h.1)

spaced-NoLf : (b : Bool) (ws : List Bytes) → NoLf (join b' ' ws) → NoLf (spaced b ws)
unfolding join
spaced-NoLf b [] h = tt
spaced-NoLf true (w ∷ ws) h = (refl, h)
spaced-NoLf false (w ∷ ws) h = h

join-words-NoLf : (u : Bytes) → NoLf u → NoLf (join b' ' (words u))
unfolding words join
join-words-NoLf [] h = tt
join-words-NoLf (c ∷ cs) h = elim (Bool-cases (is_wsp c)) [
  | inl e ↦ ground (arith, join-words-NoLf cs h.1)
  | inr e ↦
      let p : NoLf (c ∷ spaced (starts_wsp cs) (words cs)) =
        (h.0, spaced-NoLf (starts_wsp cs) (words cs) (join-words-NoLf cs h.1)) in
      ground (arith, subst NoLf (relax_from_step cs c) p)
]

spaced-false : (ws : List Bytes) → spaced false ws ≡ join b' ' ws
unfolding join
spaced-false [] = refl
spaced-false (w ∷ ws) = refl

words-spaced-true :
    (ws : List Bytes)
    → words (join b' ' ws) ≡ ws
    → (words (spaced true ws) ≡ ws) × (word_ends (spaced true ws) ≡ true)
unfolding words join
words-spaced-true [] h = (refl, refl)
words-spaced-true (w ∷ ws) h = (h, refl)

word_ends-join :
    (cs : Bytes) (d : ℕ) → is_wsp d ≡ false → word_ends (join b' ' (words (d ∷ cs))) ≡ false
unfolding words
word_ends-join cs d h = ground (arith, relax_from_step cs d)

words-spaced :
    (cs : Bytes)
    → words (join b' ' (words cs)) ≡ words cs
    → (words (spaced (starts_wsp cs) (words cs)) ≡ words cs)
      × (word_ends (spaced (starts_wsp cs) (words cs)) ≡ word_ends cs)
unfolding join
words-spaced [] h = unfold words in (refl, refl)
words-spaced (d ∷ cs) h = elim (Bool-cases (is_wsp d)) [
  | inl e ↦ let (p, q) = words-spaced-true (words (d ∷ cs)) h in ground (arith, p, q)
  | inr e ↦ ground (arith, spaced-false (words (d ∷ cs)), word_ends-join cs d e)
]

-- The words of words joined by a space are those words.
words-join-words : (u : Bytes) → words (join b' ' (words u)) ≡ words u
unfolding words
words-join-words [] = unfold join in refl
words-join-words (c ∷ cs) = elim (Bool-cases (is_wsp c)) [
  | inl e ↦ ground (arith, words-join-words cs)
  | inr e ↦
      let (p, q) = words-spaced cs (words-join-words cs) in
      ground (arith, relax_from_step cs c, p, q)
]

-- Relaxing again changes nothing: the canonical name and value of a field are their own relaxed
-- form, for every name and value.
pub header_relaxed_idem :
    (name value : Bytes)
    → header_relaxed (to_lower name) (join b' ' (words (unfold_value value)))
      ≡ header_relaxed name value
header_relaxed_idem name value =
    let u = unfold_value value in
    let v = join b' ' (words u) in
    header_relaxed-words (to_lower name) v
    ∙ rw
        (
          to_lower_idem name,
          unfold_value-id v (join-words-NoLf u (unfold_value-NoLf value)),
          words-join-words u,
        )
        (sym (header_relaxed-words name value))
