-- ===== src/SpamHeuristics/Angles.antt =====
-- The address of a mailbox value is the one in its last angle brackets outside of quotes.
use mailove.Common.{
  ℕ, suc, ◌+◌, ◌-◌, Bool, true, false, not, ◌&&◌, ◌≡◌, refl, ap, ◌∙◌, inl, inr, Option, none, some,
  [], ◌∷◌, ◌++◌, Bytes, All, length, drop, take-length-append, ltb, ◌==◌, Bool-cases, arith,
}
use mailove.SpamHeuristics.{SpamPlatform}
use mailove.SpamHeuristics.Mailbox.{
  MailboxScan, unscanned, is_here, scan_step, scan_mailbox, address_in, inner_text, unquoted_name,
  split_at, split_mailbox,
}

-- Read from inside quotes or from outside, the text ends outside, and not at a backslash.
pub data Closes : Bool → Bytes → Type 0 where
  closed : Closes false []
  escaped_char : {q : Bool} {c : ℕ} {cs : Bytes} → Closes q cs → Closes q (92 ∷ c ∷ cs)
  quote : {q : Bool} {cs : Bytes} → Closes (not q) cs → Closes q (b'"' ∷ cs)
  plain_char :
      {q : Bool} {c : ℕ} {cs : Bytes}
      → (c == 92) ≡ false
      → (c == b'"') ≡ false
      → Closes q cs
      → Closes q (c ∷ cs)

-- No character of it means anything to the scan.
abbrev pub IsPlain : ℕ → Type 0
IsPlain c =
    ((c == 92) ≡ false) × ((c == b'"') ≡ false) × ((c == b'<') ≡ false) × ((c == b'>') ≡ false)

abbrev pub IsNoOpening : ℕ → Type 0
IsNoOpening c = (c == b'<') ≡ false

-- The scan at no backslash.
abbrev reading : Bool → Option ℕ → Option ℕ → MailboxScan
reading q o k = record { escaped = false; in_quotes = q; angle_open = o; angle_close = k }

-- The brackets noted after a character without effect on quotes.
scan_step-plain :
    (i : ℕ) (q : Bool) (o k : Option ℕ) (c : ℕ)
    → (c == 92) ≡ false
    → ((c == b'"') ≡ false)
    → (o' : Option ℕ) × (k' : Option ℕ) × (scan_step i (reading q o k) c ≡ reading q o' k')
unfolding scan_step
scan_step-plain i true o k c h g = (o, k, ground arith)
scan_step-plain i false o k c h g = elim (Bool-cases (c == b'<')) [
  | inl e ↦ (some i, none, ground arith)
  | inr e ↦ elim (Bool-cases (c == b'>' && is_here o && not (is_here k))) [
    | inl f ↦ (o, some i, ground arith)
    | inr f ↦ (o, k, ground arith)
  ]
]

plain_step :
    (i o c : ℕ)
    → (c == 92) ≡ false
    → (c == b'"') ≡ false
    → (c == b'<') ≡ false
    → ((c == b'>') ≡ false)
    → scan_step i (reading false (some o) none) c ≡ reading false (some o) none
unfolding scan_step is_here
plain_step i o c h g l r = ground arith

moved :
    (i j : ℕ) (s : MailboxScan) (rest : Bytes)
    → i ≡ j
    → scan_mailbox i s rest ≡ scan_mailbox j s rest
moved i j s rest e = ap (λ (n : ℕ). scan_mailbox n s rest) e

scan_mailbox_closed :
    (i : ℕ) (q : Bool) (before rest : Bytes) (o k : Option ℕ)
    → Closes q before
    → (o' : Option ℕ) × (k' : Option ℕ) × (scan_mailbox i (reading q o k) (before ++ rest)
        ≡ scan_mailbox (i + length before) (reading false o' k') rest)
unfolding scan_mailbox
scan_mailbox_closed i _ _ rest o k closed = (o, k, ground arith)
scan_mailbox_closed i q _ rest o k (escaped_char {cs = cs} c) =
    let (o', k', e) = scan_mailbox_closed (suc (suc i)) q cs rest o k c in
    (o', k', e ∙ moved (suc (suc i) + length cs) (i + suc (suc (length cs))) _ rest (omega arith))
scan_mailbox_closed i q _ rest o k (quote {cs = cs} c) =
    let (o', k', e) = scan_mailbox_closed (suc i) (not q) cs rest o k c in
    (o', k', e ∙ moved (suc i + length cs) (i + suc (length cs)) _ rest (omega arith))
scan_mailbox_closed i q _ rest o k (plain_char {c = x} {cs = cs} h g c) =
    let (a, b, f) = scan_step-plain i q o k x h g in
    let (o', k', e) = scan_mailbox_closed (suc i) q cs rest a b c in
    (
      o',
      k',
      ap (λ (s : MailboxScan). scan_mailbox (suc i) s (cs ++ rest)) f
          ∙ e
          ∙ moved (suc i + length cs) (i + suc (length cs)) _ rest (omega arith),
    )

-- Plain characters, and after both brackets any but an opening one, leave the brackets.
scan_mailbox-plain :
    (i o : ℕ) (inner rest : Bytes)
    → All IsPlain inner
    → scan_mailbox i (reading false (some o) none) (inner ++ rest)
      ≡ scan_mailbox (i + length inner) (reading false (some o) none) rest
unfolding scan_mailbox
scan_mailbox-plain i o [] rest a = moved i (i + 0) _ rest (omega arith)
scan_mailbox-plain i o (x ∷ inner) rest ((h, g, l, r), a) =
    ap (λ (s : MailboxScan). scan_mailbox (suc i) s (inner ++ rest)) (plain_step i o x h g l r)
    ∙ scan_mailbox-plain (suc i) o inner rest a
    ∙ moved (suc i + length inner) (i + suc (length inner)) _ rest (omega arith)

-- The scan with both brackets noted.
abbrev bracketed : ℕ → ℕ → Bool → Bool → MailboxScan
bracketed o k a b = record { escaped = a; in_quotes = b; angle_open = some o; angle_close = some k }

after_step :
    (i o k : ℕ) (a b : Bool) (c : ℕ)
    → ((c == b'<') ≡ false)
    → (a' : Bool) × (b' : Bool) × (scan_step i (bracketed o k a b) c ≡ bracketed o k a' b')
unfolding scan_step is_here
after_step i o k true b c n = (false, b, refl)
after_step i o k false b c n = elim (Bool-cases (c == 92)) [
  | inl e ↦ (true, b, rw e refl)
  | inr e ↦ elim (Bool-cases (c == b'"')) [
    | inl f ↦ (false, not b, rw e (rw f refl))
    | inr f ↦ (false, b, ground arith)
  ]
]

scan_mailbox-after :
    (i o k : ℕ) (a b : Bool) (after : Bytes)
    → All IsNoOpening after
    → (a' : Bool) × (b' : Bool) × (scan_mailbox i (bracketed o k a b) after ≡ bracketed o k a' b')
unfolding scan_mailbox
scan_mailbox-after i o k a b [] t = (a, b, refl)
scan_mailbox-after i o k a b (c ∷ after) (n, t) =
    let (x, y, e) = after_step i o k a b c n in
    let (a', b', f) = scan_mailbox-after (suc i) o k x y after t in
    (a', b', ap (λ (s : MailboxScan). scan_mailbox (suc i) s after) e ∙ f)

-- The whole value: what the two brackets are taken to be.
scan_value :
    (before inner after : Bytes)
    → Closes false before
    → All IsPlain inner
    → All IsNoOpening after
    → (a : Bool) × (b : Bool) × (scan_mailbox 0 unscanned
          (before ++ (b'<' ∷ inner ++ (b'>' ∷ after)))
        ≡ bracketed (length before) (length before + 1 + length inner) a b)
unfolding scan_mailbox
scan_value before inner after c p n =
    let o = length before in
    let (o', k', e) =
      scan_mailbox_closed 0 false before (b'<' ∷ inner ++ (b'>' ∷ after)) none none c in
    let start =
      moved (0 + o) o (reading false o' k') (b'<' ∷ inner ++ (b'>' ∷ after)) (omega arith) in
    let middle = scan_mailbox-plain (suc o) o inner (b'>' ∷ after) p in
    let (a, b, f) =
      scan_mailbox-after (suc (suc o + length inner)) o (suc o + length inner) false false after
        n in
    let end : bracketed o (suc o + length inner) a b ≡ bracketed o (o + 1 + length inner) a b =
      ap (λ (k : ℕ). bracketed o k a b) (omega arith) in
    (a, b, e ∙ (start ∙ (middle ∙ (f ∙ end))))

drop-suc : (xs : Bytes) (c : ℕ) (ys : Bytes) → drop (suc (length xs)) (xs ++ c ∷ ys) ≡ ys
drop-suc [] c ys = refl
drop-suc (x ∷ xs) c ys = drop-suc xs c ys

inner_text-value :
    (before inner after : Bytes)
    → inner_text
        (length before)
        (some (length before + 1 + length inner))
        (before ++ (b'<' ∷ inner ++ (b'>' ∷ after)))
      ≡ inner
unfolding inner_text
inner_text-value before inner after =
    let o = length before in
    let rest = drop-suc before b'<' (inner ++ (b'>' ∷ after)) in
    let n : o + 1 + length inner - o - 1 ≡ length inner = omega arith in
    let h : ltb o (o + 1 + length inner) ≡ true = ground arith in
    rw (h, rest, n) (take-length-append inner (b'>' ∷ after))

-- Of a value with a part outside of quotes in angle brackets and no opening bracket after it, the
-- address is looked for in that part alone, and the name is what stands before it: an address in a
-- quoted name is never taken.
pub split_mailbox-angles :
    (p : SpamPlatform) (before inner after : Bytes)
    → Closes false before
    → All IsPlain inner
    → All IsNoOpening after
    → split_mailbox p (before ++ (b'<' ∷ inner ++ (b'>' ∷ after)))
      ≡ (unquoted_name p before, address_in p inner)
unfolding split_mailbox split_at
split_mailbox-angles p before inner after c h n =
    let value = before ++ (b'<' ∷ inner ++ (b'>' ∷ after)) in
    let (a, b, e) = scan_value before inner after c h n in
    let rest = b'<' ∷ inner ++ (b'>' ∷ after) in
    ap (λ (s : MailboxScan). split_at p s.angle_open s.angle_close value) e
    ∙ ap
        (λ (t : Bytes). (
          unquoted_name p t,
          address_in p (inner_text (length before) (some (length before + 1 + length inner)) value),
        ))
        (take-length-append before rest)
    ∙ ap (λ (t : Bytes). (unquoted_name p before, address_in p t))
        (inner_text-value before inner after)
