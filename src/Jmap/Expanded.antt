-- ===== src/Jmap/Expanded.antt =====
-- A template is expanded part by part (expandTemplate); a value is not read as a template again.
use mailove.Common.{
  ℕ, zero, suc, ◌<◌, ◌≤◌, Bool, true, false, not, ◌&&◌, ◌≡◌, refl, sym, ap, ◌∙◌, Option, none, some,
  List, [], ◌∷◌, ◌++◌, Bytes, All, index_of, length, drop, take-length-append, length-append,
  append_assoc, ◌==◌, arith,
}
use mailove.Jmap.{UrlPlatform}
use mailove.Jmap.Templates.{
  template_string, expand_template, Variable, encoded_value, fill_braces, expand_from, expand_text,
}

abbrev pub lacks : ℕ → Bytes → Bool
lacks c [] = true
lacks c (x ∷ xs) = not (x == c) && lacks c xs

-- A template: text without an opening brace, and names without a closing one in braces.
pub data Part : Type 0 where
  literal : Bytes → Part
  named : Bytes → Part

unfoldable pub print_part : Part → Bytes
print_part (literal b) = b
print_part (named name) = b'{' ∷ (name ++ (b'}' ∷ []))

unfoldable pub print_parts : List Part → Bytes
unfolding print_part
print_parts [] = []
print_parts (part ∷ parts) = print_part part ++ print_parts parts

abbrev pub IsPlain : Part → Type 0
IsPlain (literal b) = lacks b'{' b ≡ true
IsPlain (named name) = lacks b'}' name ≡ true

-- The rest of a template past its last variable: a brace that opens there is never closed.
pub data IsTail : Bytes → Type 0 where
  no_brace : {b : Bytes} → lacks b'{' b ≡ true → IsTail b
  unclosed : {b : Bytes} → lacks b'}' b ≡ true → IsTail (b'{' ∷ b)

unfoldable pub fill_part : (Bytes → Bytes) → List Variable → Part → Bytes
unfolding encoded_value
fill_part percent_encode variables (literal b) = b
fill_part percent_encode variables (named name) = encoded_value percent_encode variables name

unfoldable pub fill : (Bytes → Bytes) → List Variable → List Part → Bytes
unfolding fill_part
fill percent_encode variables [] = []
fill percent_encode variables (part ∷ parts) =
    fill_part percent_encode variables part ++ fill percent_encode variables parts

index_of-lacks : (c : ℕ) (b : Bytes) → lacks c b ≡ true → index_of c b ≡ none
unfolding index_of
index_of-lacks c [] h = refl
index_of-lacks c (x ∷ xs) h = rw (index_of-lacks c xs (ground arith)) (ground arith)

index_of-append :
    (c : ℕ) (b rest : Bytes) → lacks c b ≡ true → index_of c (b ++ (c ∷ rest)) ≡ some (length b)
unfolding index_of
index_of-append c [] rest h = ground arith
index_of-append c (x ∷ xs) rest h = rw (index_of-append c xs rest (ground arith)) (ground arith)

drop-append : (b rest : Bytes) (x : ℕ) → drop (suc (length b)) (b ++ (x ∷ rest)) ≡ rest
drop-append [] rest x = refl
drop-append (y ∷ b) rest x = drop-append b rest x

regroup :
    (a : Bytes) (x : ℕ) (b rest : Bytes) → ((a ++ (x ∷ [])) ++ b) ++ rest ≡ a ++ (x ∷ (b ++ rest))
regroup a x b rest = append_assoc (a ++ (x ∷ [])) b rest ∙ append_assoc a (x ∷ []) (b ++ rest)

fill_braces-plain :
    (value next : Bytes → Bytes) (c : ℕ) (b : Bytes) (start : ℕ) (close : Option ℕ)
    → fill_braces value next (c ∷ b) (suc start) close ≡ c ∷ fill_braces value next b start close
unfolding fill_braces
fill_braces-plain value next c b start none = refl
fill_braces-plain value next c b start (some n) = refl

-- A byte that opens no variable is passed on.
expand_from-plain :
    (value next : Bytes → Bytes) (c : ℕ) (b : Bytes) (start : Option ℕ)
    → expand_from value next (c ∷ b) (elim start [ none ↦ none | some i ↦ some (suc i) ])
      ≡ c ∷ expand_from value next b start
unfolding expand_from
expand_from-plain value next c b none = refl
expand_from-plain value next c b (some start) =
    fill_braces-plain value next c b start (index_of b'}' (drop (suc start) b))

module _ (percent_encode : Bytes → Bytes) (variables : List Variable) where
  expand-plain :
      (fuel c : ℕ) (b : Bytes)
      → (c == b'{') ≡ false
      → expand_text percent_encode variables (suc fuel) (c ∷ b)
        ≡ c ∷ expand_text percent_encode variables (suc fuel) b
  unfolding expand_text index_of
  expand-plain fuel c b h =
      rw (expand_text, h)
        (expand_from-plain (encoded_value percent_encode variables)
          (expand_text percent_encode variables fuel) c b (index_of b'{' b))

  expand-literal :
      (fuel : ℕ) (a b : Bytes)
      → lacks b'{' a ≡ true
      → expand_text percent_encode variables (suc fuel) (a ++ b)
        ≡ a ++ expand_text percent_encode variables (suc fuel) b
  expand-literal fuel [] b h = refl
  expand-literal fuel (c ∷ a) b h =
      expand-plain fuel c (a ++ b) (ground arith)
      ∙ ap (◌∷◌ c) (expand-literal fuel a b (ground arith))

  expand-variable :
      (fuel : ℕ) (name b : Bytes)
      → lacks b'}' name ≡ true
      → expand_text percent_encode variables (suc fuel) (b'{' ∷ (name ++ (b'}' ∷ b)))
        ≡ encoded_value percent_encode variables name ++ expand_text percent_encode variables fuel b
  unfolding expand_text expand_from fill_braces index_of
  expand-variable fuel name b h =
      rw (expand_text, index_of-append b'}' name b h)
        (rw (take-length-append name (b'}' ∷ b)) (rw (drop-append name b b'}') refl))

  expand-tail :
      (fuel : ℕ) (b : Bytes) → IsTail b → expand_text percent_encode variables (suc fuel) b ≡ b
  unfolding expand_text expand_from fill_braces index_of
  expand-tail fuel b (no_brace h) = rw (expand_text, index_of-lacks b'{' b h) refl
  expand-tail fuel (_ ∷ b) (unclosed h) = rw (expand_text, index_of-lacks b'}' b h) refl

  unfoldable holes_of : List Part → ℕ
  holes_of [] = 0
  holes_of (literal b ∷ parts) = holes_of parts
  holes_of (named name ∷ parts) = suc (holes_of parts)

  expand-parts :
      (fuel : ℕ) (parts : List Part) (b : Bytes)
      → All IsPlain parts
      → IsTail b
      → holes_of parts < fuel
      → expand_text percent_encode variables fuel (print_parts parts ++ b)
        ≡ fill percent_encode variables parts ++ b
  unfolding print_parts fill holes_of
  expand-parts zero parts b plain tail h = absurd (omega arith)
  expand-parts (suc fuel) [] b plain tail h = expand-tail fuel b tail
  expand-parts (suc fuel) (literal a ∷ parts) b (p, plain) tail h =
      rw (append_assoc a (print_parts parts) b) (
        expand-literal fuel a _ p
        ∙ (ap (λ (t : Bytes). a ++ t) (expand-parts (suc fuel) parts b plain tail h)
            ∙ sym (append_assoc a _ b)))
  expand-parts (suc fuel) (named name ∷ parts) b (p, plain) tail h =
      ap (λ (t : Bytes). expand_text percent_encode variables (suc fuel) (b'{' ∷ t))
        (regroup name b'}' (print_parts parts) b)
      ∙ (expand-variable fuel name (print_parts parts ++ b) p
          ∙ (ap (λ (t : Bytes). encoded_value percent_encode variables name ++ t)
                (expand-parts fuel parts b plain tail (omega arith))
              ∙ sym (append_assoc (encoded_value percent_encode variables name) _ b)))

  holes_of-length : (parts : List Part) → holes_of parts ≤ length (print_parts parts)
  unfolding holes_of print_parts
  holes_of-length [] = omega arith
  holes_of-length (literal b ∷ parts) =
      omega (arith, length-append b (print_parts parts), holes_of-length parts)
  holes_of-length (named name ∷ parts) = omega (
    arith,
    length-append (b'{' ∷ (name ++ (b'}' ∷ []))) (print_parts parts),
    holes_of-length parts,
    length-append name (b'}' ∷ []),
  )

  -- the same for the text
  expand_text-parts :
      (parts : List Part) (b : Bytes)
      → All IsPlain parts
      → IsTail b
      → expand_text percent_encode variables
          (suc (length (print_parts parts ++ b)))
          (print_parts parts ++ b)
        ≡ fill percent_encode variables parts ++ b
  expand_text-parts parts b plain tail =
      expand-parts _ parts b plain tail
        (omega (arith, holes_of-length parts, length-append (print_parts parts) b))

-- A template that reads as plain parts and a tail, read with the fuel that the code gives itself,
-- becomes the address of the literals as they are, the encoded value of each variable in its place,
-- and the tail. The values may hold braces, and a variable that is not given is empty.
pub expand_template-parts :
    (p : UrlPlatform) (tpl : p.Url) (variables : List Variable) (parts : List Part) (b : Bytes)
    → All IsPlain parts
    → IsTail b
    → p.is_empty_url tpl ≡ false
    → template_string p tpl ≡ print_parts parts ++ b
    → expand_template p tpl variables ≡ p.parse_strict (fill p.percent_encode variables parts ++ b)
unfolding expand_template
expand_template-parts p tpl variables parts b plain tail h e =
    rw h
      (rw e (ap p.parse_strict (expand_text-parts p.percent_encode variables parts b plain tail)))
