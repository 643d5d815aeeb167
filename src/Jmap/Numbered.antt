-- ===== src/Jmap/Numbered.antt =====
-- A batch keeps to the limit of the server, and its calls are told apart by their ids.
use mailove.Common.{
  ℕ, zero, suc, ◌+◌, ◌≤◌, ◌<◌, false, not, ◌&&◌, subst, ◌≡◌, ◌≢◌, refl, sym, ap, ◌∙◌, inl, inr,
  Option, none, some, List, [], ◌∷◌, ◌++◌, Bytes, All, ℤ, pos, negsuc, length, length-append,
  contains, is_empty, Bool-cases, arith,
}
use mailove.Jmap.{JsonFields}
use mailove.Jmap.Request.{Call, Batch, new_batch, use_capability, reaches, is_full, add_call}

abbrev tail_of : Bytes → Bytes
tail_of [] = []
tail_of (c ∷ cs) = cs

abbrev pub DistinctIds : List Call → Type 0
DistinctIds [] = Unit
DistinctIds (c ∷ calls) = All (λ d. d.id ≢ c.id) calls × DistinctIds calls

abbrev pub Within : Option ℤ → ℕ → Type 0
Within none n = Unit
Within (some (pos zero)) n = Unit
Within (some (pos (suc m))) n = n ≤ suc m
Within (some (negsuc m)) n = Unit

module _ (print_number : ℕ → Bytes) (limit : Option ℤ) where
  -- What a caller makes of a batch, call by call
  pub data Built : Batch → Type 0 where
    fresh : Built new_batch
    uses : {b : Batch} (uri : Bytes) → Built b → Built (use_capability uri b)
    adds :
        {b : Batch} (method : Bytes) (arguments : JsonFields)
        → Built b
        → Built (add_call print_number limit method arguments b).0

  -- The calls carry the numbers from `k` on.
  abbrev Numbered : ℕ → List Call → Type 0
  Numbered k [] = Unit
  Numbered k (c ∷ calls) = (c.id ≡ b'c' ∷ print_number k) × Numbered (suc k) calls

  record Kept (b : Batch) : Type 0 where
    numbered : Numbered 0 b.calls
    counted : length b.calls ≡ b.next_call_id
    within : Within limit (length b.calls)

  Numbered-last :
      (k : ℕ) (calls : List Call) (c : Call)
      → Numbered k calls
      → c.id ≡ b'c' ∷ print_number (k + length calls)
      → Numbered k (calls ++ (c ∷ []))
  Numbered-last k [] c h e = (subst (λ (n : ℕ). c.id ≡ b'c' ∷ print_number n) (omega arith) e, tt)
  Numbered-last k (d ∷ calls) c (g, h) e = (
    g,
    Numbered-last (suc k) calls c h
        (subst (λ (n : ℕ). c.id ≡ b'c' ∷ print_number n) (omega arith) e),
  )

  Within-suc :
      (l : Option ℤ) (n : ℕ) (b : Batch)
      → length b.calls ≡ n
      → is_full l b ≡ false
      → Within l (suc n)
  unfolding is_full reaches
  Within-suc none n b e h = tt
  Within-suc (some (pos zero)) n b e h = tt
  Within-suc (some (pos (suc m))) n b e h = ground arith
  Within-suc (some (negsuc m)) n b e h = tt

  add_call-Kept :
      (b : Batch) (method : Bytes) (arguments : JsonFields)
      → Kept b
      → Kept (add_call print_number limit method arguments b).0
  unfolding add_call
  add_call-Kept b method arguments h = elim (Bool-cases (is_full limit b)) [
    | inl e ↦ rw e h
    | inr e ↦ rw e record {
      numbered =
          Numbered-last 0 b.calls _ h.numbered
            (ap (λ (n : ℕ). b'c' ∷ print_number n) (sym (numbered_at h.counted)));
      counted = length-append b.calls _ ∙ omega (arith, h.counted);
      within =
          subst (Within limit) (sym (length-append b.calls _) ∙ refl)
            (subst (Within limit) (omega arith) (Within-suc limit (length b.calls) b refl e));
    }
  ]
    where
      numbered_at : {n k : ℕ} → n ≡ k → 0 + n ≡ k
      numbered_at e = omega (arith, e)

  use_capability-Kept : (uri : Bytes) (b : Batch) → Kept b → Kept (use_capability uri b)
  unfolding use_capability
  use_capability-Kept uri b h =
      elim (Bool-cases (not (is_empty uri) && not (contains uri b.used))) [
        | inl e ↦ rw e record { numbered = h.numbered; counted = h.counted; within = h.within }
        | inr e ↦ rw e h
      ]

  Within-zero : (l : Option ℤ) → Within l 0
  Within-zero none = tt
  Within-zero (some (pos zero)) = tt
  Within-zero (some (pos (suc m))) = omega arith
  Within-zero (some (negsuc m)) = tt

  Built-Kept : (b : Batch) → Built b → Kept b
  Built-Kept _ fresh = record { numbered = tt; counted = refl; within = Within-zero limit }
  Built-Kept _ (uses {b} uri h) = use_capability-Kept uri b (Built-Kept b h)
  Built-Kept _ (adds {b} method arguments h) = add_call-Kept b method arguments (Built-Kept b h)

  module _ (injective : (m n : ℕ) → print_number m ≡ print_number n → m ≡ n) where
    later-distinct :
        (k m : ℕ) (calls : List Call) (id : Bytes)
        → id ≡ b'c' ∷ print_number k
        → k < m
        → Numbered m calls
        → All (λ d. d.id ≢ id) calls
    later-distinct k m [] id e l h = tt
    later-distinct k m (d ∷ calls) id e l (g, h) = (
      λ same. absurd (omega (arith, l, injective m k (tail_path (sym g ∙ (same ∙ e))))),
      later-distinct k (suc m) calls id e (omega arith) h,
    )
      where
        tail_path : b'c' ∷ print_number m ≡ b'c' ∷ print_number k → print_number m ≡ print_number k
        tail_path = ap tail_of

    Numbered-distinct : (k : ℕ) (calls : List Call) → Numbered k calls → DistinctIds calls
    Numbered-distinct k [] h = tt
    Numbered-distinct k (c ∷ calls) (g, h) =
        (later-distinct k (suc k) calls c.id g (omega arith) h, Numbered-distinct (suc k) calls h)

    -- In every batch that is built call by call, no two calls have the same id and there are no more
    -- calls than the server's limit, if it states one, as long as Qt prints numbers apart.
    pub Built-distinct : (b : Batch) → Built b → DistinctIds b.calls × Within limit (length b.calls)
    Built-distinct b h =
        let k = Built-Kept b h in (Numbered-distinct 0 b.calls k.numbered, k.within)
