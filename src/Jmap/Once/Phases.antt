-- ===== src/Jmap/Once/Phases.antt =====
-- Where a batch stands between `send` and the call of its callback, and what is owed on the way.
use mailove.Common.{
  ℕ, suc, ◌+◌, ◌≤◌, ◌<◌, Bool, true, false, ◌≡◌, refl, sym, ap, ◌∙◌, none, some, List, [], ◌∷◌,
  ◌++◌, append_assoc, if◌then◌else◌, arith,
}
use mailove.Jmap.{UrlPlatform}
use mailove.Jmap.Discovery.{JmapSession}
use mailove.Jmap.Sending.{JmapRequest, Delivery, posted, called, Turn, and_then, nothing}

-- Where a request stands after `send`: the reply to the first POST is waited for, the session's,
-- the reply to the second POST, or nothing.
pub data Phase : Type 0 where
  first : Phase
  renewing : Phase
  second : Phase
  over : Phase

unfoldable pub steps_left : Phase → ℕ
steps_left first = 3
steps_left renewing = 2
steps_left second = 1
steps_left over = 0

unfoldable pub posts_left : Phase → ℕ
posts_left first = 1
posts_left renewing = 1
posts_left second = 0
posts_left over = 0

-- The callback that is owed in a phase
unfoldable pub owed : {C : Type 0} → C → Phase → List C
owed done first = done ∷ []
owed done renewing = done ∷ []
owed done second = done ∷ []
owed done over = []

module _ {p : UrlPlatform} {C : Type 0} where
  -- The callbacks that are called, and the number of POSTs.
  unfoldable pub callbacks : List (Delivery p C) → List C
  callbacks [] = []
  callbacks (posted url authorization body ∷ ds) = callbacks ds
  callbacks (called done error responses message ∷ ds) = done ∷ callbacks ds

  unfoldable pub posts : List (Delivery p C) → ℕ
  posts [] = 0
  posts (posted url authorization body ∷ ds) = suc (posts ds)
  posts (called done error responses message ∷ ds) = posts ds

  pub callbacks-append :
      (ds es : List (Delivery p C)) → callbacks (ds ++ es) ≡ callbacks ds ++ callbacks es
  unfolding callbacks
  callbacks-append [] es = refl
  callbacks-append (posted _ _ _ ∷ ds) es = callbacks-append ds es
  callbacks-append (called done _ _ _ ∷ ds) es =
      ap (λ (cs : List C). done ∷ cs) (callbacks-append ds es)

  pub posts-append : (ds es : List (Delivery p C)) → posts (ds ++ es) ≡ posts ds + posts es
  unfolding posts
  posts-append [] es = omega arith
  posts-append (posted _ _ _ ∷ ds) es = omega (arith, posts-append ds es)
  posts-append (called _ _ _ _ ∷ ds) es = posts-append ds es

  pub data Stands (done : C) (s : JmapSession p) (r : JmapRequest C) : Phase → Type 0 where
    at_first :
        r.done ≡ some done → r.in_flight ≡ some false → r.listening ≡ 0 → Stands done s r first
    at_renewing :
        r.done ≡ some done
        → r.in_flight ≡ none
        → r.listening ≡ 1
        → s.is_waiting ≡ true
        → Stands done s r renewing
    at_second :
        r.done ≡ some done → r.in_flight ≡ some true → r.listening ≡ 0 → Stands done s r second
    at_over : r.done ≡ none → r.in_flight ≡ none → r.listening ≡ 0 → Stands done s r over

  -- A turn that owes `done`: what it called and what it still owes is `done` once, it has fewer steps
  -- left than `steps`, and it posted no more than the POSTs that it took off `allowed`.
  pub record Fair (done : C) (steps allowed : ℕ) (t : Turn p C) : Type 0 where
    pub phase : Phase
    pub stands : Stands done t.session t.request phase
    pub told : callbacks t.deliveries ++ owed done phase ≡ done ∷ []
    pub fewer : steps_left phase < steps
    pub spared : posts t.deliveries + posts_left phase ≤ allowed

  pub Fair-if :
      {done : C} {steps allowed : ℕ} (b : Bool) (x y : Turn p C)
      → Fair done steps allowed x
      → Fair done steps allowed y
      → Fair done steps allowed (if b then x else y)
  Fair-if true x y h k = h
  Fair-if false x y h k = k

  -- What a turn owes after a phase: the callbacks that it called and the one that it still owes are
  -- those that were owed, and no POST is made beyond those that were left.
  pub record Moves (done : C) (before : Phase) (steps : ℕ) (t : Turn p C) : Type 0 where
    pub phase : Phase
    pub stands : Stands done t.session t.request phase
    pub told : callbacks t.deliveries ++ owed done phase ≡ owed done before
    pub fewer : steps_left phase ≤ steps
    pub spared : posts t.deliveries + posts_left phase ≤ posts_left before

  pub Moves-and_then :
      (done : C) (before : Phase) (steps later : ℕ) (t : Turn p C)
      (f : JmapSession p → JmapRequest C → Turn p C)
      → Moves done before steps t
      → ((phase : Phase)
          → steps_left phase ≤ steps
          → Stands done t.session t.request phase
          → Moves done phase later (f t.session t.request))
      → Moves done before later (and_then t f)
  unfolding and_then
  Moves-and_then done before steps later t f m next =
      let n = next m.phase m.fewer m.stands in
      let u = f t.session t.request in
      record {
        phase = n.phase;
        stands = n.stands;
        told =
            ap (λ (cs : List C). cs ++ owed done n.phase)
              (callbacks-append t.deliveries u.deliveries)
            ∙ (append_assoc (callbacks t.deliveries) _ _
                ∙ (ap (λ (cs : List C). callbacks t.deliveries ++ cs) n.told ∙ m.told));
        fewer = n.fewer;
        spared = omega (arith, posts-append t.deliveries u.deliveries, n.spared, m.spared);
      }

  pub stay :
      (done : C) (phase : Phase) (s : JmapSession p) (r : JmapRequest C)
      → Stands done s r phase
      → Moves done phase (steps_left phase) (nothing s r)
  unfolding nothing callbacks posts
  stay done phase s r h = record {
    phase = phase;
    stands = h;
    told = refl;
    fewer = omega arith;
    spared = omega arith;
  }

  pub from_fair :
      (done : C) (before : Phase) (steps : ℕ) (t : Turn p C)
      → owed done before ≡ done ∷ []
      → Fair done (suc steps) (posts_left before) t
      → Moves done before steps t
  from_fair done before steps t e f = record {
    phase = f.phase;
    stands = f.stands;
    told = f.told ∙ sym e;
    fewer = omega (arith, f.fewer);
    spared = f.spared;
  }

  pub Moves-later :
      {done : C} {phase : Phase} {steps : ℕ} (later : ℕ) {t : Turn p C}
      → Moves done phase steps t
      → steps ≤ later
      → Moves done phase later t
  Moves-later later m h = record {
    phase = m.phase;
    stands = m.stands;
    told = m.told;
    fewer = omega (arith, m.fewer);
    spared = m.spared;
  }
