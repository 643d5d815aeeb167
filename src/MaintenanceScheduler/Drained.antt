-- ===== src/MaintenanceScheduler/Drained.antt =====
-- What is queued is written, once the writer gets to run.
use mailove.Common.{
  ℕ, zero, suc, ◌≤◌, Bool, true, false, ◌≡◌, refl, sym, ap, ◌∙◌, Option, none, some, List, [], ◌∷◌,
  ◌++◌, map, append-nil, length, take, drop, arith, if◌then◌else◌,
}
use mailove.MaintenanceScheduler.{
  WriterPhase, looping, asleep, writing, flushing, finished, Scheduler, no_bodies, start_writer,
  revive_thread, revive_body_writer, queue_body_write, take_batch, phase_step, run_body_writer,
  run_steps, is_idle,
}
use mailove.MaintenanceScheduler.Bodies.{in_hand, accounted, accounted-run_steps}

length-drop_le {ℓ} : {A : Type ℓ} (n : ℕ) (xs : List A) → length (drop n xs) ≤ length xs
length-drop_le zero xs = omega arith
length-drop_le (suc n) [] = omega arith
length-drop_le (suc n) (x ∷ xs) = omega (arith, length-drop_le n xs)

module _ {ℓ} {Body : Type ℓ} (externalize : Body → Body) where
  -- A writer at the test of its loop that nobody has asked to stop.
  abbrev at_work : Scheduler Body → List Body → List Body → Scheduler Body
  at_work s queue written = record s {
    queue = queue;
    written = written;
    stop = false;
    writer = some looping;
  }

  -- It gets to an empty queue: every two steps take a batch out of it.
  drains :
      (s : Scheduler Body) (k : ℕ) (queue written : List Body)
      → length queue ≤ k
      → (n : ℕ) × (all : List Body) × (run_steps externalize n (at_work s queue written)
          ≡ at_work s [] all)
  unfolding run_steps run_body_writer phase_step take_batch no_bodies
  drains s k [] written h = (0, written, refl)
  drains s zero (b ∷ queue) written h = elim (too_long h) [ ]
    where
      too_long : suc (length queue) ≤ 0 → ⊥
      too_long h = ground arith
  drains s (suc k) (b ∷ queue) written h =
      let (n, all, e) =
        drains s k (drop 24 queue) (written ++ map externalize (b ∷ take 24 queue))
          (omega (arith, length-drop_le 24 queue)) in
      (suc (suc n), all, e)

  drained :
      (s : Scheduler Body) (n : ℕ) (queue written all : List Body)
      → run_steps externalize n (at_work s queue written) ≡ at_work s [] all
      → all ≡ written ++ map externalize queue
  unfolding accounted in_hand
  drained s n queue written all e =
      sym (append-nil all)
      ∙ ap (accounted externalize) (sym e)
      ∙ accounted-run_steps externalize n (at_work s queue written)

  no_bodies-append : (queue : List Body) (b : Body) → no_bodies (queue ++ b ∷ []) ≡ false
  unfolding no_bodies
  no_bodies-append [] b = refl
  no_bodies-append (c ∷ queue) b = refl

  if_false : (c : Bool) (s t : Scheduler Body) → c ≡ false → (if c then s else t) ≡ t
  if_false true s t h = ground arith
  if_false false s t h = refl

  start_writer-queue :
      (s : Scheduler Body) (b : Body)
      → start_writer (record s { queue = s.queue ++ b ∷ [] })
        ≡ at_work s (s.queue ++ b ∷ []) s.written
  unfolding start_writer
  start_writer-queue s b = if_false (no_bodies (s.queue ++ b ∷ [])) _ _ (no_bodies-append s.queue b)

  revive_thread-idle :
      (w : Option (WriterPhase Body)) (s : Scheduler Body)
      → is_idle w ≡ true
      → revive_thread w s ≡ start_writer s
  unfolding revive_thread is_idle
  revive_thread-idle none s h = refl
  revive_thread-idle (some finished) s h = refl
  revive_thread-idle (some looping) s h = ground arith
  revive_thread-idle (some asleep) s h = ground arith
  revive_thread-idle (some (writing batch)) s h = ground arith
  revive_thread-idle (some (flushing rest)) s h = ground arith

  queue_body_write-starts :
      (s : Scheduler Body) (b : Body)
      → s.reclaiming ≡ false
      → is_idle s.writer ≡ true
      → queue_body_write b s ≡ at_work s (s.queue ++ b ∷ []) s.written
  unfolding queue_body_write revive_body_writer
  queue_body_write-starts s b h i =
      let t : Scheduler Body = record s { queue = s.queue ++ b ∷ [] } in
      if_false s.reclaiming t _ h ∙ revive_thread-idle s.writer t i ∙ start_writer-queue s b

  -- If the space is not being reclaimed and no writer is at work, a body that is queued starts one,
  -- and after finitely many of its steps this body and all that waited before it are written, in
  -- their order.
  pub queue_body_write-written :
      (s : Scheduler Body) (b : Body)
      → s.reclaiming ≡ false
      → is_idle s.writer ≡ true
      → (n : ℕ) × ((run_steps externalize n (queue_body_write b s)).written
          ≡ s.written ++ map externalize (s.queue ++ b ∷ []))
  queue_body_write-written s b h i =
      let queue = s.queue ++ b ∷ [] in
      let (n, all, e) = drains s (length queue) queue s.written (omega arith) in
      (
        n,
        ap (λ (t : Scheduler Body). (run_steps externalize n t).written)
              (queue_body_write-starts s b h i)
            ∙ ap (λ (t : Scheduler Body). t.written) e
            ∙ drained s n queue s.written all e,
      )
