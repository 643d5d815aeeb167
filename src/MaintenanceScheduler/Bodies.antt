-- ===== src/MaintenanceScheduler/Bodies.antt =====
-- No body is lost and none is written twice: what was queued is what is written, in hand or queued.
use mailove.Common.{
  ℕ, zero, suc, Bool, true, false, not, ◌||◌, ◌≡◌, refl, sym, ap, ◌∙◌, inl, inr, Option, none, some,
  List, [], ◌∷◌, ◌++◌, map, append-nil, append_assoc, take-append-drop, if◌then◌else◌, Bool-cases,
}
use mathlib.Core.List.{map-append}
use mailove.MaintenanceScheduler.{
  WriterPhase, looping, asleep, writing, flushing, finished, Scheduler, no_bodies, start_writer,
  revive_thread, revive_body_writer, queue_body_write, take_batch, phase_step, run_body_writer,
  run_steps, ask_to_stop, join_writer, stop_body_writer, writers_idle,
  start_vacuum_when_writers_idle, reclaim_disk_space, start_attachment_migration, finish_vacuum,
  start_all_mail_purge,
}
use mailove.MaintenanceScheduler.Draining.{run_steps-finished}

module _ {ℓ} {Body : Type ℓ} where
  unfoldable pub in_hand : Option (WriterPhase Body) → List Body
  in_hand none = []
  in_hand (some looping) = []
  in_hand (some asleep) = []
  in_hand (some (writing batch)) = batch
  in_hand (some (flushing rest)) = rest
  in_hand (some finished) = []

  -- Everything that was ever queued, as it is or will be written.
  unfoldable pub accounted : (Body → Body) → Scheduler Body → List Body
  unfolding in_hand
  accounted externalize s = s.written ++ map externalize (in_hand s.writer ++ s.queue)

module _ {ℓ} {Body : Type ℓ} (externalize : Body → Body) where
  accounted-if :
      (b : Bool) (s t : Scheduler Body) (bodies : List Body)
      → accounted externalize s ≡ bodies
      → accounted externalize t ≡ bodies
      → accounted externalize (if b then s else t) ≡ bodies
  accounted-if true s t bodies e f = e
  accounted-if false s t bodies e f = f

  accounted-start_writer :
      (s : Scheduler Body)
      → in_hand s.writer ≡ []
      → accounted externalize (start_writer s) ≡ accounted externalize s
  unfolding accounted start_writer
  accounted-start_writer s e = elim (Bool-cases (no_bodies s.queue)) [
    | inl h ↦ rw h (rw e refl)
    | inr h ↦ rw h (rw e refl)
  ]

  accounted-revive_thread :
      (s : Scheduler Body) (w : Option (WriterPhase Body))
      → s.writer ≡ w
      → accounted externalize (revive_thread w s) ≡ accounted externalize s
  unfolding revive_thread in_hand
  accounted-revive_thread s none e = accounted-start_writer s (rw e refl)
  accounted-revive_thread s (some looping) e = refl
  accounted-revive_thread s (some asleep) e = refl
  accounted-revive_thread s (some (writing batch)) e = refl
  accounted-revive_thread s (some (flushing rest)) e = refl
  accounted-revive_thread s (some finished) e = accounted-start_writer s (rw e refl)

  pub accounted-revive_body_writer :
      (s : Scheduler Body) → accounted externalize (revive_body_writer s) ≡ accounted externalize s
  unfolding revive_body_writer
  accounted-revive_body_writer s =
      accounted-if s.reclaiming s (revive_thread s.writer s) _ refl
        (accounted-revive_thread s s.writer refl)

  pub accounted-queue_body_write :
      (b : Body) (s : Scheduler Body)
      → accounted externalize (queue_body_write b s) ≡ accounted externalize s ++ externalize b ∷ []
  unfolding queue_body_write accounted
  accounted-queue_body_write b s =
      accounted-revive_body_writer (record s { queue = s.queue ++ b ∷ [] })
      ∙ ap (λ (bs : List Body). s.written ++ map externalize bs)
          (sym (append_assoc (in_hand s.writer) s.queue (b ∷ [])))
      ∙ ap (λ (bs : List Body). s.written ++ bs)
          (map-append externalize (in_hand s.writer ++ s.queue) (b ∷ []))
      ∙ sym (append_assoc s.written _ (externalize b ∷ []))

  accounted-take_batch :
      (s : Scheduler Body)
      → in_hand s.writer ≡ []
      → accounted externalize (take_batch s) ≡ accounted externalize s
  unfolding accounted take_batch
  accounted-take_batch s e =
      rw e (ap (λ (bs : List Body). s.written ++ map externalize bs) (take-append-drop 25 s.queue))

  accounted-written :
      (s : Scheduler Body) (batch : List Body)
      → (s.written ++ map externalize batch) ++ map externalize s.queue
        ≡ s.written ++ map externalize (batch ++ s.queue)
  accounted-written s batch =
      append_assoc s.written (map externalize batch) (map externalize s.queue)
      ∙ ap (λ (bs : List Body). s.written ++ bs) (sym (map-append externalize batch s.queue))

  accounted-phase_step :
      (s : Scheduler Body) (w : Option (WriterPhase Body))
      → s.writer ≡ w
      → accounted externalize (phase_step externalize w s) ≡ accounted externalize s
  unfolding accounted phase_step in_hand
  accounted-phase_step s none e = refl
  accounted-phase_step s (some looping) e = elim (Bool-cases s.stop) [
    | inl h ↦
        rw h (rw e (ap (λ (bs : List Body). s.written ++ map externalize bs) (append-nil s.queue)))
    | inr h ↦ elim (Bool-cases (no_bodies s.queue)) [
      | inl k ↦ rw h (rw k (rw e refl))
      | inr k ↦ rw h (rw k (accounted-take_batch s (rw e refl)))
    ]
  ]
  accounted-phase_step s (some asleep) e = elim (Bool-cases (no_bodies s.queue)) [
    | inl k ↦ rw k (rw e refl)
    | inr k ↦ rw k (accounted-take_batch s (rw e refl))
  ]
  accounted-phase_step s (some (writing batch)) e = rw e (accounted-written s batch)
  accounted-phase_step s (some (flushing rest)) e = rw e (accounted-written s rest)
  accounted-phase_step s (some finished) e = refl

  pub accounted-run_steps :
      (n : ℕ) (s : Scheduler Body)
      → accounted externalize (run_steps externalize n s) ≡ accounted externalize s
  unfolding run_steps run_body_writer
  accounted-run_steps zero s = refl
  accounted-run_steps (suc n) s =
      accounted-run_steps n (phase_step externalize s.writer s)
      ∙ accounted-phase_step s s.writer refl

  -- The other fields hold no bodies.
  pub accounted-flags :
      (s : Scheduler Body) (stop reclaiming vacuuming purging migrating : Bool)
      → accounted externalize record {
        queue = s.queue;
        stop = stop;
        writer = s.writer;
        written = s.written;
        reclaiming = reclaiming;
        vacuuming = vacuuming;
        purging = purging;
        migrating = migrating;
      }
        ≡ accounted externalize s
  unfolding accounted
  accounted-flags s stop reclaiming vacuuming purging migrating = refl

  pub accounted-ask_to_stop :
      (w : Option (WriterPhase Body)) (s : Scheduler Body)
      → accounted externalize (ask_to_stop w s) ≡ accounted externalize s
  unfolding accounted ask_to_stop
  accounted-ask_to_stop none s = refl
  accounted-ask_to_stop (some phase) s = refl

  accounted-deleted :
      (s : Scheduler Body)
      → s.writer ≡ some finished
      → accounted externalize (record s { writer = none }) ≡ accounted externalize s
  unfolding accounted in_hand
  accounted-deleted s e = rw e refl

  accounted-join_writer :
      (s : Scheduler Body) (w : Option (WriterPhase Body))
      → s.writer ≡ w
      → accounted externalize (join_writer externalize w s) ≡ accounted externalize s
  unfolding join_writer
  accounted-join_writer s none e = refl
  accounted-join_writer s (some phase) e =
      accounted-deleted (run_steps externalize 4 (record s { stop = true }))
        (run_steps-finished externalize (record s { stop = true }) phase refl e)
      ∙ accounted-run_steps 4 (record s { stop = true })
      ∙ accounted-flags s _ _ _ _ _

  pub accounted-start_vacuum :
      (s : Scheduler Body)
      → accounted externalize (start_vacuum_when_writers_idle externalize s)
        ≡ accounted externalize s
  unfolding start_vacuum_when_writers_idle stop_body_writer
  accounted-start_vacuum s =
      accounted-if (writers_idle s) _ s _
        (accounted-flags (join_writer externalize s.writer s) _ _ _ _ _
          ∙ accounted-join_writer s s.writer refl)
        refl

  pub accounted-reclaim_disk_space :
      (s : Scheduler Body)
      → accounted externalize (reclaim_disk_space externalize s) ≡ accounted externalize s
  unfolding reclaim_disk_space
  accounted-reclaim_disk_space s =
      let t : Scheduler Body = record s { reclaiming = true } in
      accounted-if s.reclaiming s _ _ refl (
        accounted-start_vacuum (ask_to_stop s.writer t)
        ∙ accounted-ask_to_stop s.writer t
        ∙ accounted-flags s _ _ _ _ _)

  pub accounted-start_attachment_migration :
      (is_pending : Bool) (s : Scheduler Body)
      → accounted externalize (start_attachment_migration is_pending s) ≡ accounted externalize s
  unfolding start_attachment_migration
  accounted-start_attachment_migration is_pending s =
      accounted-if (s.migrating || s.reclaiming || not is_pending) s _ _ refl
        (accounted-flags s _ _ _ _ _)

  pub accounted-finish_vacuum :
      (is_pending : Bool) (s : Scheduler Body)
      → accounted externalize (finish_vacuum is_pending s) ≡ accounted externalize s
  unfolding finish_vacuum
  accounted-finish_vacuum is_pending s =
      accounted-start_attachment_migration is_pending
        (record s { reclaiming = false; vacuuming = false })
      ∙ accounted-flags s _ _ _ _ _

  pub accounted-start_all_mail_purge :
      (is_key_empty : Bool) (s : Scheduler Body)
      → accounted externalize (start_all_mail_purge is_key_empty s) ≡ accounted externalize s
  unfolding start_all_mail_purge
  accounted-start_all_mail_purge is_key_empty s =
      accounted-if (is_key_empty || s.purging || s.reclaiming) s _ _ refl
        (accounted-flags s _ _ _ _ _)
