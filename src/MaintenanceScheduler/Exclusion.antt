-- ===== src/MaintenanceScheduler/Exclusion.antt =====
-- While the cache is compacted, nothing else writes to it.
use mailove.Common.{
  ℕ, zero, suc, Bool, true, false, not, ◌&&◌, ◌||◌, ◌≡◌, refl, ap, subst, ◌∙◌, inl, inr, Option,
  none, some, List, [], ◌∷◌, ◌++◌, if◌then◌else◌, Bool-cases, arith,
}
use mailove.MaintenanceScheduler.{
  WriterPhase, looping, asleep, writing, flushing, finished, Scheduler, no_bodies, start_writer,
  revive_thread, revive_body_writer, queue_body_write, take_batch, phase_step, run_body_writer,
  run_steps, ask_to_stop, join_writer, stop_body_writer, is_idle, writers_idle,
  start_vacuum_when_writers_idle, reclaim_disk_space, start_attachment_migration, finish_vacuum,
  start_all_mail_purge,
}
use mailove.MaintenanceScheduler.Runs.{
  Runs, started, queued, worked, reclaimed, polled, compacted, migration_started, migration_ended,
  purge_started, purge_ended, paused, revived,
}

module _ {ℓ} {Body : Type ℓ} where
  -- No compaction runs, or no one else does.
  pub data Excludes (s : Scheduler Body) : Type 0 where
    apart : s.vacuuming ≡ false → Excludes s
    alone :
        s.reclaiming ≡ true
        → is_idle s.writer ≡ true
        → s.purging ≡ false
        → s.migrating ≡ false
        → Excludes s

module _ {ℓ} {Body : Type ℓ} (externalize : Body → Body) where
  Excludes-if :
      (b : Bool) (s t : Scheduler Body) → Excludes s → Excludes t → Excludes (if b then s else t)
  Excludes-if true s t e f = e
  Excludes-if false s t e f = f

  start_writer-vacuuming : (s : Scheduler Body) → (start_writer s).vacuuming ≡ s.vacuuming
  unfolding start_writer
  start_writer-vacuuming s = elim (Bool-cases (no_bodies s.queue)) [
    | inl h ↦ rw h refl
    | inr h ↦ rw h refl
  ]

  revive_thread-vacuuming :
      (w : Option (WriterPhase Body)) (s : Scheduler Body)
      → (revive_thread w s).vacuuming ≡ s.vacuuming
  unfolding revive_thread
  revive_thread-vacuuming none s = start_writer-vacuuming s
  revive_thread-vacuuming (some looping) s = refl
  revive_thread-vacuuming (some asleep) s = refl
  revive_thread-vacuuming (some (writing batch)) s = refl
  revive_thread-vacuuming (some (flushing rest)) s = refl
  revive_thread-vacuuming (some finished) s = start_writer-vacuuming s

  -- Nothing is revived while the space is reclaimed.
  if_true : (b : Bool) (s t : Scheduler Body) → b ≡ true → s ≡ (if b then s else t)
  if_true true s t h = refl
  if_true false s t h = ground arith

  revive_body_writer-Excludes : (s : Scheduler Body) → Excludes s → Excludes (revive_body_writer s)
  unfolding revive_body_writer
  revive_body_writer-Excludes s (apart h) =
      Excludes-if s.reclaiming s _ (apart h) (apart (revive_thread-vacuuming s.writer s ∙ h))
  revive_body_writer-Excludes s (alone r w p m) =
      subst Excludes (if_true s.reclaiming s _ r) (alone r w p m)

  busy : {b : Bool} → b ≡ false → b ≡ true → ⊥
  busy {b} h k = ground arith

  run_body_writer-Excludes :
      (s : Scheduler Body) (w : Option (WriterPhase Body))
      → s.writer ≡ w
      → Excludes s
      → Excludes (phase_step externalize w s)
  unfolding phase_step take_batch is_idle
  run_body_writer-Excludes s none e x = x
  run_body_writer-Excludes s (some finished) e x = x
  run_body_writer-Excludes s (some looping) e (apart h) =
      Excludes-if s.stop _ _ (apart h) (Excludes-if (no_bodies s.queue) _ _ (apart h) (apart h))
  run_body_writer-Excludes s (some asleep) e (apart h) =
      Excludes-if (no_bodies s.queue) _ _ (apart h) (apart h)
  run_body_writer-Excludes s (some (writing batch)) e (apart h) = apart h
  run_body_writer-Excludes s (some (flushing rest)) e (apart h) = apart h
  run_body_writer-Excludes s (some looping) e (alone r w p m) = elim (busy (ap is_idle e) w) [ ]
  run_body_writer-Excludes s (some asleep) e (alone r w p m) = elim (busy (ap is_idle e) w) [ ]
  run_body_writer-Excludes s (some (writing batch)) e (alone r w p m) =
      elim (busy (ap is_idle e) w) [ ]
  run_body_writer-Excludes s (some (flushing rest)) e (alone r w p m) =
      elim (busy (ap is_idle e) w) [ ]

  ask_to_stop-Excludes :
      (w : Option (WriterPhase Body)) (s : Scheduler Body) → Excludes s → Excludes (ask_to_stop w s)
  unfolding ask_to_stop
  ask_to_stop-Excludes none s x = x
  ask_to_stop-Excludes (some phase) s (apart h) = apart h
  ask_to_stop-Excludes (some phase) s (alone r w p m) = alone r w p m

  -- The writer's thread leaves the flags of the others.
  abbrev Keeps : Scheduler Body → Scheduler Body → Type 0
  Keeps s t = (t.reclaiming ≡ s.reclaiming) × (t.purging ≡ s.purging) × (t.migrating ≡ s.migrating)

  Keeps-if :
      (b : Bool) (r s t : Scheduler Body) → Keeps r s → Keeps r t → Keeps r (if b then s else t)
  Keeps-if true r s t e f = e
  Keeps-if false r s t e f = f

  phase_step-Keeps :
      (w : Option (WriterPhase Body)) (s : Scheduler Body) → Keeps s (phase_step externalize w s)
  unfolding phase_step take_batch
  phase_step-Keeps none s = (refl, refl, refl)
  phase_step-Keeps (some looping) s =
      Keeps-if s.stop s _ _ (refl, refl, refl)
        (Keeps-if (no_bodies s.queue) s _ _ (refl, refl, refl) (refl, refl, refl))
  phase_step-Keeps (some asleep) s =
      Keeps-if (no_bodies s.queue) s _ _ (refl, refl, refl) (refl, refl, refl)
  phase_step-Keeps (some (writing batch)) s = (refl, refl, refl)
  phase_step-Keeps (some (flushing rest)) s = (refl, refl, refl)
  phase_step-Keeps (some finished) s = (refl, refl, refl)

  run_steps-Keeps : (n : ℕ) (s : Scheduler Body) → Keeps s (run_steps externalize n s)
  unfolding run_steps run_body_writer
  run_steps-Keeps zero s = (refl, refl, refl)
  run_steps-Keeps (suc n) s =
      let (a, b, c) = phase_step-Keeps s.writer s in
      let (d, e, f) = run_steps-Keeps n (phase_step externalize s.writer s) in (d ∙ a, e ∙ b, f ∙ c)

  join_writer-Keeps :
      (w : Option (WriterPhase Body)) (s : Scheduler Body) → Keeps s (join_writer externalize w s)
  unfolding join_writer
  join_writer-Keeps none s = (refl, refl, refl)
  join_writer-Keeps (some phase) s = run_steps-Keeps 4 (record s { stop = true })

  join_writer-idle :
      (w : Option (WriterPhase Body)) (s : Scheduler Body)
      → s.writer ≡ w
      → is_idle (join_writer externalize w s).writer ≡ true
  unfolding join_writer is_idle
  join_writer-idle none s e = rw e refl
  join_writer-idle (some phase) s e = refl

  Excludes-when :
      (b : Bool) (s t : Scheduler Body)
      → (b ≡ true → Excludes s)
      → Excludes t
      → Excludes (if b then s else t)
  Excludes-when true s t e f = e refl
  Excludes-when false s t e f = f

  both_off : (p m i : Bool) → (not p && not m && i) ≡ true → (p ≡ false) × (m ≡ false)
  both_off p m i h = ground arith

  start_vacuum-Excludes :
      (s : Scheduler Body)
      → s.reclaiming ≡ true
      → Excludes s
      → Excludes (start_vacuum_when_writers_idle externalize s)
  unfolding start_vacuum_when_writers_idle stop_body_writer writers_idle
  start_vacuum-Excludes s r x =
      let (a, b, c) = join_writer-Keeps s.writer s in
      Excludes-when (writers_idle s) _ s
        (λ h.
          let (p, m) = both_off s.purging s.migrating (is_idle s.writer) h in
          alone (a ∙ r) (join_writer-idle s.writer s refl) (b ∙ p) (c ∙ m))
        x

  ask_to_stop-reclaiming :
      (w : Option (WriterPhase Body)) (s : Scheduler Body)
      → (ask_to_stop w s).reclaiming ≡ s.reclaiming
  unfolding ask_to_stop
  ask_to_stop-reclaiming none s = refl
  ask_to_stop-reclaiming (some phase) s = refl

  while_reclaiming : (s : Scheduler Body) → Excludes s → Excludes (record s { reclaiming = true })
  while_reclaiming s (apart h) = apart h
  while_reclaiming s (alone r w p m) = alone refl w p m

  reclaim_disk_space-Excludes :
      (s : Scheduler Body) → Excludes s → Excludes (reclaim_disk_space externalize s)
  unfolding reclaim_disk_space
  reclaim_disk_space-Excludes s x =
      let t : Scheduler Body = record s { reclaiming = true } in
      Excludes-if s.reclaiming s _ x (
        start_vacuum-Excludes (ask_to_stop s.writer t) (ask_to_stop-reclaiming s.writer t)
          (ask_to_stop-Excludes s.writer t (while_reclaiming s x)))

  start_attachment_migration-Excludes :
      (is_pending : Bool) (s : Scheduler Body)
      → Excludes s
      → Excludes (start_attachment_migration is_pending s)
  unfolding start_attachment_migration
  start_attachment_migration-Excludes is_pending s (apart h) =
      Excludes-if (s.migrating || s.reclaiming || not is_pending) _ _ (apart h) (apart h)
  start_attachment_migration-Excludes is_pending s (alone r w p m) =
      subst Excludes (if_true (s.migrating || s.reclaiming || not is_pending) s _ (ground arith))
        (alone r w p m)

  start_all_mail_purge-Excludes :
      (is_key_empty : Bool) (s : Scheduler Body)
      → Excludes s
      → Excludes (start_all_mail_purge is_key_empty s)
  unfolding start_all_mail_purge
  start_all_mail_purge-Excludes is_key_empty s (apart h) =
      Excludes-if (is_key_empty || s.purging || s.reclaiming) _ _ (apart h) (apart h)
  start_all_mail_purge-Excludes is_key_empty s (alone r w p m) =
      subst Excludes (if_true (is_key_empty || s.purging || s.reclaiming) s _ (ground arith))
        (alone r w p m)

  queued-Excludes :
      (s : Scheduler Body) (bs : List Body) → Excludes s → Excludes (record s { queue = bs })
  queued-Excludes s bs (apart h) = apart h
  queued-Excludes s bs (alone r w p m) = alone r w p m

  ended-Excludes :
      (s : Scheduler Body)
      → Excludes s
      → Excludes (record s { migrating = false }) × Excludes (record s { purging = false })
  ended-Excludes s (apart h) = (apart h, apart h)
  ended-Excludes s (alone r w p m) = (alone r w p refl, alone r w refl m)

  -- In every run, while the cache is compacted the space is being reclaimed, no writer of bodies is
  -- at work, and neither a purge nor a migration of attachments runs.
  pub Runs-Excludes : (bs : List Body) (s : Scheduler Body) → Runs externalize bs s → Excludes s
  unfolding queue_body_write run_body_writer finish_vacuum
  Runs-Excludes _ _ started = apart refl
  Runs-Excludes _ _ (queued {bs} {s} b r) =
      revive_body_writer-Excludes (record s { queue = s.queue ++ b ∷ [] })
        (queued-Excludes s (s.queue ++ b ∷ []) (Runs-Excludes bs s r))
  Runs-Excludes bs _ (worked {s = s} r) =
      run_body_writer-Excludes s s.writer refl (Runs-Excludes bs s r)
  Runs-Excludes bs _ (reclaimed {s = s} r) = reclaim_disk_space-Excludes s (Runs-Excludes bs s r)
  Runs-Excludes bs _ (polled {s = s} h k r) = start_vacuum-Excludes s h (Runs-Excludes bs s r)
  Runs-Excludes bs _ (compacted {s = s} is_pending h r) =
      start_attachment_migration-Excludes is_pending
        (record s { reclaiming = false; vacuuming = false }) (apart refl)
  Runs-Excludes bs _ (migration_started {s = s} is_pending r) =
      start_attachment_migration-Excludes is_pending s (Runs-Excludes bs s r)
  Runs-Excludes bs _ (migration_ended {s = s} r) = (ended-Excludes s (Runs-Excludes bs s r)).0
  Runs-Excludes bs _ (purge_started {s = s} is_key_empty r) =
      start_all_mail_purge-Excludes is_key_empty s (Runs-Excludes bs s r)
  Runs-Excludes bs _ (purge_ended {s = s} r) = (ended-Excludes s (Runs-Excludes bs s r)).1
  Runs-Excludes bs _ (paused {s = s} r) = ask_to_stop-Excludes s.writer s (Runs-Excludes bs s r)
  Runs-Excludes bs _ (revived {s = s} r) = revive_body_writer-Excludes s (Runs-Excludes bs s r)
