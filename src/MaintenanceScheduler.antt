-- ===== src/MaintenanceScheduler.antt =====
-- The writer of message bodies and the compaction of the cache (maintenancescheduler.cpp): the
-- queue that the user interface fills, the writer's thread, and the threads that must not run at the
-- same time. The cache is what has been written, in its order.
pub mod Bodies
pub mod Runs
pub mod Exclusion
pub mod Drained
pub mod Draining
use mailove.Common.{
  ℕ, zero, suc, Bool, true, false, not, ◌&&◌, ◌||◌, Option, none, some, List, [], ◌∷◌, ◌++◌, map,
  take, drop, if◌then◌else◌,
}

-- Where runBodyWriter stands: at the test of the loop, in the wait on the empty queue, with a batch
-- in hand, with the rest in hand after the loop, or at its end.
pub data WriterPhase {ℓ} (Body : Type ℓ) : Type ℓ where
  looping : WriterPhase Body
  asleep : WriterPhase Body
  writing : List Body → WriterPhase Body
  flushing : List Body → WriterPhase Body
  finished : WriterPhase Body

pub record Scheduler {ℓ} (Body : Type ℓ) : Type ℓ where
  pub queue : List Body
  pub stop : Bool
  -- m_bodyWriterThread
  pub writer : Option (WriterPhase Body)
  pub written : List Body
  pub reclaiming : Bool
  -- The cache is compacted, up to the call that ends it; m_purgeThread and m_migrateThread exist.
  pub vacuuming : Bool
  pub purging : Bool
  pub migrating : Bool

module _ {ℓ} {Body : Type ℓ} where
  unfoldable pub no_bodies : List Body → Bool
  no_bodies [] = true
  no_bodies (b ∷ bs) = false

  unfoldable pub start_writer : Scheduler Body → Scheduler Body
  unfolding no_bodies
  start_writer s =
      if no_bodies (s.queue)
      then record s { writer = none }
      else record s { stop = false; writer = some looping }

  -- A finished thread is joined and deleted; one that still runs is left.
  unfoldable pub revive_thread : Option (WriterPhase Body) → Scheduler Body → Scheduler Body
  unfolding start_writer
  revive_thread none s = start_writer s
  revive_thread (some finished) s = start_writer s
  revive_thread (some looping) s = s
  revive_thread (some asleep) s = s
  revive_thread (some (writing batch)) s = s
  revive_thread (some (flushing rest)) s = s

  unfoldable pub revive_body_writer : Scheduler Body → Scheduler Body
  unfolding revive_thread
  revive_body_writer s = if s.reclaiming then s else revive_thread (s.writer) s

  unfoldable pub queue_body_write : Body → Scheduler Body → Scheduler Body
  unfolding revive_body_writer
  queue_body_write b s = revive_body_writer (record s { queue = s.queue ++ b ∷ [] })

  -- At most 25 bodies go in one transaction.
  unfoldable pub take_batch : Scheduler Body → Scheduler Body
  take_batch s = record s { writer = some (writing (take 25 (s.queue))); queue = drop 25 (s.queue) }

  -- One step of the writer's thread, `externalize` being externalizeAttachments of one body.
  unfoldable pub phase_step :
      (Body → Body) → Option (WriterPhase Body) → Scheduler Body → Scheduler Body
  unfolding no_bodies take_batch
  phase_step externalize none s = s
  phase_step externalize (some looping) s =
      if s.stop
      then record s { writer = some (flushing (s.queue)); queue = [] }
      else if no_bodies (s.queue)
      then record s { writer = some asleep }
      else take_batch s
  phase_step externalize (some asleep) s =
      if no_bodies (s.queue) then record s { writer = some looping } else take_batch s
  phase_step externalize (some (writing batch)) s = record s {
    writer = some looping;
    written = s.written ++ map externalize batch;
  }
  phase_step externalize (some (flushing rest)) s = record s {
    writer = some finished;
    written = s.written ++ map externalize rest;
  }
  phase_step externalize (some finished) s = s

  unfoldable pub run_body_writer : (Body → Body) → Scheduler Body → Scheduler Body
  unfolding phase_step
  run_body_writer externalize s = phase_step externalize (s.writer) s

  -- The writer's thread alone.
  unfoldable pub run_steps : (Body → Body) → ℕ → Scheduler Body → Scheduler Body
  unfolding run_body_writer
  run_steps externalize zero s = s
  run_steps externalize (suc n) s = run_steps externalize n (run_body_writer externalize s)

  -- Asks the writer to stop, where there is one.
  unfoldable pub ask_to_stop : Option (WriterPhase Body) → Scheduler Body → Scheduler Body
  ask_to_stop none s = s
  ask_to_stop (some phase) s = record s { stop = true }

  -- The join: four steps are enough for a writer that is asked to stop.
  unfoldable pub join_writer :
      (Body → Body) → Option (WriterPhase Body) → Scheduler Body → Scheduler Body
  unfolding run_steps
  join_writer externalize none s = s
  join_writer externalize (some phase) s =
      record (run_steps externalize 4 (record s { stop = true })) { writer = none }

  unfoldable pub stop_body_writer : (Body → Body) → Scheduler Body → Scheduler Body
  unfolding join_writer
  stop_body_writer externalize s = join_writer externalize (s.writer) s

  unfoldable pub is_idle : Option (WriterPhase Body) → Bool
  is_idle none = true
  is_idle (some finished) = true
  is_idle (some looping) = false
  is_idle (some asleep) = false
  is_idle (some (writing batch)) = false
  is_idle (some (flushing rest)) = false

  unfoldable pub writers_idle : Scheduler Body → Bool
  unfolding is_idle
  writers_idle s = not (s.purging) && not (s.migrating) && is_idle (s.writer)

  -- If a writer is left, a timer calls it again.
  unfoldable pub start_vacuum_when_writers_idle : (Body → Body) → Scheduler Body → Scheduler Body
  unfolding writers_idle stop_body_writer
  start_vacuum_when_writers_idle externalize s =
      if writers_idle s then record (stop_body_writer externalize s) { vacuuming = true } else s

  unfoldable pub reclaim_disk_space : (Body → Body) → Scheduler Body → Scheduler Body
  unfolding ask_to_stop start_vacuum_when_writers_idle
  reclaim_disk_space externalize s =
      if s.reclaiming
      then s
      else start_vacuum_when_writers_idle externalize
          (ask_to_stop (s.writer) (record s { reclaiming = true }))

  -- Whether the store has attachments left to migrate is an argument.
  unfoldable pub start_attachment_migration : Bool → Scheduler Body → Scheduler Body
  start_attachment_migration is_pending s =
      if s.migrating || s.reclaiming || not is_pending then s else record s { migrating = true }

  -- The call that the compaction queues at its end.
  unfoldable pub finish_vacuum : Bool → Scheduler Body → Scheduler Body
  unfolding start_attachment_migration
  finish_vacuum is_pending s =
      start_attachment_migration is_pending (record s { reclaiming = false; vacuuming = false })

  unfoldable pub start_all_mail_purge : Bool → Scheduler Body → Scheduler Body
  start_all_mail_purge is_key_empty s =
      if is_key_empty || s.purging || s.reclaiming then s else record s { purging = true }
