-- ===== src/Tests/Writer.antt =====
-- Runs of the writer of message bodies; a body is a number.
use mailove.Common.{ℕ, true, false, ◌≡◌, refl, none, some, [], ◌∷◌, map}
use mailove.MaintenanceScheduler.{
  Scheduler, writing, flushing, finished, queue_body_write, run_body_writer, run_steps,
  reclaim_disk_space, is_idle, finish_vacuum, start_vacuum_when_writers_idle,
}
use mailove.MaintenanceScheduler.Bodies.{accounted}
use mailove.MaintenanceScheduler.Draining.{run_steps-finished}
use mailove.MaintenanceScheduler.Runs.{
  at_start, Runs, started, queued, worked, reclaimed, Runs-accounted,
}
use mailove.MaintenanceScheduler.Exclusion.{Excludes, Runs-Excludes}
use mailove.MaintenanceScheduler.Drained.{queue_body_write-written}

abbrev same_body : ℕ → ℕ
same_body b = b

-- A body arrives, the writer takes it, and the user asks for the space.
abbrev interrupted : Scheduler ℕ
interrupted = reclaim_disk_space same_body (run_body_writer same_body (queue_body_write 7 at_start))

interrupted-Runs : Runs same_body (7 ∷ []) interrupted
interrupted-Runs = reclaimed (worked (queued 7 started))

Runs-accounted_example : accounted same_body interrupted ≡ map same_body (7 ∷ [])
Runs-accounted_example = Runs-accounted same_body (7 ∷ []) interrupted interrupted-Runs

Runs-Excludes_example : Excludes interrupted
Runs-Excludes_example = Runs-Excludes same_body (7 ∷ []) interrupted interrupted-Runs

run_steps-finished_example : (run_steps same_body 4 interrupted).writer ≡ some finished
unfolding queue_body_write run_body_writer reclaim_disk_space
run_steps-finished_example = run_steps-finished same_body interrupted (writing (7 ∷ [])) refl refl

queue_body_write-written_example :
    (n : ℕ) × ((run_steps same_body n (queue_body_write 7 at_start)).written ≡ 7 ∷ [])
unfolding is_idle
queue_body_write-written_example = queue_body_write-written same_body at_start 7 refl refl

-- The compaction starts when the writer has ended, and ends.
abbrev compacted_cache : Scheduler ℕ
compacted_cache = start_vacuum_when_writers_idle same_body (run_steps same_body 3 interrupted)

-- A body that arrived during it is still queued after it, and there is no writer.
abbrev after_compaction : Scheduler ℕ
after_compaction = finish_vacuum false (queue_body_write 8 compacted_cache)

stranded_body :
    (compacted_cache.vacuuming ≡ true)
    × (after_compaction.reclaiming ≡ false)
    × (after_compaction.queue ≡ 8 ∷ [])
    × (after_compaction.writer ≡ none)
unfolding queue_body_write run_steps reclaim_disk_space start_vacuum_when_writers_idle finish_vacuum
stranded_body = (refl, refl, refl, refl)

-- A body that arrives while the writer flushes the rest is not taken by it, and starts no other.
abbrev late_body : Scheduler ℕ
late_body =
    run_body_writer same_body
      (queue_body_write 9 (record at_start { writer = some (flushing (7 ∷ [])); stop = true }))

late_body_left : (late_body.writer ≡ some finished) × (late_body.queue ≡ 9 ∷ [])
unfolding queue_body_write run_body_writer
late_body_left = (refl, refl)
