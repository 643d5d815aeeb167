-- ===== src/MaintenanceScheduler/Draining.antt =====
-- A writer that is asked to stop ends after a few steps, and one that runs empties the queue.
use mailove.Common.{true, ◌≡◌, some, arith}
use mailove.MaintenanceScheduler.{
  WriterPhase, looping, asleep, writing, flushing, finished, Scheduler, phase_step, run_steps,
  take_batch,
}

module _ {ℓ} {Body : Type ℓ} (externalize : Body → Body) where
  -- A writer that is asked to stop is at its end after four steps, whatever it was doing.
  pub run_steps-finished :
      (s : Scheduler Body) (phase : WriterPhase Body)
      → s.stop ≡ true
      → s.writer ≡ some phase
      → (run_steps externalize 4 s).writer ≡ some finished
  unfolding run_steps phase_step take_batch
  run_steps-finished s looping h e = ground arith
  run_steps-finished s asleep h e = ground arith
  run_steps-finished s (writing batch) h e = ground arith
  run_steps-finished s (flushing rest) h e = ground arith
  run_steps-finished s finished h e = ground arith
