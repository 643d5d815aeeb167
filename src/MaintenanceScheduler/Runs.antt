-- ===== src/MaintenanceScheduler/Runs.antt =====
-- The runs of the scheduler: what the user interface does, what the threads do and when they end, in
-- any order.
use mailove.Common.{Bool, true, false, ◌≡◌, refl, sym, ap, ◌∙◌, none, List, [], ◌∷◌, ◌++◌, map}
use mathlib.Core.List.{map-append}
use mailove.MaintenanceScheduler.{
  Scheduler, revive_body_writer, queue_body_write, run_body_writer, run_steps, ask_to_stop,
  start_vacuum_when_writers_idle, reclaim_disk_space, start_attachment_migration, finish_vacuum,
  start_all_mail_purge,
}
use mailove.MaintenanceScheduler.Bodies.{
  accounted, accounted-revive_body_writer, accounted-queue_body_write, accounted-run_steps,
  accounted-ask_to_stop, accounted-start_vacuum, accounted-reclaim_disk_space,
  accounted-start_attachment_migration, accounted-finish_vacuum, accounted-start_all_mail_purge,
}

module _ {ℓ} {Body : Type ℓ} where
  abbrev pub at_start : Scheduler Body
  at_start = record {
    queue = [];
    stop = false;
    writer = none;
    written = [];
    reclaiming = false;
    vacuuming = false;
    purging = false;
    migrating = false;
  }

  -- A run with the bodies that were queued in it. `polled` is the timer of a compaction that waits,
  -- `compacted` the end of one, `paused` and `revived` the two ends of a migration of the database.
  pub data Runs (externalize : Body → Body) : List Body → Scheduler Body → Type ℓ where
    started : Runs externalize [] at_start
    queued :
        {bs : List Body} {s : Scheduler Body} (b : Body)
        → Runs externalize bs s
        → Runs externalize (bs ++ b ∷ []) (queue_body_write b s)
    worked :
        {bs : List Body} {s : Scheduler Body}
        → Runs externalize bs s
        → Runs externalize bs (run_body_writer externalize s)
    reclaimed :
        {bs : List Body} {s : Scheduler Body}
        → Runs externalize bs s
        → Runs externalize bs (reclaim_disk_space externalize s)
    polled :
        {bs : List Body} {s : Scheduler Body}
        → s.reclaiming ≡ true
        → s.vacuuming ≡ false
        → Runs externalize bs s
        → Runs externalize bs (start_vacuum_when_writers_idle externalize s)
    compacted :
        {bs : List Body} {s : Scheduler Body} (is_pending : Bool)
        → s.vacuuming ≡ true
        → Runs externalize bs s
        → Runs externalize bs (finish_vacuum is_pending s)
    migration_started :
        {bs : List Body} {s : Scheduler Body} (is_pending : Bool)
        → Runs externalize bs s
        → Runs externalize bs (start_attachment_migration is_pending s)
    migration_ended :
        {bs : List Body} {s : Scheduler Body}
        → Runs externalize bs s
        → Runs externalize bs (record s { migrating = false })
    purge_started :
        {bs : List Body} {s : Scheduler Body} (is_key_empty : Bool)
        → Runs externalize bs s
        → Runs externalize bs (start_all_mail_purge is_key_empty s)
    purge_ended :
        {bs : List Body} {s : Scheduler Body}
        → Runs externalize bs s
        → Runs externalize bs (record s { purging = false })
    paused :
        {bs : List Body} {s : Scheduler Body}
        → Runs externalize bs s
        → Runs externalize bs (ask_to_stop s.writer s)
    revived :
        {bs : List Body} {s : Scheduler Body}
        → Runs externalize bs s
        → Runs externalize bs (revive_body_writer s)

module _ {ℓ} {Body : Type ℓ} (externalize : Body → Body) where
  -- In every run, the bodies that were queued are, in their order, those written, in the hands of
  -- the writer, and in the queue: none is lost, doubled or overtaken, whatever is paused meanwhile.
  pub Runs-accounted :
      (bs : List Body) (s : Scheduler Body)
      → Runs externalize bs s
      → accounted externalize s ≡ map externalize bs
  unfolding accounted run_body_writer run_steps
  Runs-accounted _ _ started = refl
  Runs-accounted _ _ (queued {bs} {s} b r) =
      accounted-queue_body_write externalize b s
      ∙ ap (λ (cs : List Body). cs ++ externalize b ∷ []) (Runs-accounted bs s r)
      ∙ sym (map-append externalize bs (b ∷ []))
  Runs-accounted bs _ (worked {s = s} r) =
      accounted-run_steps externalize 1 s ∙ Runs-accounted bs s r
  Runs-accounted bs _ (reclaimed {s = s} r) =
      accounted-reclaim_disk_space externalize s ∙ Runs-accounted bs s r
  Runs-accounted bs _ (polled {s = s} h k r) =
      accounted-start_vacuum externalize s ∙ Runs-accounted bs s r
  Runs-accounted bs _ (compacted {s = s} is_pending h r) =
      accounted-finish_vacuum externalize is_pending s ∙ Runs-accounted bs s r
  Runs-accounted bs _ (migration_started {s = s} is_pending r) =
      accounted-start_attachment_migration externalize is_pending s ∙ Runs-accounted bs s r
  Runs-accounted bs _ (migration_ended {s = s} r) = Runs-accounted bs s r
  Runs-accounted bs _ (purge_started {s = s} is_key_empty r) =
      accounted-start_all_mail_purge externalize is_key_empty s ∙ Runs-accounted bs s r
  Runs-accounted bs _ (purge_ended {s = s} r) = Runs-accounted bs s r
  Runs-accounted bs _ (paused {s = s} r) =
      accounted-ask_to_stop externalize s.writer s ∙ Runs-accounted bs s r
  Runs-accounted bs _ (revived {s = s} r) =
      accounted-revive_body_writer externalize s ∙ Runs-accounted bs s r
