-- ===== src/Tests/Operations.antt =====
-- The run of the workflow again: what its operations promise, at its rows.
use oarlock.Prelude.{◌≡◌, refl, ◌⊎◌, codes, text_eq, false, none, some, [], Memᴰ}
use oarlock.Prelude.Tables.{find}
use oarlock.Json.{null}
use oarlock.Definition.{Definition, step}
use oarlock.Engine.Store.{Version, TaskStatus, Run, advance_run, callback, ok, run_by_id, is_live}
use oarlock.Engine.Runs.{is_latest}
use oarlock.Engine.System.Quiet.Reached.{canceled-discards}
use oarlock.Engine.Runs.Retry.{Requeued, retry_run-Requeued}
use oarlock.Engine.Advance.{step_guard, version_by_id}
use oarlock.Engine.Advance.Starts.{ReadyStep, guard_status, advance-starts_ready}
use oarlock.Engine.Execute.{Suspend, claim, succeeded, finish_task, suspend_task}
use oarlock.Tests.Fixtures.{uuid}
use oarlock.Tests.Runs.{
  always, fetch_row, fetch_ref, db_started, db_advanced, advance_queues_fetch, db_canceled,
  fetch_canceled, run_canceled, canceled-Evolves, db_retried, retry_queues_attempt,
}

abbrev parked : Suspend
parked = record { kind = callback; resume_at = none; output = null }

canceled-discards_example :
    (is_live fetch_canceled.status ≡ false)
    × (claim fetch_ref null 80 db_canceled ≡ (db_canceled, false))
    × (finish_task fetch_ref succeeded null 80 db_canceled ≡ ok db_canceled)
    × (suspend_task fetch_ref parked [] [] db_canceled ≡ db_canceled)
unfolding find
canceled-discards_example =
    canceled-discards uuid db_canceled run_canceled fetch_canceled fetch_ref null null succeeded
      parked [] [] 80 canceled-Evolves refl refl (Memᴰ.head refl) (refl, refl, refl, refl)

retry_run-Requeued_example :
    Memᴰ (advance_run 0) db_retried.jobs × Requeued fetch_canceled db_retried
unfolding text_eq is_latest
retry_run-Requeued_example =
    retry_run-Requeued 7 0 db_canceled db_retried fetch_canceled retry_queues_attempt
      (Memᴰ.head refl) refl

advance-starts_ready_example :
    Memᴰ (fetch_row TaskStatus.queued) db_started.tasks
    ⊎ ((r : Run) × (v : Version) × (d : Definition) × (find (run_by_id 0) db_started.runs ≡ some r)
        × (find (version_by_id r.version) db_started.versions ≡ some v)
        × (v.definition ≡ some d)
        × ReadyStep d 0 db_started (codes "fetch")
        × ((fetch_row TaskStatus.queued).run ≡ 0)
        × ((fetch_row TaskStatus.queued).attempt ≡ 1)
        × (TaskStatus.queued ≡ guard_status (step_guard (always d r) (step d (codes "fetch")))))
advance-starts_ready_example =
    advance-starts_ready always 0 50 db_started db_advanced (fetch_row TaskStatus.queued)
      advance_queues_fetch (Memᴰ.head refl)
