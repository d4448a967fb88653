-- ===== src/Tests/Runs.antt =====
-- A run of the workflow, from its start to a cancel and a retry.
use oarlock.Prelude.{
  ◌≡◌, refl, ◌⊎◌, inl, inr, codes, text_eq, contains, Text, Bool, true, false, none, some, [], ◌∷◌,
  Memᴰ,
}
use oarlock.Prelude.Tables.{find, any_row}
use oarlock.Prelude.Int.{pos}
use oarlock.Json.{null}
use oarlock.Definition.{Step, Definition, validate}
use oarlock.Definition.Valid.{IsValid}
use oarlock.Definition.Valid.Whole.{validate-decides}
use oarlock.Engine.Store.{
  RunStatus, TaskStatus, Run, Task, advance_run, execute_task, Db, ok, err, invalid_json,
  task_by_id,
}
use oarlock.Engine.Context.{Guard, passes}
use oarlock.Engine.Runs.{Started, start_run_opts, cancel_run, retry_run}
use oarlock.Engine.Advance.{advance}
use oarlock.Engine.Advance.Liveness.{IsOver, IsBusy}
use oarlock.Engine.Advance.NoHang.{advance-no_hang}
use oarlock.Engine.Execute.{TaskRef, failed, finish, takes_result}
use oarlock.Engine.Ledger.{IsSound}
use oarlock.Engine.System.{
  starts, cancels, retries, advances, workflows_change, Reaches, here, onward, empty_db, Evolves,
  begin, moves, deletes, cascade, any_workflow,
}
use oarlock.Engine.System.Deletes.{Evolves-IsSound, Reaches-Evolves}
use oarlock.Engine.System.Forever.{finished-forever}
use oarlock.Engine.System.Commits.{finish-commits, retry_run-commits}
use oarlock.Tests.Fixtures.{pipeline, any_type, uuid, workflow, version, db_deployed, keyed_opts}

abbrev run_row : RunStatus → Run
run_row status = record {
  id = 0;
  workspace = 7;
  workflow = 1;
  version = 2;
  trigger = none;
  status = status;
  input = codes "{}";
  error = none;
  idempotency_key = some (0x01 ∷ codes ":order-1");
  started_at = none;
  finished_at = none;
}

abbrev pub db_started : Db
db_started = record db_deployed {
  runs = run_row RunStatus.queued ∷ [];
  jobs = advance_run 0 ∷ [];
  next_id = 1;
}

abbrev pub started : Started
started = record { run = 0; created = true; db = db_started }

pub start_makes_run : start_run_opts uuid 7 1 (codes "{}") keyed_opts db_deployed ≡ ok started
unfolding start_run_opts text_eq
start_makes_run = refl

abbrev pub always : Definition → Run → Step → Guard
always d r s = passes

abbrev pub fetch_row : TaskStatus → Task
fetch_row status = record {
  id = 1;
  run = 0;
  workspace = 7;
  step_key = codes "fetch";
  attempt = 1;
  status = status;
  input = none;
  output = none;
  error = none;
  started_at = none;
  finished_at = none;
}

abbrev pub db_advanced : Db
db_advanced = record db_started {
  runs = record (run_row RunStatus.running) { started_at = some 50 } ∷ [];
  tasks = fetch_row TaskStatus.queued ∷ [];
  jobs = execute_task 1 none ∷ advance_run 0 ∷ [];
  next_id = 2;
}

pub advance_queues_fetch : advance always 0 50 db_started ≡ ok db_advanced
unfolding advance text_eq contains
advance_queues_fetch = refl

pub advanced-Reaches : Reaches uuid empty_db db_advanced
advanced-Reaches =
    onward
      (onward (onward here (workflows_change (workflow ∷ []) (version ∷ []) []))
        (starts 7 1 (codes "{}") keyed_opts started start_makes_run))
      (advances always 0 50 advance_queues_fetch)

abbrev pub fetch_canceled : Task
fetch_canceled = record (fetch_row TaskStatus.canceled) { finished_at = some 60 }

abbrev pub run_canceled : Run
run_canceled = record (run_row RunStatus.canceled) { started_at = some 50; finished_at = some 60 }

abbrev pub db_canceled : Db
db_canceled = record db_advanced { runs = run_canceled ∷ []; tasks = fetch_canceled ∷ [] }

pub cancel_ends_run : cancel_run 7 0 60 db_advanced ≡ ok db_canceled
unfolding cancel_run
cancel_ends_run = refl

pub canceled-Reaches : Reaches uuid empty_db db_canceled
canceled-Reaches = onward advanced-Reaches (cancels 7 0 60 cancel_ends_run)

abbrev pub db_retried : Db
db_retried = record db_canceled {
  runs = record (run_row RunStatus.running) { started_at = some 50 } ∷ [];
  tasks = record (fetch_row TaskStatus.queued) { id = 2; attempt = 2 } ∷ fetch_canceled ∷ [];
  jobs = advance_run 0 ∷ execute_task 2 none ∷ execute_task 1 none ∷ advance_run 0 ∷ [];
  next_id = 3;
}

pub retry_queues_attempt : retry_run 7 0 db_canceled ≡ ok db_retried
unfolding retry_run text_eq
retry_queues_attempt = refl

pub canceled-Evolves : Evolves uuid any_workflow empty_db db_canceled
canceled-Evolves = Reaches-Evolves canceled-Reaches

-- The workflow is deleted at last, and its run goes with it.
abbrev db_deleted : Db
db_deleted = cascade 1 (record db_retried { workflows = []; versions = []; triggers = [] })

deleted_test : db_deleted.tasks ≡ []
unfolding cascade
deleted_test = refl

pipeline-IsValid : IsValid any_type pipeline
pipeline-IsValid = elim (validate-decides any_type pipeline) [
  | inl (e, v) ↦ v
  | inr (e, q, no') ↦ absurd (unfold validate text_eq contains in cc q)
]

advance-no_hang_example :
    (db' : Db) × (advance always 0 50 db_started ≡ ok db') × (IsOver 0 db' ⊎ IsBusy 0 db')
unfolding find
advance-no_hang_example =
    advance-no_hang always any_type 0 50 db_started (run_row RunStatus.queued) version pipeline refl
      refl refl pipeline-IsValid

Evolves-IsSound_example : IsSound 3 db_retried.tasks
Evolves-IsSound_example =
    Evolves-IsSound uuid any_workflow db_retried
      (moves canceled-Evolves (retries 7 0 retry_queues_attempt))

finished-forever_example :
    Memᴰ fetch_canceled db_retried.tasks
    × (Memᴰ fetch_canceled db_deleted.tasks ⊎ (any_row (task_by_id 1) db_deleted.tasks ≡ false))
finished-forever_example =
    finished-forever uuid db_canceled db_retried db_deleted canceled-Evolves
      (onward here (retries 7 0 retry_queues_attempt)) (deletes 1 [] [] [] refl begin)
      fetch_canceled refl (Memᴰ.head refl)

abbrev pub fetch_ref : TaskRef
fetch_ref = record {
  id = 1;
  run = 0;
  workspace = 7;
  step_key = codes "fetch";
  attempt = 1;
  retries = pos 2;
  redact = λ s. s;
}

abbrev pub takes_all : Text → Bool
takes_all text = true

finish-commits_example :
    ((db' : Db) × (finish takes_all fetch_ref (failed (codes "timeout")) null 70 db_advanced
        ≡ ok db'))
    ⊎ ((takes_result takes_all fetch_ref (failed (codes "timeout")) null ≡ false)
        × (finish takes_all fetch_ref (failed (codes "timeout")) null 70 db_advanced
            ≡ err invalid_json))
finish-commits_example =
    finish-commits uuid takes_all db_advanced fetch_ref (fetch_row TaskStatus.queued)
      (failed (codes "timeout")) null 70 (Reaches-Evolves advanced-Reaches) (Memᴰ.head refl)
      (refl, refl, refl, refl)

retry_run-commits_example : (db' : Db) × (retry_run 7 0 db_canceled ≡ ok db')
unfolding find
retry_run-commits_example =
    retry_run-commits uuid db_canceled 7 0 run_canceled canceled-Evolves refl refl
