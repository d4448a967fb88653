-- ===== src/Engine/Runs.antt =====
-- engine/internal/engine/engine.go: starting, cancelling and retrying a run.
pub mod Start
pub mod Commits
pub mod Idempotency
pub mod Retry
use oarlock.Prelude.{
  ℕ, suc, ◌+◌, ◌≡◌, Text, text_eq, codes, Bool, true, false, not, ◌&&◌, ◌||◌, Option, none, some,
  List, [], ◌∷◌, ◌++◌, leb, ◌==◌, select, if◌then◌else◌,
}
use oarlock.Prelude.Tables.{find, update, any_row}
use oarlock.Engine.Store.{
  RunStatus, TaskStatus, Workflow, Run, Task, Job, advance_run, execute_task, Db, Error, no_rows,
  unique_violation, other_workflow, already, not_retryable, Result, ok, err, ◌>>=◌, or_fail,
  run_by_id, is_live, is_terminal, of_step, new_task, insert_task, enqueue,
}

pub record RunOpts : Type 0 where
  pub trigger_id : Option ℕ
  pub idempotency_key : Text

-- What `StartRunOpts` returns when it commits.
pub record Started : Type 0 where
  pub run : ℕ
  pub created : Bool
  pub db : Db

unfoldable pub new_run : ℕ → ℕ → ℕ → ℕ → Text → Option ℕ → Option Text → Run
new_run id workspace workflow version input trigger key = record {
  id = id;
  workspace = workspace;
  workflow = workflow;
  version = version;
  trigger = trigger;
  status = RunStatus.queued;
  input = input;
  error = none;
  idempotency_key = key;
  started_at = none;
  finished_at = none;
}

abbrev has_key : Text → Option Text → Bool
has_key k none = false
has_key k (some j) = text_eq j k

-- `workspace_id = $1 and idempotency_key = $2`.
unfoldable pub keyed : ℕ → Text → Run → Bool
keyed workspace key r = r.workspace == workspace && has_key key r.idempotency_key

-- The inserted run with its first job, in one transaction.
unfoldable pub insert_run : Run → Db → Started
insert_run r db = record {
  run = r.id;
  created = true;
  db = record db {
    runs = r ∷ db.runs;
    jobs = advance_run r.id ∷ db.jobs;
    next_id = suc db.next_id;
  };
}

-- The key is taken: the row that has it is returned, if it is of this workflow.
unfoldable pub replay : ℕ → Run → Db → Result Started
replay workflow r db =
    if r.workflow == workflow
    then ok (record { run = r.id; created = false; db = db })
    else err other_workflow

-- The row of `select current_version_id …`: a workflow of the workspace with a version.
unfoldable pub deployed : ℕ → ℕ → Workflow → Bool
deployed workflow workspace w = w.id == workflow && w.workspace == workspace

-- `uuid` writes a UUID as text. `input` is the marshalled input.
module _ (uuid : ℕ → Text) where
  unfoldable pub scoped_key : ℕ → Text → Text
  scoped_key workflow key = uuid workflow ++ (codes ":" ++ key)

  unfoldable pub start_run_opts : ℕ → ℕ → Text → RunOpts → Db → Result Started
  unfolding new_run insert_run replay deployed keyed scoped_key find
  start_run_opts workspace workflow input opts db = do
    w ← or_fail (find (deployed workflow workspace) db.workflows) no_rows
    version ← or_fail w.current_version no_rows
    if text_eq opts.idempotency_key []
        then ok (
            insert_run (new_run db.next_id workspace workflow version input opts.trigger_id none)
              db)
        else (let key = scoped_key workflow opts.idempotency_key in
            elim (find (keyed workspace key) db.runs) [
              | some r ↦ replay workflow r db
              | none ↦ ok (
                  insert_run
                    (new_run db.next_id workspace workflow version input opts.trigger_id (some key))
                    db)
            ])

  unfoldable pub start_run : ℕ → ℕ → Text → Db → Result Started
  unfolding start_run_opts
  start_run workspace workflow input db =
      start_run_opts workspace workflow input (record { trigger_id = none; idempotency_key = [] })
        db

-- `where id = $1 and workspace_id = $2`.
abbrev pub in_workspace : ℕ → ℕ → Run → Bool
in_workspace run workspace r = r.id == run && r.workspace == workspace

abbrev pub canceled_run : ℕ → Run → Run
canceled_run now r = record r { status = RunStatus.canceled; finished_at = some now }

abbrev pub canceled_task : ℕ → Task → Task
canceled_task now t = record t { status = TaskStatus.canceled; finished_at = some now }

-- `where run_id = $1 and status in ('queued','running','suspended')`.
abbrev pub pending_of : ℕ → Task → Bool
pending_of run t = t.run == run && is_live t.status

unfoldable pub cancel_run : ℕ → ℕ → ℕ → Db → Result Db
unfolding find update
cancel_run workspace run now db = do
  r ← or_fail (find (in_workspace run workspace) db.runs) no_rows
  if is_terminal r.status
      then err (already r.status)
      else ok (record db {
        runs = update (run_by_id run) (canceled_run now) db.runs;
        tasks = update (pending_of run) (canceled_task now) db.tasks;
      })

-- The statuses "failed" and "canceled", of a run and of a task.
abbrev pub is_retryable : RunStatus → Bool
is_retryable RunStatus.failed = true
is_retryable RunStatus.canceled = true
is_retryable _ = false

abbrev pub is_failed : TaskStatus → Bool
is_failed TaskStatus.failed = true
is_failed TaskStatus.canceled = true
is_failed _ = false

-- No row of the step has a later attempt: the row that `distinct on` keeps.
unfoldable pub is_latest : List Task → Task → Bool
unfolding any_row of_step
is_latest ts t = not (any_row (λ u. of_step t.run t.step_key u && not (leb u.attempt t.attempt)) ts)

-- The rows to redo: the latest attempts of the run that failed or were canceled. The order of the
-- rows only decides the order of the inserts.
abbrev pub redo_row : ℕ → List Task → Task → Bool
redo_row run all t = t.run == run && (is_latest all t && is_failed t.status)

abbrev pub redos : ℕ → List Task → List Task
redos run ts = select (redo_row run ts) ts

-- The loop that inserts the next attempts, each with its job.
unfoldable pub redo_all : ℕ → ℕ → List Task → Db → Result Db
unfolding new_task insert_task
redo_all run workspace [] db = ok db
redo_all run workspace (r ∷ rs) db =
    let next = new_task db.next_id run workspace r.step_key (r.attempt + 1) TaskStatus.queued in
    insert_task next db >>= λ db'.
    redo_all run workspace rs (enqueue (execute_task next.id none) db')

abbrev pub rerun : Run → Run
rerun r = record r { status = RunStatus.running; finished_at = none; error = none }

unfoldable pub retry_run : ℕ → ℕ → Db → Result Db
unfolding find update is_latest redo_all
retry_run workspace run db = do
  r ← or_fail (find (in_workspace run workspace) db.runs) no_rows
  if not (is_retryable r.status)
      then err (not_retryable r.status)
      else (redo_all run workspace (redos run db.tasks)
            (record db { runs = update (run_by_id run) rerun db.runs })
          >>= λ db'. ok (enqueue (advance_run run) db'))
