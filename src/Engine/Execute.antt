-- ===== src/Engine/Execute.antt =====
-- engine/internal/engine/execute.go: claiming a task, finishing it and parking it.
use oarlock.Prelude.{
  ℕ, ◌+◌, ◌-◌, ◌*◌, ◌%◌, ◌^◌, ltb, Text, codes, Bool, true, false, not, ◌&&◌, Option, none, some,
  List, ◌∷◌, ◌++◌, ◌==◌, if◌then◌else◌,
}
use oarlock.Prelude.Int.{ℤ, nat_le}
use oarlock.Prelude.Tables.{update, any_row}
use oarlock.Json.{Value, str, obj, Fields, end, put, put_all, marshal, message_json}
use oarlock.Engine.Store.{
  TaskStatus, Task, Kind, delay, callback, Job, advance_run, execute_task, resume_task, Db, Result,
  ok, err, invalid_json, ◌>>=◌, new_task, insert_task, enqueue,
}

-- `redact` scrubs the workspace's secrets from what the task writes.
pub record TaskRef : Type 0 where
  pub id : ℕ
  pub run : ℕ
  pub workspace : ℕ
  pub step_key : Text
  pub attempt : ℕ
  pub retries : ℤ
  pub redact : Text → Text

-- The statuses of a guarded update.
abbrev pub is_queued : TaskStatus → Bool
is_queued TaskStatus.queued = true
is_queued _ = false

abbrev pub is_running : TaskStatus → Bool
is_running TaskStatus.running = true
is_running _ = false

abbrev pub is_unfinished : TaskStatus → Bool
is_unfinished TaskStatus.queued = true
is_unfinished TaskStatus.running = true
is_unfinished _ = false

-- `where id = $1 and status …`.
abbrev pub guarded : (TaskStatus → Bool) → ℕ → Task → Bool
guarded p id t = t.id == id && p t.status

abbrev pub started_task : Text → ℕ → Task → Task
started_task input now t = record t {
  status = TaskStatus.running;
  input = some input;
  started_at = some now;
}

-- The guarded transition to 'running'; the flag is `RowsAffected() > 0`.
unfoldable pub claim : TaskRef → Value → ℕ → Db → Db × Bool
unfolding update any_row
claim t config now db = (
  record db {
    tasks = update (guarded is_queued t.id) (started_task (t.redact (marshal config)) now) db.tasks;
  },
  any_row (guarded is_queued t.id) db.tasks,
)

-- What `finishTask` is called with: the terminal status and the error.
pub data Verdict : Type 0 where
  succeeded : Verdict
  failed : Text → Verdict

abbrev status_of : Verdict → TaskStatus
status_of succeeded = TaskStatus.succeeded
status_of (failed m) = TaskStatus.failed

abbrev error_json : TaskRef → Verdict → Option Text
error_json t succeeded = none
error_json t (failed m) = some (message_json (t.redact m))

abbrev pub has_failed : Verdict → Bool
has_failed succeeded = false
has_failed (failed m) = true

abbrev pub finished_task : TaskRef → Verdict → Value → ℕ → Task → Task
finished_task t v output now row = record row {
  status = status_of v;
  output = some (t.redact (marshal output));
  error = error_json t v;
  finished_at = some now;
}

-- The bits of `time.Duration(1<<attempt) * time.Second`, an `int64` that wraps around.
unfoldable pub backoff : ℕ → ℕ
backoff attempt = 2 ^ attempt % 2 ^ 64 * 1_000_000_000 % 2 ^ 64

-- `Add`, of a duration that is negative where the highest of its 64 bits is set.
unfoldable pub add_duration : ℕ → ℕ → ℕ
add_duration now d = if ltb d (2 ^ 63) then now + d else now - (2 ^ 64 - d)

-- The next attempt, scheduled with backoff.
unfoldable pub retry_task : ℕ → ℕ → Text → ℕ → ℕ → Db → Result Db
unfolding new_task insert_task backoff add_duration
retry_task run workspace key attempt now db =
    let next = new_task db.next_id run workspace key (attempt + 1) TaskStatus.queued in
    insert_task next db >>= λ db'.
    ok (enqueue (execute_task next.id (some (add_duration now (backoff attempt)))) db')

-- `finishTask` where the database takes its JSON.
unfoldable pub finish_task : TaskRef → Verdict → Value → ℕ → Db → Result Db
unfolding update any_row retry_task
finish_task t v output now db =
    let db' = record db {
      tasks = update (guarded is_unfinished t.id) (finished_task t v output now) db.tasks;
    } in
    if not (any_row (guarded is_unfinished t.id) db.tasks)
    then ok db
    else ((if has_failed v && nat_le t.attempt t.retries
          then retry_task t.run t.workspace t.step_key t.attempt now db'
          else ok db')
        >>= λ db''. ok (enqueue (advance_run t.run) db''))

abbrev takes_error : (Text → Bool) → Option Text → Bool
takes_error takes none = true
takes_error takes (some e) = takes e

-- The database takes the texts of the columns `output` and `error`, which are of type `jsonb`. It does
-- not take `\u0000`, nor a text that is no JSON, to which the redaction of a number may lead.
unfoldable pub takes_result : (Text → Bool) → TaskRef → Verdict → Value → Bool
unfolding marshal
takes_result takes t v output =
    takes (t.redact (marshal output)) && takes_error takes (error_json t v)

-- `takes` tells the texts that are valid `jsonb`.
unfoldable pub finish : (Text → Bool) → TaskRef → Verdict → Value → ℕ → Db → Result Db
unfolding takes_result finish_task
finish takes t v output now db =
    if takes_result takes t v output then finish_task t v output now db else err invalid_json

-- The signal that an executor returns to park its task.
pub record Suspend : Type 0 where
  pub kind : Kind
  pub resume_at : Option ℕ
  pub output : Value

abbrev as_fields : Value → Fields
as_fields (obj fs) = fs
as_fields _ = end

-- The output while suspended: a callback's has the URL where it is resumed.
pub suspended_output : Kind → Value → Text → Value
suspended_output delay output raw_token = output
suspended_output callback output raw_token = obj (
    put_all (as_fields output) (put (codes "resume_url") (str (codes "/resume/" ++ raw_token)) end))

abbrev pub suspended_task : Text → Task → Task
suspended_task output t = record t { status = TaskStatus.suspended; output = some output }

-- A timed delay schedules its own resume; a callback waits for the endpoint.
abbrev pub schedule_resume : ℕ → Option ℕ → List Job → List Job
schedule_resume id none jobs = jobs
schedule_resume id (some at) jobs = resume_task id (some at) ∷ jobs

-- `raw_token` and `hashed_token` are what `generateResumeToken` returned.
unfoldable pub suspend_task : TaskRef → Suspend → Text → Text → Db → Db
unfolding update any_row suspended_output put put_all
suspend_task t s raw_token hashed_token db =
    let output = t.redact (marshal (suspended_output s.kind s.output raw_token)) in
    if not (any_row (guarded is_running t.id) db.tasks) then db else record db {
      tasks = update (guarded is_running t.id) (suspended_task output) db.tasks;
      suspensions =
          record {
            task = t.id;
            workspace = t.workspace;
            kind = s.kind;
            resume_token = hashed_token;
            resume_at = s.resume_at;
            payload = output;
          }
          ∷ db.suspensions;
      jobs = schedule_resume t.id s.resume_at db.jobs;
    }
