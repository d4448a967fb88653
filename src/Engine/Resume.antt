-- ===== src/Engine/Resume.antt =====
-- engine/internal/engine/resume.go: the two ways in which a suspended task resumes.
use oarlock.Prelude.{
  ℕ, Text, text_eq, codes, Bool, true, false, none, some, ◌∷◌, ◌==◌, if◌then◌else◌,
}
use oarlock.Prelude.Tables.{find, update, delete, any_row}
use oarlock.Json.{Value, bool, obj, field, end, marshal}
use oarlock.Engine.Store.{
  TaskStatus, Task, Suspension, advance_run, Db, no_rows, suspension_not_found, not_waiting, Result,
  ok, err, ◌>>=◌, or_fail, task_by_id,
}
use oarlock.Engine.Execute.{guarded}

abbrev pub is_suspended : TaskStatus → Bool
is_suspended TaskStatus.suspended = true
is_suspended _ = false

abbrev pub resumed_task : Text → ℕ → Task → Task
resumed_task output now t = record t {
  status = TaskStatus.succeeded;
  output = some output;
  finished_at = some now;
}

abbrev pub suspends : ℕ → Suspension → Bool
suspends task s = s.task == task

-- What `resumeSuspended` returns when it commits.
pub record Resumed : Type 0 where
  pub run : ℕ
  pub resumed : Bool
  pub db : Db

-- `output` is the marshalled and redacted output.
unfoldable pub resume_suspended : ℕ → Text → ℕ → Db → Result Resumed
unfolding find update delete any_row
resume_suspended task output now db = do
  t ← or_fail (find (task_by_id task) db.tasks) no_rows
  let resumed = any_row (guarded is_suspended task) db.tasks
  let db' = record db {
    tasks = update (guarded is_suspended task) (resumed_task output now) db.tasks;
    suspensions = delete (suspends task) db.suspensions;
    jobs = if resumed then advance_run t.run ∷ db.jobs else db.jobs;
  }
  ok (record { run = t.run; resumed = resumed; db = db' })

-- `resumeTaskWorker.Work`: the payload was marshalled and redacted when the task was suspended.
unfoldable pub work_resume : ℕ → ℕ → Db → Result Db
unfolding resume_suspended
work_resume task now db = elim (find (suspends task) db.suspensions) [
  | none ↦ ok db
  | some s ↦ resume_suspended task s.payload now db >>= λ r. ok r.db
]

abbrev pub by_token : Text → Suspension → Bool
by_token token s = text_eq s.resume_token token

-- `redact` is the redactor of the workspace's secrets. The state is returned in both cases: where
-- the task no longer waits, the transaction has committed all the same.
unfoldable pub resume_suspended_task : (ℕ → Text → Text) → Text → Value → ℕ → Db → Db × Result ℕ
unfolding resume_suspended marshal
resume_suspended_task redact hashed_token payload now db =
    elim (find (by_token hashed_token) db.suspensions) [
      | none ↦ (db, err suspension_not_found)
      | some s ↦
          (let output =
              obj (field (codes "payload") payload (field (codes "resumed") (bool true) end)) in
            elim (resume_suspended s.task (redact s.workspace (marshal output)) now db) [
              | err e ↦ (db, err e)
              | ok r ↦ (r.db, if r.resumed then ok r.run else err not_waiting)
            ])
    ]
