-- ===== src/Engine/System/Commits.antt =====
-- execute.go and engine.go: finishing a task and retrying a run, in any state that has come of the
-- empty database.
use oarlock.Prelude.{Bool, Bool-cases, refl, false, ◌⊎◌, ℕ, ◌≡◌, inl, inr, Text, true, some, Memᴰ}
use oarlock.Prelude.Tables.{find}
use oarlock.Engine.Store.{Run, Task, Db, ok, err, invalid_json}
use oarlock.Engine.Runs.{retry_run, is_retryable, in_workspace}
use oarlock.Json.{Value}
use oarlock.Engine.Execute.{TaskRef, Verdict, finish, takes_result}
use oarlock.Engine.Ledger.Attempts.{finish_task-MovesTo}
use oarlock.Engine.Ledger.Runs.{retry_run-MovesTo}
use oarlock.Engine.System.{Names, empty_db}
use oarlock.Engine.System.{Evolves, any_workflow}
use oarlock.Engine.System.History.{Names-RefersTo}
use oarlock.Engine.System.Deletes.{Evolves-IsSound}

-- In a state that has come of the empty database, finishing a task by a reference read from its row
-- commits, or the database does not take the JSON of its output or error: the insert of the next
-- attempt never violates the constraint on (run_id, step_key, attempt).
pub finish-commits :
    (uuid : ℕ → Text) (takes : Text → Bool) (db : Db) (t : TaskRef) (row : Task) (v : Verdict)
    (output : Value) (now : ℕ)
    → Evolves uuid any_workflow empty_db db
    → Memᴰ row db.tasks
    → Names t row
    → ((db' : Db) × (finish takes t v output now db ≡ ok db'))
      ⊎ ((takes_result takes t v output ≡ false)
          × (finish takes t v output now db ≡ err invalid_json))
unfolding finish
finish-commits uuid takes db t row v output now r m names =
    let sound = Evolves-IsSound uuid any_workflow db r in
    let (db', e, _) =
      finish_task-MovesTo t v output now db sound
        (Names-RefersTo _ db.tasks row _ _ _ _ sound m names) in
    elim (Bool-cases (takes_result takes t v output)) [
      | inl k ↦ inl (db', rw k e)
      | inr k ↦ inr (k, rw k refl)
    ]

-- In a state that has come of the empty database, retrying a failed or canceled run of the workspace
-- commits.
pub retry_run-commits :
    (uuid : ℕ → Text) (db : Db) (workspace run : ℕ) (r : Run)
    → Evolves uuid any_workflow empty_db db
    → find (in_workspace run workspace) db.runs ≡ some r
    → is_retryable r.status ≡ true
    → (db' : Db) × (retry_run workspace run db ≡ ok db')
retry_run-commits uuid db workspace run r reach found may =
    let (db', e, _) =
      retry_run-MovesTo workspace run db r (Evolves-IsSound uuid any_workflow db reach) found may in
    (db', e)
