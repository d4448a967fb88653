-- ===== src/Engine/Runs/Commits.antt =====
-- What `CancelRun` and `RetryRun` found and did when they committed.
use oarlock.Prelude.{◌≡◌, ℕ, true, some, inl, inr, arith, Bool-cases, Option-cases}
use oarlock.Prelude.Tables.{find, update}
use oarlock.Engine.Store.{Run, Db, ok, ◌>>=◌, is_terminal, run_by_id, enqueue, advance_run}
use oarlock.Engine.Runs.{
  in_workspace, canceled_run, canceled_task, pending_of, cancel_run, is_retryable, redos, redo_all,
  rerun, retry_run,
}

-- The run was not over, and the rows of the run and of its pending tasks became canceled.
pub cancel_run-commits :
    (workspace run now : ℕ) (db : Db) {db' : Db}
    → cancel_run workspace run now db ≡ ok db'
    → db' ≡ record db {
      runs = update (run_by_id run) (canceled_run now) db.runs;
      tasks = update (pending_of run) (canceled_task now) db.tasks;
    }
unfolding cancel_run
cancel_run-commits workspace run now db e =
    elim (Option-cases (find (in_workspace run workspace) db.runs)) [
      | inl q ↦ absurd (ground arith)
      | inr (r, q) ↦ elim (Bool-cases (is_terminal r.status)) [
        | inl f ↦ absurd (ground arith)
        | inr f ↦ ground arith
      ]
    ]

-- The run could be retried, and the loop over the rows to redo committed.
pub retry_run-found :
    (workspace run : ℕ) (db : Db) {db' : Db}
    → retry_run workspace run db ≡ ok db'
    → (r : Run) × (find (in_workspace run workspace) db.runs ≡ some r)
      × (is_retryable r.status ≡ true)
      × ((redo_all run workspace
              (redos run db.tasks)
              (record db { runs = update (run_by_id run) rerun db.runs })
            >>= λ db''. ok (enqueue (advance_run run) db''))
          ≡ ok db')
unfolding retry_run
retry_run-found workspace run db e =
    elim (Option-cases (find (in_workspace run workspace) db.runs)) [
      | inl q ↦ absurd (ground arith)
      | inr (r, q) ↦ elim (Bool-cases (is_retryable r.status)) [
        | inl may ↦ (r, q, may, rw (q, may) at e)
        | inr may ↦ absurd (ground arith)
      ]
    ]
