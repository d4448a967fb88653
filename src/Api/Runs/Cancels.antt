-- ===== src/Api/Runs/Cancels.antt =====
-- engine/internal/api/api.go: what `cancelRun` answers, and what it leaves.
use oarlock.Prelude.{
  ℕ, ◌≡◌, ◌⊎◌, ◌∙◌, refl, ap, inl, inr, codes, true, false, some, none, arith, Bool-cases,
  Option-cases,
}
use oarlock.Prelude.Tables.{
  find, update, any_row, find-some, find-update, update-from, any_row-none,
}
use oarlock.Engine.Store.{Run, Task, Db, already, is_terminal, run_by_id}
use oarlock.Engine.Runs.{in_workspace, canceled_run, canceled_task, pending_of}
use oarlock.Api.Http.{reply, error, said, engine_error}
use oarlock.Api.Runs.{status, cancel_run}

-- After the update no task of the run is pending.
none-pending :
    (run now : ℕ) (db : Db)
    → any_row (pending_of run) (update (pending_of run) (canceled_task now) db.tasks) ≡ false
none-pending run now db =
    any_row-none (pending_of run) (update (pending_of run) (canceled_task now) db.tasks) (λ u m.
      let (b, k, e) = update-from (pending_of run) (canceled_task now) db.tasks m in
      elim (Bool-cases (pending_of run b)) [
        | inl h ↦ ground (arith, ap (λ (x : Task). pending_of run x) (rw h at e))
        | inr h ↦ ap (λ (x : Task). pending_of run x) (rw h at e) ∙ h
      ])

-- A cancel of a run is answered by 404 exactly where the workspace has no such run, by 409 with its
-- status exactly where the run is over, and in both cases changes nothing; else it is answered by 200,
-- and then the run is canceled and none of its tasks is queued, running or suspended.
pub cancel_run-answers :
    (workspace id now : ℕ) (db : Db)
    → let answered = cancel_run workspace (some id) now db in
      ((find (in_workspace id workspace) db.runs ≡ none)
        × (answered ≡ (db, error 404 (said (codes "run not found")))))
      ⊎ ((r : Run) × (find (in_workspace id workspace) db.runs ≡ some r)
          × (is_terminal r.status ≡ true)
          × (answered ≡ (db, error 409 (engine_error (already r.status)))))
      ⊎ ((r : Run) × (find (in_workspace id workspace) db.runs ≡ some r)
          × (is_terminal r.status ≡ false)
          × (answered.1 ≡ reply 200 (status (codes "canceled")))
          × (find (in_workspace id workspace) answered.0.runs ≡ some (canceled_run now r))
          × (any_row (pending_of id) answered.0.tasks ≡ false))
unfolding cancel_run
cancel_run-answers workspace id now db =
    elim (Option-cases (find (in_workspace id workspace) db.runs)) [
      | inl q ↦ inl (q, rw (q, cancel_run) refl)
      | inr (r, q) ↦ elim (Bool-cases (is_terminal r.status)) [
        | inl f ↦ inr (inl (r, q, f, rw (q, f, cancel_run) refl))
        | inr f ↦
            let (m, own) = find-some (in_workspace id workspace) db.runs q in
            let mine : run_by_id id r ≡ true = ground arith in
            let found =
              find-update (in_workspace id workspace) (run_by_id id) (canceled_run now) db.runs
                (λ x. refl) q in
            inr (
              inr (
                r,
                q,
                f,
                rw (q, f, cancel_run) refl,
                rw (q, f, cancel_run) (rw mine at found),
                rw (q, f, cancel_run) (none-pending id now db),
              ))
      ]
    ]
