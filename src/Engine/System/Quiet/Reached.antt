-- ===== src/Engine/System/Quiet/Reached.antt =====
-- execute.go on a task of a run that `CancelRun` has canceled, in any state that is reached.
use oarlock.Prelude.{
  ℕ, ◌≡◌, sym, ◌∙◌, ap, inl, inr, Text, Bool, true, false, some, Memᴰ, arith, Bool-cases,
}
use oarlock.Prelude.Tables.{find, update-none, any_row-none}
use oarlock.Json.{Value}
use oarlock.Engine.Store.{RunStatus, TaskStatus, Run, Task, Db, ok, is_live, run_by_id}
use oarlock.Engine.Execute.{
  TaskRef, is_queued, is_running, is_unfinished, guarded, claim, Verdict, finish_task, Suspend,
  suspend_task,
}
use oarlock.Engine.Ledger.{IsSound}
use oarlock.Engine.System.{
  Names, Transition, starts, cancels, retries, advances, claims, finishes, suspends, resumes, reaps,
  queue_works, workflows_change, empty_db, Evolves, begin, moves, deletes, cascade, run_of,
  any_workflow,
}
use oarlock.Engine.System.Holds.{Holds-known}
use oarlock.Engine.System.History.{Names-RefersTo}
use oarlock.Engine.System.Deletes.{delete-from, Evolves-IsSound}
use oarlock.Prelude.Keys.{delete-away}
use oarlock.Engine.System.Quiet.{is_canceled, run_canceled, run_canceled-delete}
use oarlock.Engine.System.Quiet.Workers.{
  IsQuietDb, finish_task-IsQuietDb, reap_task-IsQuietDb, claim-IsQuietDb, suspend_task-IsQuietDb,
  resume_suspended-IsQuietDb,
}
use oarlock.Engine.System.Quiet.Runs.{
  start_run_opts-IsQuietDb, cancel_run-IsQuietDb, retry_run-IsQuietDb, advance-IsQuietDb,
  run_canceled-found,
}

Transition-IsQuietDb :
    {uuid : ℕ → Text} {db db' : Db}
    → Transition uuid db db'
    → IsSound db.next_id db.tasks
    → IsQuietDb db
    → IsQuietDb db'
Transition-IsQuietDb {uuid} {db} (starts workspace workflow input opts s e) sound quiet =
    start_run_opts-IsQuietDb uuid workspace workflow input opts db s e quiet
Transition-IsQuietDb {db = db} (cancels workspace run now e) sound quiet =
    cancel_run-IsQuietDb workspace run now db e quiet
Transition-IsQuietDb {db = db} (retries workspace run e) sound quiet =
    retry_run-IsQuietDb workspace run db e quiet
Transition-IsQuietDb {db = db} (advances eval run now e) sound quiet =
    advance-IsQuietDb eval run now db e quiet
Transition-IsQuietDb {db = db} (claims t config now) sound quiet =
    claim-IsQuietDb t config now db quiet
Transition-IsQuietDb {db = db} (finishes t row v output now m names e) sound quiet =
    Holds-known IsQuietDb _
      (finish_task-IsQuietDb t v output now db (Names-RefersTo _ db.tasks row _ _ _ _ sound m names)
        quiet)
      e
Transition-IsQuietDb {db = db} (suspends t s raw hashed) sound quiet =
    suspend_task-IsQuietDb t s raw hashed db quiet
Transition-IsQuietDb {db = db} (resumes task output now r e) sound quiet =
    resume_suspended-IsQuietDb task output now db r e quiet
Transition-IsQuietDb {db = db} (reaps d o row now m names e) sound quiet =
    Holds-known IsQuietDb _
      (reap_task-IsQuietDb d o now db (Names-RefersTo _ db.tasks row _ _ _ _ sound m names) quiet) e
Transition-IsQuietDb (queue_works jobs) sound quiet = quiet
Transition-IsQuietDb (workflows_change workflows versions triggers) sound quiet = quiet

cascade-IsQuietDb : (workflow : ℕ) (db : Db) → IsQuietDb db → IsQuietDb (cascade workflow db)
unfolding cascade
cascade-IsQuietDb workflow db quiet t m h =
    let c = run_of workflow db.runs in
    let kept = delete-away (λ (x : Task). c x.run) db.tasks m in
    quiet t (delete-from c db.tasks m) (sym (run_canceled-delete workflow db.runs t.run kept) ∙ h)

Evolves-IsQuietDb :
    (uuid : ℕ → Text) (spared : ℕ → Bool) (db : Db) → Evolves uuid spared empty_db db → IsQuietDb db
Evolves-IsQuietDb uuid spared db begin = λ t m h. elim m [ ]
Evolves-IsQuietDb uuid spared db (moves {mid} r step) =
    Transition-IsQuietDb step (Evolves-IsSound uuid spared mid r)
      (Evolves-IsQuietDb uuid spared mid r)
Evolves-IsQuietDb uuid spared db (deletes {mid} w ws vs ts free r) =
    cascade-IsQuietDb w (record mid { workflows = ws; versions = vs; triggers = ts })
      (Evolves-IsQuietDb uuid spared mid r)

-- No task of the run is queued, running or suspended.
abbrev IsQuiet : ℕ → Db → Type 0
IsQuiet run db = (t : Task) → Memᴰ t db.tasks → t.run ≡ run → is_live t.status ≡ false

-- The rows of a task of the run are not live, so no guard on a live status passes.
guarded-IsQuiet :
    (statuses : TaskStatus → Bool) (run id : ℕ) (db : Db)
    → ((x : TaskStatus) → statuses x ≡ true → is_live x ≡ true)
    → IsQuiet run db
    → ((t : Task) → Memᴰ t db.tasks → t.id ≡ id → t.run ≡ run)
    → (t : Task) → Memᴰ t db.tasks
    → guarded statuses id t ≡ false
guarded-IsQuiet statuses run id db live quiet mine t m = elim (Bool-cases (guarded statuses id t)) [
  | inr e ↦ e
  | inl e ↦ absurd (ground (arith, quiet t m, mine t m, live t.status))
]

-- Whatever transactions ran and whatever workflows were deleted since the database was empty, a row of a run that is canceled is not queued,
-- running or suspended. By a reference that was read from the row, its claim is refused and changes no
-- row, and the result of an executor that was in flight is discarded, whether it finished, failed or
-- parked the task.
pub canceled-discards :
    (uuid : ℕ → Text) (db : Db) (r : Run) (row : Task) (t : TaskRef) (config output : Value)
    (v : Verdict) (s : Suspend) (raw hashed : Text) (now : ℕ)
    → Evolves uuid any_workflow empty_db db
    → find (run_by_id t.run) db.runs ≡ some r
    → r.status ≡ RunStatus.canceled
    → Memᴰ row db.tasks
    → Names t row
    → (is_live row.status ≡ false)
      × (claim t config now db ≡ (db, false))
      × (finish_task t v output now db ≡ ok db)
      × (suspend_task t s raw hashed db ≡ db)
unfolding claim finish_task suspend_task
canceled-discards uuid db r row t config output v s raw hashed now reached found canceled m names =
    let over : run_canceled db.runs t.run ≡ true =
      run_canceled-found t.run db.runs r found ∙ ap is_canceled canceled in
    let quiet : IsQuiet t.run db = λ u k e.
      Evolves-IsQuietDb uuid any_workflow db reached u k (ap (run_canceled db.runs) e ∙ over) in
    let refers =
      Names-RefersTo _ db.tasks row t.id t.run t.step_key t.attempt
        (Evolves-IsSound uuid any_workflow db reached) m names in
    let mine : (u : Task) → Memᴰ u db.tasks → u.id ≡ t.id → u.run ≡ t.run =
      λ u k e. (refers u k e).0 in
    let queued' = guarded-IsQuiet is_queued t.run t.id db (λ x h. ground arith) quiet mine in
    let unfinished = guarded-IsQuiet is_unfinished t.run t.id db (λ x h. ground arith) quiet mine in
    let running' = guarded-IsQuiet is_running t.run t.id db (λ x h. ground arith) quiet mine in
    (
      quiet row m names.1,
      rw (any_row-none _ db.tasks queued', update-none _ _ db.tasks queued'),
      rw (any_row-none _ db.tasks unfinished),
      rw (any_row-none _ db.tasks running'),
    )
