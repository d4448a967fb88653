-- ===== src/Engine/System/Quiet/Workers.antt =====
-- execute.go, resume.go and reaper.go: the transactions on one task, and the attempts of canceled runs.
use oarlock.Prelude.{
  ℕ, ◌+◌, ◌≡◌, refl, ◌∙◌, ap, inl, inr, Text, Bool, true, false, ◌&&◌, Option, arith, if◌then◌else◌,
  Bool-cases, Option-cases,
}
use oarlock.Prelude.Int.{nat_le}
use oarlock.Prelude.Tables.{find, update, any_row, any_row-some}
use oarlock.Json.{Value}
use oarlock.Definition.{Definition}
use oarlock.Engine.Store.{
  TaskStatus, Task, Db, ok, ◌>>=◌, is_live, new_task, insert_task, enqueue, advance_run,
  task_exists, task_by_id,
}
use oarlock.Engine.Execute.{
  TaskRef, Verdict, Suspend, guarded, is_unfinished, is_running, is_queued, claim, finish_task,
  retry_task, suspend_task, has_failed, finished_task,
}
use oarlock.Engine.Resume.{Resumed, resume_suspended, resumed_task, is_suspended}
use oarlock.Engine.Reaper.{reap_task, step_retries, reaped_task}
use oarlock.Engine.Ledger.Attempts.{RefersTo}
use oarlock.Engine.System.Holds.{Holds, Holds-bind, Holds-then}
use oarlock.Engine.System.Quiet.{run_canceled, QuietOn, QuietOn-update, QuietOn-insert}

abbrev pub IsQuietDb : Db → Type 0
IsQuietDb db = QuietOn (run_canceled db.runs) db.tasks

pub insert_task-IsQuietDb :
    (t : Task) (db : Db)
    → (run_canceled db.runs t.run ≡ true → is_live t.status ≡ false)
    → IsQuietDb db
    → Holds (λ d. IsQuietDb d × (d.runs ≡ db.runs)) (insert_task t db)
unfolding insert_task
insert_task-IsQuietDb t db new quiet =
    elim (Bool-cases (task_exists t.run t.step_key t.attempt db.tasks)) [
      | inl e ↦ rw e tt
      | inr e ↦ rw e (QuietOn-insert (run_canceled db.runs) t db.tasks new quiet, refl)
    ]

retry_task-IsQuietDb :
    (run workspace : ℕ) (key : Text) (attempt now : ℕ) (db : Db)
    → run_canceled db.runs run ≡ false
    → IsQuietDb db
    → Holds IsQuietDb (retry_task run workspace key attempt now db)
unfolding retry_task new_task
retry_task-IsQuietDb run workspace key attempt now db live quiet =
    let next = new_task db.next_id run workspace key (attempt + 1) TaskStatus.queued in
    let inserted = insert_task-IsQuietDb next db (λ h. absurd (ground arith)) quiet in
    Holds-bind (λ d. IsQuietDb d × (d.runs ≡ db.runs)) IsQuietDb (insert_task next db) _ inserted
      (λ db' h. h.0)

-- Where the guard found a live row of the run, the run is not canceled.
guarded-not_canceled :
    (statuses : TaskStatus → Bool) (id run : ℕ) (key : Text) (attempt : ℕ) (db : Db)
    → ((x : TaskStatus) → statuses x ≡ true → is_live x ≡ true)
    → RefersTo id run key attempt db.tasks
    → IsQuietDb db
    → any_row (guarded statuses id) db.tasks ≡ true
    → run_canceled db.runs run ≡ false
guarded-not_canceled statuses id run key attempt db live refers quiet e =
    let (a, m, q) = any_row-some (guarded statuses id) db.tasks e in
    let same = refers a m (ground (arith, q)) in
    elim (Bool-cases (run_canceled db.runs run)) [
      | inr k ↦ k
      | inl k ↦
          let dead = quiet a m (ap (run_canceled db.runs) same.0 ∙ k) in
          absurd (ground (arith, q, dead, live a.status))
    ]

-- The update of a guarded row.
guarded-IsQuietDb :
    (statuses : TaskStatus → Bool) (id : ℕ) (f : Task → Task) (db : Db)
    → ((x : TaskStatus) → statuses x ≡ true → is_live x ≡ true)
    → ((t : Task) → (f t).run ≡ t.run)
    → IsQuietDb db
    → IsQuietDb (record db { tasks = update (guarded statuses id) f db.tasks })
guarded-IsQuietDb statuses id f db live keeps quiet =
    QuietOn-update (run_canceled db.runs) (guarded statuses id) f db.tasks
      (λ t h. live t.status (ground arith)) keeps quiet

-- The next attempt of an ended one, where there is one.
retry_if-IsQuietDb :
    (again : Bool) (run workspace : ℕ) (key : Text) (attempt now : ℕ) (db : Db)
    → run_canceled db.runs run ≡ false
    → IsQuietDb db
    → Holds IsQuietDb (
        (if again then retry_task run workspace key attempt now db else ok db) >>= λ db'.
        ok (enqueue (advance_run run) db'))
retry_if-IsQuietDb true run workspace key attempt now db live quiet =
    Holds-then IsQuietDb (retry_task run workspace key attempt now db) _
      (retry_task-IsQuietDb run workspace key attempt now db live quiet) (λ db' h. h)
retry_if-IsQuietDb false run workspace key attempt now db live quiet = quiet

pub finish_task-IsQuietDb :
    (t : TaskRef) (v : Verdict) (output : Value) (now : ℕ) (db : Db)
    → RefersTo t.id t.run t.step_key t.attempt db.tasks
    → IsQuietDb db
    → Holds IsQuietDb (finish_task t v output now db)
unfolding finish_task
finish_task-IsQuietDb t v output now db refers quiet =
    elim (Bool-cases (any_row (guarded is_unfinished t.id) db.tasks)) [
      | inr e ↦ rw e quiet
      | inl e ↦
          let f = finished_task t v output now in
          let live =
            guarded-not_canceled is_unfinished t.id t.run t.step_key t.attempt db
              (λ x h. ground arith) refers quiet e in
          rw e (
            retry_if-IsQuietDb (has_failed v && nat_le t.attempt t.retries) t.run t.workspace
              t.step_key t.attempt now
              (record db { tasks = update (guarded is_unfinished t.id) f db.tasks }) live
              (guarded-IsQuietDb is_unfinished t.id f db (λ x h. ground arith) (λ x. refl) quiet))
    ]

pub reap_task-IsQuietDb :
    (d : Option Definition) (o : Task) (now : ℕ) (db : Db)
    → RefersTo o.id o.run o.step_key o.attempt db.tasks
    → IsQuietDb db
    → Holds IsQuietDb (reap_task d o now db)
unfolding reap_task
reap_task-IsQuietDb d o now db refers quiet =
    elim (Bool-cases (any_row (guarded is_running o.id) db.tasks)) [
      | inr e ↦ rw e quiet
      | inl e ↦
          let live =
            guarded-not_canceled is_running o.id o.run o.step_key o.attempt db (λ x h. ground arith)
              refers quiet e in
          rw e (
            retry_if-IsQuietDb (nat_le o.attempt (step_retries d o.step_key)) o.run o.workspace
              o.step_key o.attempt now
              (record db { tasks = update (guarded is_running o.id) (reaped_task now) db.tasks })
              live
              (guarded-IsQuietDb is_running o.id (reaped_task now) db (λ x h. ground arith)
                (λ x. refl) quiet))
    ]

pub claim-IsQuietDb :
    (t : TaskRef) (config : Value) (now : ℕ) (db : Db)
    → IsQuietDb db
    → IsQuietDb (claim t config now db).0
unfolding claim
claim-IsQuietDb t config now db quiet =
    guarded-IsQuietDb is_queued t.id _ db (λ x h. ground arith) (λ x. refl) quiet

pub suspend_task-IsQuietDb :
    (t : TaskRef) (s : Suspend) (raw hashed : Text) (db : Db)
    → IsQuietDb db
    → IsQuietDb (suspend_task t s raw hashed db)
unfolding suspend_task
suspend_task-IsQuietDb t s raw hashed db quiet =
    elim (Bool-cases (any_row (guarded is_running t.id) db.tasks)) [
      | inr e ↦ rw e quiet
      | inl e ↦
          rw e (guarded-IsQuietDb is_running t.id _ db (λ x h. ground arith) (λ x. refl) quiet)
    ]

pub resume_suspended-IsQuietDb :
    (task : ℕ) (output : Text) (now : ℕ) (db : Db) (r : Resumed)
    → resume_suspended task output now db ≡ ok r
    → IsQuietDb db
    → IsQuietDb r.db
unfolding resume_suspended
resume_suspended-IsQuietDb task output now db r e quiet =
    elim (Option-cases (find (task_by_id task) db.tasks)) [
      | inl q ↦ absurd (ground arith)
      | inr (t, q) ↦
          let tasks : r.db.tasks
              ≡ update (guarded is_suspended task) (resumed_task output now) db.tasks =
            ground arith in
          let runs : r.db.runs ≡ db.runs = ground arith in
          rw (tasks, runs)
            (guarded-IsQuietDb is_suspended task (resumed_task output now) db (λ x h. ground arith)
              (λ x. refl) quiet)
    ]
