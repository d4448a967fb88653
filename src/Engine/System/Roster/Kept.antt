-- ===== src/Engine/System/Roster/Kept.antt =====
-- The transactions of execute.go, resume.go and reaper.go, and the inserts of advance.go: what they do
-- to the table of runs.
use oarlock.Prelude.{
  ℕ, ◌+◌, ◌≡◌, refl, ◌∙◌, subst, inl, inr, Text, Bool, ◌&&◌, Option, none, List, [], ◌∷◌, arith,
  Bool-cases, Option-cases,
}
use oarlock.Prelude.Int.{nat_le}
use oarlock.Prelude.Tables.{find, update, any_row}
use oarlock.Json.{Value}
use oarlock.Definition.{Definition, Step, step}
use oarlock.Engine.Store.{
  TaskStatus, Run, Task, Db, Result, ok, insert_task, new_task, execute_task, enqueue, task_exists,
  advance_run, task_by_id,
}
use oarlock.Engine.Context.{Guard, passes, skips, errs}
use oarlock.Engine.Runs.{redo_all}
use oarlock.Engine.Advance.{insert_ignore, resolve, resolve_all, step_guard}
use oarlock.Engine.Execute.{
  TaskRef, Verdict, Suspend, claim, guarded, is_unfinished, is_running, finish_task, retry_task,
  suspend_task, finished_task, has_failed,
}
use oarlock.Engine.Resume.{Resumed, resume_suspended}
use oarlock.Engine.Reaper.{reap_task, step_retries, reaped_task}
use oarlock.Engine.System.Holds.{Holds, Holds-then}

-- A transaction that commits leaves the runs as they are.
abbrev pub KeepsRuns : List Run → Result Db → Type 0
KeepsRuns rs r = Holds (λ d. d.runs ≡ rs) r

insert_task-KeepsRuns : (t : Task) (db : Db) → KeepsRuns db.runs (insert_task t db)
unfolding insert_task
insert_task-KeepsRuns t db = elim (Bool-cases (task_exists t.run t.step_key t.attempt db.tasks)) [
  | inl e ↦ rw e tt
  | inr e ↦ rw e refl
]

retry_task-KeepsRuns :
    (run workspace : ℕ) (key : Text) (attempt now : ℕ) (db : Db)
    → KeepsRuns db.runs (retry_task run workspace key attempt now db)
unfolding retry_task
retry_task-KeepsRuns run workspace key attempt now db =
    Holds-then (λ d. d.runs ≡ db.runs)
      (insert_task (new_task db.next_id run workspace key (attempt + 1) TaskStatus.queued) db) _
      (insert_task-KeepsRuns _ db) (λ db' e. e)

pub redo_all-KeepsRuns :
    (run workspace : ℕ) (rs : List Task) (db : Db)
    → KeepsRuns db.runs (redo_all run workspace rs db)
unfolding redo_all
redo_all-KeepsRuns run workspace [] db = refl
redo_all-KeepsRuns run workspace (r ∷ rs) db =
    let next = new_task db.next_id run workspace r.step_key (r.attempt + 1) TaskStatus.queued in
    Holds-then (λ d. d.runs ≡ db.runs) (insert_task next db) _ (insert_task-KeepsRuns next db)
      (λ db' e.
        subst
          (λ us. KeepsRuns us (redo_all run workspace rs (enqueue (execute_task next.id none) db')))
          e (redo_all-KeepsRuns run workspace rs (enqueue (execute_task next.id none) db')))

pub finish_task-KeepsRuns :
    (t : TaskRef) (v : Verdict) (output : Value) (now : ℕ) (db : Db)
    → KeepsRuns db.runs (finish_task t v output now db)
unfolding finish_task
finish_task-KeepsRuns t v output now db =
    elim (Bool-cases (any_row (guarded is_unfinished t.id) db.tasks)) [
      | inr e ↦ rw e refl
      | inl e ↦ elim (Bool-cases (has_failed v && nat_le t.attempt t.retries)) [
        | inl again ↦
            let db' = record db {
              tasks = update (guarded is_unfinished t.id) (finished_task t v output now) db.tasks;
            } in
            let kept = retry_task-KeepsRuns t.run t.workspace t.step_key t.attempt now db' in
            rw (e, again)
              (Holds-then (λ d. d.runs ≡ db.runs)
                (retry_task t.run t.workspace t.step_key t.attempt now db')
                (λ db''. ok (enqueue (advance_run t.run) db'')) kept (λ db'' k. k))
        | inr last ↦ rw (e, last) refl
      ]
    ]

pub reap_task-KeepsRuns :
    (d : Option Definition) (o : Task) (now : ℕ) (db : Db)
    → KeepsRuns db.runs (reap_task d o now db)
unfolding reap_task
reap_task-KeepsRuns d o now db = elim (Bool-cases (any_row (guarded is_running o.id) db.tasks)) [
  | inr e ↦ rw e refl
  | inl e ↦ elim (Bool-cases (nat_le o.attempt (step_retries d o.step_key))) [
    | inl again ↦
        let db' = record db {
          tasks = update (guarded is_running o.id) (reaped_task now) db.tasks;
        } in
        let kept = retry_task-KeepsRuns o.run o.workspace o.step_key o.attempt now db' in
        rw (e, again)
          (Holds-then (λ d. d.runs ≡ db.runs)
            (retry_task o.run o.workspace o.step_key o.attempt now db')
            (λ db''. ok (enqueue (advance_run o.run) db'')) kept (λ db'' k. k))
    | inr last ↦ rw (e, last) refl
  ]
]

pub suspend_task-runs :
    (t : TaskRef) (s : Suspend) (raw hashed : Text) (db : Db)
    → (suspend_task t s raw hashed db).runs ≡ db.runs
unfolding suspend_task
suspend_task-runs t s raw hashed db =
    elim (Bool-cases (any_row (guarded is_running t.id) db.tasks)) [
      | inl e ↦ rw e refl
      | inr e ↦ rw e refl
    ]

insert_ignore-runs : (t : Task) (db : Db) → (insert_ignore t db).0.runs ≡ db.runs
unfolding insert_ignore
insert_ignore-runs t db = elim (Bool-cases (task_exists t.run t.step_key t.attempt db.tasks)) [
  | inl e ↦ rw e refl
  | inr e ↦ rw e refl
]

resolve-runs :
    (g : Guard) (run workspace : ℕ) (key : Text) (now : ℕ) (acc : Db × Bool)
    → (resolve g run workspace key now acc).0.runs ≡ acc.0.runs
unfolding resolve
resolve-runs passes run workspace key now (db, resolved) =
    let t = new_task db.next_id run workspace key 1 TaskStatus.queued in
    let kept = insert_ignore-runs t db in
    elim (Bool-cases (insert_ignore t db).1) [ inl e ↦ rw e kept | inr e ↦ rw e kept ]
resolve-runs skips run workspace key now (db, resolved) = insert_ignore-runs _ db
resolve-runs (errs m) run workspace key now (db, resolved) = insert_ignore-runs _ db

pub resolve_all-runs :
    (eval : Step → Guard) (d : Definition) (run workspace now : ℕ) (keys : List Text)
    (acc : Db × Bool)
    → (resolve_all eval d run workspace now keys acc).0.runs ≡ acc.0.runs
unfolding resolve_all
resolve_all-runs eval d run workspace now [] acc = refl
resolve_all-runs eval d run workspace now (k ∷ ks) acc =
    resolve_all-runs eval d run workspace now ks _
    ∙ resolve-runs (step_guard eval (step d k)) run workspace k now acc

pub resume_suspended-runs :
    (task : ℕ) (output : Text) (now : ℕ) (db : Db) (r : Resumed)
    → resume_suspended task output now db ≡ ok r
    → r.db.runs ≡ db.runs
unfolding resume_suspended
resume_suspended-runs task output now db r e =
    elim (Option-cases (find (task_by_id task) db.tasks)) [
      | inl q ↦ absurd (ground arith)
      | inr (t, q) ↦ ground arith
    ]

pub claim-runs :
    (t : TaskRef) (config : Value) (now : ℕ) (db : Db) → (claim t config now db).0.runs ≡ db.runs
unfolding claim
claim-runs t config now db = refl
