-- ===== src/Engine/Work/Begins.antt =====
-- execute.go: what the job of a task does, up to the claim.
use mathlib.Core.List.Memᴰ
use oarlock.Prelude.{
  ℕ, ◌+◌, ◌≡◌, refl, Bool, some, subst, inl, inr, Text, true, false, Memᴰ, arith, ◌&&◌, Bool-cases,
  if◌then◌else◌,
}
use oarlock.Prelude.Tables.{update, update-Mem, any_row-of}
use oarlock.Prelude.Int.{nat_le}
use oarlock.Json.{Value, Fields, marshal, obj}
use oarlock.Engine.Store.{
  TaskStatus, advance_run, Task, Db, Error, ok, err, task_exists, insert_task, new_task,
}
use oarlock.Engine.Execute.{
  TaskRef, is_queued, is_unfinished, guarded, finished_task, retry_task, has_failed, Verdict,
  failed, finish_task, finish, takes_result,
}
use oarlock.Engine.Work.{Executor, Next, over, running}
use oarlock.Engine.System.{Names}

-- No row of the task is queued.
abbrev pub IsDequeued : ℕ → Db → Type 0
IsDequeued id db = (row : Task) → Memᴰ row db.tasks → row.id ≡ id → is_queued row.status ≡ false

pub ok-inj : {A : Type 0} {x y : A} → ok x ≡ ok y → x ≡ y
ok-inj e = cc

pub err≢ok : {A : Type 0} {x : Error} {y : A} → err x ≡ ok y → ⊥
err≢ok e = ground arith

-- The row that a finish writes, and the advance that it enqueues.
pub finish_task-row :
    (t : TaskRef) (row : Task) (v : Verdict) (output : Value) (now : ℕ) (db : Db) {db' : Db}
    → finish_task t v output now db ≡ ok db'
    → Memᴰ row db.tasks
    → guarded is_unfinished t.id row ≡ true
    → Memᴰ (finished_task t v output now row) db'.tasks × Memᴰ (advance_run t.run) db'.jobs
unfolding finish_task retry_task insert_task new_task
finish_task-row t row v output now db {db'} e m unfinished =
    let f = finished_task t v output now in
    let any = any_row-of (guarded is_unfinished t.id) db.tasks m unfinished in
    let put : Memᴰ (f row) (update (guarded is_unfinished t.id) f db.tasks) =
      subst (λ b. Memᴰ (if b then f row else row) (update (guarded is_unfinished t.id) f db.tasks))
        unfinished (update-Mem (guarded is_unfinished t.id) f db.tasks m) in
    elim (Bool-cases (has_failed v && nat_le t.attempt t.retries)) [
      | inr k ↦
          let same = ok-inj (rw (any, k, finish_task) at e) in
          subst (λ (y : Db). Memᴰ (f row) y.tasks × Memᴰ (advance_run t.run) y.jobs) same
            (put, Memᴰ.head refl)
      | inl k ↦
          elim (Bool-cases (
            task_exists t.run t.step_key (t.attempt + 1)
              (update (guarded is_unfinished t.id) f db.tasks))) [
                | inl x ↦
                    absurd (err≢ok (rw (any, k, finish_task, retry_task, insert_task, x) at e))
                | inr x ↦
                    let same = ok-inj (rw (any, k, finish_task, retry_task, insert_task, x) at e) in
                    subst (λ (y : Db). Memᴰ (f row) y.tasks × Memᴰ (advance_run t.run) y.jobs) same
                      (Memᴰ.tail put, Memᴰ.head refl)
              ]
    ]

pub finish-ok :
    (takes : Text → Bool) (t : TaskRef) (v : Verdict) (output : Value) (now : ℕ) (db : Db)
    {db' : Db}
    → finish takes t v output now db ≡ ok db'
    → finish_task t v output now db ≡ ok db'
unfolding finish
finish-ok takes t v output now db e = elim (Bool-cases (takes_result takes t v output)) [
  | inl k ↦ rw k at e
  | inr k ↦ absurd (err≢ok (rw k at e))
]

-- An executor is to run for the task, whose row is running and holds the config.
abbrev pub IsStarted : Task → Db → Next → Type 0
IsStarted t db n =
    (ref : TaskRef) × (e : Executor) × (config : Fields) × (context : Value) × (n
      ≡ running ref e config context)
    × Names ref t
    × ((u : Task) × Memᴰ u db.tasks
        × (u.id ≡ t.id)
        × (u.status ≡ TaskStatus.running)
        × (u.input ≡ some (ref.redact (marshal (obj config)))))

-- Nothing is to run, the task's row has failed, and an advance of its run is queued.
abbrev pub HasFailed : Task → Db → Next → Type 0
HasFailed t db n =
    (n ≡ over)
    × ((u : Task) × Memᴰ u db.tasks × (u.id ≡ t.id) × (u.status ≡ TaskStatus.failed))
    × Memᴰ (advance_run t.run) db.jobs
