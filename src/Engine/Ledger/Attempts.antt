-- ===== src/Engine/Ledger/Attempts.antt =====
-- execute.go, resume.go and reaper.go: claiming, finishing, parking, resuming and reaping a task are
-- moves of the ledger, and the insert of a retry never violates the table's constraint.
use oarlock.Prelude.{
  ℕ, suc, ◌+◌, ◌<◌, ◌≡◌, refl, sym, ap, ◌⊎◌, inl, inr, Text, text_eq_iff, Bool, true, false, ◌&&◌,
  Option, some, List, ◌∷◌, Memᴰ, arith, Bool-cases, Option-cases, ◌==◌, if◌then◌else◌,
}
use oarlock.Prelude.Tables.{
  find, update, update-from, update-Mem, any_row, any_row-some, any_row-none,
}
use oarlock.Json.{Value, marshal}
use oarlock.Definition.{Definition}
use oarlock.Engine.Store.{
  TaskStatus, Task, execute_task, Db, Result, ok, ◌>>=◌, is_live, of_step, new_task, task_exists,
  insert_task, enqueue, task_by_id, advance_run,
}
use oarlock.Engine.Execute.{
  TaskRef, is_queued, is_running, is_unfinished, guarded, claim, Verdict, retry_task, backoff,
  add_duration, finish_task, Suspend, suspend_task, started_task, suspended_task, suspended_output,
}
use oarlock.Engine.Resume.{is_suspended, resumed_task, Resumed, resume_suspended}
use oarlock.Engine.Reaper.{reap_task}
use oarlock.Engine.Ledger.{SameStep, Allowed, Room, Moves, stay, change, insert, IsSound}
use oarlock.Engine.Ledger.Keeps.{put_row, put_row-keeps, Apart-at}

-- An insert that has room succeeds.
pub insert_task-Room :
    (t : Task) (db : Db)
    → Room t db.tasks
    → insert_task t db ≡ ok (record db { tasks = t ∷ db.tasks; next_id = suc db.next_id })
unfolding insert_task task_exists of_step
insert_task-Room t db room = rw (
    any_row-none _ db.tasks
      (λ u m. clash u m (Bool-cases (of_step t.run t.step_key u && u.attempt == t.attempt))))
  where
    clash :
        (u : Task)
        → Memᴰ u db.tasks
        → ((of_step t.run t.step_key u && u.attempt == t.attempt) ≡ true)
          ⊎ ((of_step t.run t.step_key u && u.attempt == t.attempt) ≡ false)
        → (of_step t.run t.step_key u && u.attempt == t.attempt) ≡ false
    clash u m (inr e) = e
    clash u m (inl e) = absurd (ground (arith, room.over u m, text_eq_iff u.step_key t.step_key))

-- After an update that finishes the live attempt of a step, there is room for the next one.
module _ (p : Task → Bool) (f : Task → Task) (allowed : Allowed p f) where
  next-Room :
      (n : ℕ) (ts : List Task) (a t : Task)
      → IsSound n ts
      → Memᴰ a ts
      → p a ≡ true
      → is_live (f a).status ≡ false
      → SameStep t a
      → t.attempt ≡ a.attempt + 1
      → Room t (update p f ts)
  next-Room n ts a t s m e ended same later = record {
    over = λ u k sm. over u (update-from p f ts k) sm;
    first = inr (put_row p f a, update-Mem p f ts m, ground (arith, put_row-keeps p f allowed a));
  }
    where
      over :
          (u : Task)
          → (b : Task) × Memᴰ b ts × (u ≡ put_row p f b)
          → SameStep t u
          → (is_live u.status ≡ false) × (u.attempt < t.attempt)
      over u (b, k, q) sm = elim (Apart-at ts s.apart m k) [
        | inl here ↦ ground (arith, put_row-keeps p f allowed b, ap (put_row p f) here, q)
        | inr apart ↦
            ground (arith, put_row-keeps p f allowed b, q, allowed a e, apart.left, apart.right)
      ]

-- The rows that a reference names are of its step and attempt.
abbrev pub RefersTo : ℕ → ℕ → Text → ℕ → List Task → Type 0
RefersTo id run key attempt ts =
    (t : Task) → Memᴰ t ts → t.id ≡ id → (t.run ≡ run) × (t.step_key ≡ key) × (t.attempt ≡ attempt)

abbrev pub MovesTo : Db → Result Db → Type 0
MovesTo db r = (db' : Db) × (r ≡ ok db') × Moves db.next_id db.tasks db'.next_id db'.tasks

-- The end of an attempt: the update, the next attempt if there is one, and the advance.
abbrev end_attempt : (Task → Bool) → (Task → Task) → Bool → ℕ → ℕ → Text → ℕ → ℕ → Db → Result Db
end_attempt p f again run workspace key attempt now db =
    let db' = record db { tasks = update p f db.tasks } in
    (if again then retry_task run workspace key attempt now db' else ok db') >>= λ db''.
    ok (enqueue (advance_run run) db'')

module _ (p : Task → Bool) (f : Task → Task) (allowed : Allowed p f) where
  end_attempt-MovesTo :
      (again : Bool) (run workspace : ℕ) (key : Text) (attempt now : ℕ) (db : Db) (a : Task)
      → IsSound db.next_id db.tasks
      → Memᴰ a db.tasks
      → p a ≡ true
      → is_live (f a).status ≡ false
      → (a.run ≡ run) × (a.step_key ≡ key) × (a.attempt ≡ attempt)
      → MovesTo db (end_attempt p f again run workspace key attempt now db)
  unfolding retry_task new_task
  end_attempt-MovesTo false run workspace key attempt now db a s m e ended same =
      (_, refl, change p f allowed stay)
  end_attempt-MovesTo true run workspace key attempt now db a s m e ended same =
      let next = new_task db.next_id run workspace key (attempt + 1) TaskStatus.queued in
      let db' = record db { tasks = update p f db.tasks } in
      let room : Room next db'.tasks =
        next-Room p f allowed db.next_id db.tasks a next s m e ended (sym same.0, sym same.1)
          (ap (λ k. k + 1) (sym same.2)) in
      let db'' = record db' { tasks = next ∷ db'.tasks; next_id = suc db.next_id } in
      (
        enqueue (advance_run run)
            (enqueue (execute_task next.id (some (add_duration now (backoff attempt)))) db''),
        rw (insert_task-Room next db' room),
        insert next refl room (change p f allowed stay),
      )

guarded-id :
    (statuses : TaskStatus → Bool) (id : ℕ) (t : Task) → guarded statuses id t ≡ true → t.id ≡ id
guarded-id statuses id t h = ground arith

-- `finishTask` commits, and is a move.
pub finish_task-MovesTo :
    (t : TaskRef) (v : Verdict) (output : Value) (now : ℕ) (db : Db)
    → IsSound db.next_id db.tasks
    → RefersTo t.id t.run t.step_key t.attempt db.tasks
    → MovesTo db (finish_task t v output now db)
unfolding finish_task
finish_task-MovesTo t v output now db s refers =
    elim (Bool-cases (any_row (guarded is_unfinished t.id) db.tasks)) [
      | inr e ↦ (db, rw e, stay)
      | inl e ↦
          let (a, m, q) = any_row-some _ db.tasks e in
          rw e (
            end_attempt-MovesTo (guarded is_unfinished t.id) _ (λ r h. ground arith) _ t.run
              t.workspace t.step_key t.attempt now db a s m q (ground arith)
              (refers a m (guarded-id is_unfinished t.id a q)))
    ]

-- So is reaping a task.
pub reap_task-MovesTo :
    (d : Option Definition) (o : Task) (now : ℕ) (db : Db)
    → IsSound db.next_id db.tasks
    → RefersTo o.id o.run o.step_key o.attempt db.tasks
    → MovesTo db (reap_task d o now db)
unfolding reap_task
reap_task-MovesTo d o now db s refers =
    elim (Bool-cases (any_row (guarded is_running o.id) db.tasks)) [
      | inr e ↦ (db, rw e, stay)
      | inl e ↦
          let (a, m, q) = any_row-some _ db.tasks e in
          rw e (
            end_attempt-MovesTo (guarded is_running o.id) _ (λ r h. ground arith) _ o.run
              o.workspace o.step_key o.attempt now db a s m q refl
              (refers a m (guarded-id is_running o.id a q)))
    ]

-- And claiming, parking and resuming one.
pub claim-Moves :
    (t : TaskRef) (config : Value) (now : ℕ) (db : Db)
    → let db' = (claim t config now db).0 in Moves db.next_id db.tasks db'.next_id db'.tasks
unfolding claim
claim-Moves t config now db =
    change (guarded is_queued t.id) (started_task (t.redact (marshal config)) now)
      (λ r h. ground arith) stay

pub suspend_task-Moves :
    (t : TaskRef) (s : Suspend) (raw hashed : Text) (db : Db)
    → let db' = suspend_task t s raw hashed db in Moves db.next_id db.tasks db'.next_id db'.tasks
unfolding suspend_task
suspend_task-Moves t s raw hashed db =
    elim (Bool-cases (any_row (guarded is_running t.id) db.tasks)) [
      | inr e ↦ rw e stay
      | inl e ↦
          let output = t.redact (marshal (suspended_output s.kind s.output raw)) in
          rw e (change (guarded is_running t.id) (suspended_task output) (λ r h. ground arith) stay)
    ]

pub resume_suspended-Moves :
    (task : ℕ) (output : Text) (now : ℕ) (db : Db) {r : Resumed}
    → resume_suspended task output now db ≡ ok r
    → Moves db.next_id db.tasks r.db.next_id r.db.tasks
unfolding resume_suspended
resume_suspended-Moves task output now db {r} e =
    elim (Option-cases (find (task_by_id task) db.tasks)) [
      | inl q ↦ absurd (ground arith)
      | inr (t, q) ↦
          let db' = record db {
            tasks = update (guarded is_suspended task) (resumed_task output now) db.tasks;
          } in
          let same : (r.db.tasks ≡ db'.tasks) × (r.db.next_id ≡ db.next_id) = ground arith in
          rw (same.0, same.1)
            (change (guarded is_suspended task) (resumed_task output now) (λ r h. ground arith)
              stay)
    ]
