-- ===== src/Engine/Runs/Retry.antt =====
-- What a retry enqueues.
use oarlock.Prelude.{
  ℕ, suc, ◌+◌, ◌≡◌, refl, sym, ap, subst, inl, inr, true, none, List, [], ◌∷◌, Memᴰ, arith,
  Bool-cases, select-of,
}
use oarlock.Prelude.Tables.{update}
use oarlock.Engine.Store.{
  TaskStatus, Task, advance_run, execute_task, Db, ok, ◌>>=◌, >>=-eq-ok, new_task, task_exists,
  insert_task, enqueue, run_by_id,
}
use oarlock.Engine.Runs.Commits.{retry_run-found}
use oarlock.Engine.Runs.{retry_run, redo_row, redos, redo_all, rerun}

-- The next attempt of the row is queued, with a job that executes it.
abbrev pub Requeued : Task → Db → Type 0
Requeued r db =
    (t : Task) × Memᴰ t db.tasks
    × (t.run ≡ r.run)
    × (t.step_key ≡ r.step_key)
    × (t.attempt ≡ r.attempt + 1)
    × (t.status ≡ TaskStatus.queued)
    × Memᴰ (execute_task t.id none) db.jobs

-- The state after one round of the loop.
abbrev redone : ℕ → ℕ → Task → Db → Db
redone run workspace r db =
    let next = new_task db.next_id run workspace r.step_key (r.attempt + 1) TaskStatus.queued in
    enqueue (execute_task next.id none)
      (record db { tasks = next ∷ db.tasks; next_id = suc db.next_id })

redo_all-cons :
    (run workspace : ℕ) (r : Task) (rs : List Task) (db : Db) {db' : Db}
    → redo_all run workspace (r ∷ rs) db ≡ ok db'
    → redo_all run workspace rs (redone run workspace r db) ≡ ok db'
unfolding redo_all insert_task new_task
redo_all-cons run workspace r rs db e =
    elim (Bool-cases (task_exists run r.step_key (r.attempt + 1) db.tasks)) [
      | inl q ↦ absurd (ground arith)
      | inr q ↦ ground arith
    ]

redo_all-grows :
    (run workspace : ℕ) (rs : List Task) (db : Db) {db' : Db} (r : Task)
    → redo_all run workspace rs db ≡ ok db'
    → Requeued r db
    → Requeued r db'
unfolding redo_all new_task
redo_all-grows run workspace [] db r e q = let same = redo-ok e in subst (Requeued r) same q
  where
    redo-ok : {x y : Db} → ok x ≡ ok y → x ≡ y
    redo-ok p = cc
redo_all-grows run workspace (s ∷ rs) db r e (t, m, i, k, a, st, j) =
    redo_all-grows run workspace rs (redone run workspace s db) r
      (redo_all-cons run workspace s rs db e) (t, Memᴰ.tail m, i, k, a, st, Memᴰ.tail j)

redo_all-Requeued :
    (run workspace : ℕ) (rs : List Task) (db : Db) {db' : Db} (r : Task)
    → redo_all run workspace rs db ≡ ok db'
    → r.run ≡ run
    → Memᴰ r rs
    → Requeued r db'
unfolding new_task
redo_all-Requeued run workspace [] db r e own m = elim m [ ]
redo_all-Requeued run workspace (s ∷ rs) db r e own (Memᴰ.head q) =
    let next = new_task db.next_id run workspace s.step_key (s.attempt + 1) TaskStatus.queued in
    redo_all-grows run workspace rs (redone run workspace s db) r
      (redo_all-cons run workspace s rs db e)
      (
        next,
        Memᴰ.head refl,
        sym own,
        sym (ap (λ (x : Task). x.step_key) q),
        ap (λ (x : Task). x.attempt + 1) (sym q),
        refl,
        Memᴰ.head refl,
      )
redo_all-Requeued run workspace (s ∷ rs) db r e own (Memᴰ.tail m) =
    redo_all-Requeued run workspace rs (redone run workspace s db) r
      (redo_all-cons run workspace s rs db e) own m

retry_run-all :
    (workspace run : ℕ) (db db' : Db)
    → retry_run workspace run db ≡ ok db'
    → Memᴰ (advance_run run) db'.jobs
      × ((r : Task) → Memᴰ r db.tasks → redo_row run db.tasks r ≡ true → Requeued r db')
retry_run-all workspace run db db' e =
    let (r, found, may, done) = retry_run-found workspace run db e in looped done
  where
    begun : Db
    begun = record db { runs = update (run_by_id run) rerun db.runs }

    queued_later : (x : Db) (r : Task) → Requeued r x → Requeued r (enqueue (advance_run run) x)
    queued_later x r (t, m, i, k, a, st, j) = (t, m, i, k, a, st, Memᴰ.tail j)

    looped :
        (redo_all run workspace (redos run db.tasks) begun >>= λ x.
        ok (enqueue (advance_run run) x))
          ≡ ok db'
        → Memᴰ (advance_run run) db'.jobs
          × ((r : Task) → Memᴰ r db.tasks → redo_row run db.tasks r ≡ true → Requeued r db')
    looped h =
        let (x, q, same) = >>=-eq-ok (redo_all run workspace (redos run db.tasks) begun) _ h in
        let all' : (r : Task) → Memᴰ r db.tasks → redo_row run db.tasks r ≡ true → Requeued r x =
          λ r m failed.
            redo_all-Requeued run workspace (redos run db.tasks) begun r q (ground (arith, failed))
              (select-of (redo_row run db.tasks) db.tasks m failed) in
        let done' : enqueue (advance_run run) x ≡ db' = cc in
        subst
          (λ (y : Db).
            Memᴰ (advance_run run) y.jobs
            × ((r : Task) → Memᴰ r db.tasks → redo_row run db.tasks r ≡ true → Requeued r y))
          done' (Memᴰ.head refl, λ r m failed. queued_later x r (all' r m failed))

-- A retry that commits enqueues an advance of the run; and where the latest attempt of a step of the
-- run failed or was canceled, it queues the run's next attempt of the step, with a job that executes
-- it. This holds whatever the step's guard is and whatever made the attempt fail.
pub retry_run-Requeued :
    (workspace run : ℕ) (db db' : Db) (r : Task)
    → retry_run workspace run db ≡ ok db'
    → Memᴰ r db.tasks
    → redo_row run db.tasks r ≡ true
    → Memᴰ (advance_run run) db'.jobs × Requeued r db'
retry_run-Requeued workspace run db db' r e m failed =
    let (advanced, all') = retry_run-all workspace run db db' e in (advanced, all' r m failed)
