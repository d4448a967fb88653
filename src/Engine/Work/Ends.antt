-- ===== src/Engine/Work/Ends.antt =====
-- execute.go: what the worker writes when an executor has returned.
use oarlock.Prelude.{
  ℕ, ◌≡◌, refl, sym, subst, inl, inr, Text, Bool, true, some, Memᴰ, arith, Bool-cases,
  if◌then◌else◌,
}
use oarlock.Prelude.Tables.{update, update-Mem, any_row-of}
use oarlock.Json.{Value, marshal}
use oarlock.Engine.Store.{TaskStatus, Suspension, Task, Db, ok, advance_run}
use oarlock.Engine.Execute.{
  TaskRef, is_running, guarded, succeeded, failed, finished_task, suspend_task, suspended_task,
  suspended_output,
}
use oarlock.Engine.System.{Names}
use oarlock.Engine.Work.{Outcome, produced, errored, parked, end_work}
use oarlock.Engine.Work.Begins.{finish_task-row, finish-ok, ok-inj, err≢ok}

-- The status and the output of a task whose executor has returned.
abbrev pub outcome_status : Outcome → TaskStatus
outcome_status (produced v) = TaskStatus.succeeded
outcome_status (errored m v) = TaskStatus.failed
outcome_status (parked s) = TaskStatus.suspended

abbrev pub outcome_output : Outcome → Text → Value
outcome_output (produced v) raw = v
outcome_output (errored m v) raw = v
outcome_output (parked s) raw = suspended_output s.kind s.output raw

-- A task that ended has an advance of its run in the queue; one that is parked has its suspension.
abbrev pub IsFollowed : Outcome → Text → Task → Db → Type 0
IsFollowed (produced v) hashed row db = Memᴰ (advance_run row.run) db.jobs
IsFollowed (errored m v) hashed row db = Memᴰ (advance_run row.run) db.jobs
IsFollowed (parked s) hashed row db =
    (p : Suspension) × Memᴰ p db.suspensions
    × (p.task ≡ row.id)
    × (p.kind ≡ s.kind)
    × (p.resume_token ≡ hashed)
    × (p.resume_at ≡ s.resume_at)

-- Where an executor has returned for a task that is running, and what the worker writes commits, the
-- task's row has the status that the executor's answer has (succeeded for an output, failed for an
-- error, suspended for the signal) and the redacted output; an advance of the run is queued for one that
-- ended, and the suspension with the hashed token and the time to resume is stored for one that is
-- parked.
pub end_work-ends :
    (takes : Text → Bool) (t : TaskRef) (row : Task) (x : Outcome) (raw hashed : Text) (now : ℕ)
    (db db' : Db)
    → Memᴰ row db.tasks
    → Names t row
    → row.status ≡ TaskStatus.running
    → end_work takes t x raw hashed now db ≡ ok db'
    → ((u : Task) × Memᴰ u db'.tasks
        × (u.id ≡ row.id)
        × (u.status ≡ outcome_status x)
        × (u.output ≡ some (t.redact (marshal (outcome_output x raw)))))
      × IsFollowed x hashed row db'
unfolding end_work suspend_task
end_work-ends takes t row (produced v) raw hashed now db db' m names r e =
    let (put, job) =
      finish_task-row t row succeeded v now db (finish-ok takes t succeeded v now db e) m
        (ground (arith, names.0, r)) in
    (
      (finished_task t succeeded v now row, put, refl, refl, refl),
      subst (λ k. Memᴰ (advance_run k) db'.jobs) (sym names.1) job,
    )
end_work-ends takes t row (errored w v) raw hashed now db db' m names r e =
    let (put, job) =
      finish_task-row t row (failed w) v now db (finish-ok takes t (failed w) v now db e) m
        (ground (arith, names.0, r)) in
    (
      (finished_task t (failed w) v now row, put, refl, refl, refl),
      subst (λ k. Memᴰ (advance_run k) db'.jobs) (sym names.1) job,
    )
end_work-ends takes t row (parked s) raw hashed now db db' m names r e =
    let output = t.redact (marshal (suspended_output s.kind s.output raw)) in
    let f = suspended_task output in
    let hit : guarded is_running t.id row ≡ true = ground (arith, names.0, r) in
    let any = any_row-of (guarded is_running t.id) db.tasks m hit in
    let put : Memᴰ (f row) (update (guarded is_running t.id) f db.tasks) =
      subst (λ b. Memᴰ (if b then f row else row) (update (guarded is_running t.id) f db.tasks)) hit
        (update-Mem (guarded is_running t.id) f db.tasks m) in
    elim (Bool-cases (takes output)) [
      | inr k ↦ absurd (err≢ok (rw k at e))
      | inl k ↦
          subst
            (λ (y : Db).
              ((u : Task) × Memᴰ u y.tasks
                × (u.id ≡ row.id)
                × (u.status ≡ TaskStatus.suspended)
                × (u.output ≡ some output))
              × IsFollowed (parked s) hashed row y)
            (ok-inj (rw (k, any) at e))
            ((f row, put, refl, refl, refl), (_, Memᴰ.head refl, sym names.0, refl, refl, refl))
    ]
