-- ===== src/Engine/Reaper.antt =====
-- engine/internal/engine/reaper.go: failing the tasks whose worker is gone.
use oarlock.Prelude.{
  ℕ, ◌+◌, Text, codes, Bool, false, not, ◌&&◌, Option, none, some, List, [], ◌∷◌, ltb,
  if◌then◌else◌, select, ◌==◌,
}
use oarlock.Prelude.Int.{ℤ, pos, nat_le}
use oarlock.Prelude.Tables.{find, update, any_row}
use oarlock.Json.{message_json}
use oarlock.Definition.{Definition, step}
use oarlock.Engine.Store.{
  TaskStatus, Task, advance_run, Db, Result, ok, err, ◌>>=◌, run_by_id, enqueue,
}
use oarlock.Engine.Execute.{is_running, guarded, retry_task}

-- The retries of the task's step, 0 where the definition or the step cannot be read.
unfoldable pub step_retries : Option Definition → Text → ℤ
unfolding step
step_retries none key = pos 0
step_retries (some d) key = elim (step d key) [ none ↦ pos 0 | some s ↦ s.retries ]

abbrev orphaned : Text
orphaned = message_json (codes "task orphaned: worker exited or timed out")

abbrev pub reaped_task : ℕ → Task → Task
reaped_task now t = record t {
  status = TaskStatus.failed;
  error = some orphaned;
  finished_at = some now;
}

-- `d` is the definition of the run's version.
unfoldable pub reap_task : Option Definition → Task → ℕ → Db → Result Db
unfolding update any_row retry_task step_retries
reap_task d o now db =
    let db' = record db { tasks = update (guarded is_running o.id) (reaped_task now) db.tasks } in
    if not (any_row (guarded is_running o.id) db.tasks)
    then ok db
    else ((if nat_le o.attempt (step_retries d o.step_key)
          then retry_task o.run o.workspace o.step_key o.attempt now db'
          else ok db')
        >>= λ db''. ok (enqueue (advance_run o.run) db''))

-- `status = 'running' and started_at < now() - interval '20 minutes'`.
abbrev pub started_before : ℕ → Option ℕ → Bool
started_before now none = false
started_before now (some at) = ltb (at + 1_200_000_000_000) now

abbrev pub is_orphan : ℕ → Task → Bool
is_orphan now t = is_running t.status && started_before now t.started_at

-- The version's definition, through the run.
unfoldable pub definition_of : Db → ℕ → Option Definition
unfolding find
definition_of db run = elim (find (run_by_id run) db.runs) [
  | none ↦ none
  | some r ↦ elim (find (λ v. v.id == r.version) db.versions) [
    | none ↦ none
    | some v ↦ v.definition
  ]
]

abbrev or_same : Db → Result Db → Db
or_same db (ok db') = db'
or_same db (err e) = db

-- The loop of `reapOrphans`: a task that cannot be reaped is logged and passed over.
unfoldable pub reap_all : Db → List Task → ℕ → Db → Db
unfolding reap_task definition_of
reap_all snapshot [] now db = db
reap_all snapshot (o ∷ os) now db =
    reap_all snapshot os now (or_same db (reap_task (definition_of snapshot o.run) o now db))

unfoldable pub reap_orphans : ℕ → Db → Db
unfolding reap_all
reap_orphans now db = reap_all db (select (is_orphan now) db.tasks) now db
