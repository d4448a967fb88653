-- ===== src/Engine/Advance.antt =====
-- engine/internal/engine/advance.go: the advance of a run, which derives its state from the rows.
pub mod Scanning
pub mod Progress
pub mod Liveness
pub mod NoHang
pub mod Starts
use oarlock.Prelude.{
  ℕ, suc, ◌≡◌, Text, text_eq, codes, Bool, true, false, not, ◌&&◌, ◌||◌, Option, none, some, List,
  [], ◌∷◌, ◌++◌, ◌==◌, if◌then◌else◌,
}
use oarlock.Prelude.Tables.{find, update}
use oarlock.Json.{message_json}
use oarlock.Definition.{Step, Definition, step}
use oarlock.Engine.Store.{
  RunStatus, TaskStatus, Run, Task, Version, Job, advance_run, execute_task, Db, Error, no_rows,
  bad_definition, Result, ok, err, ◌>>=◌, or_fail, run_by_id, is_terminal, latest, new_task,
  task_exists, enqueue,
}
use oarlock.Engine.Context.{Guard, passes, skips, errs}

-- `stepStatus`: the latest attempt's status of each step.
unfoldable pub step_status : ℕ → List Task → Text → Option TaskStatus
unfolding latest
step_status run ts key = elim (latest run key ts) [ none ↦ none | some t ↦ some t.status ]

-- How the loop over the steps reads a status.
pub data Standing : Type 0 where
  missing broken done pending : Standing

abbrev pub standing : Option TaskStatus → Standing
standing none = missing
standing (some TaskStatus.failed) = broken
standing (some TaskStatus.canceled) = broken
standing (some TaskStatus.succeeded) = done
standing (some TaskStatus.skipped) = done
standing (some _) = pending

abbrev pub is_done : Standing → Bool
is_done done = true
is_done _ = false

pub record Scan : Type 0 where
  pub any_failed : Bool
  pub all_succeeded : Bool
  pub ready : List Text

-- `st` is `stepStatus`.
module _ (st : Text → Option TaskStatus) where
  -- Every need has succeeded or was skipped.
  unfoldable pub deps_ok : List Text → Bool
  deps_ok [] = true
  deps_ok (n ∷ ns) = is_done (standing (st n)) && deps_ok ns

  -- The body of the loop.
  unfoldable pub scan_step : Step → Scan → Scan
  unfolding deps_ok
  scan_step s c = elim (standing (st s.key)) [
    | broken ↦ record c { any_failed = true; all_succeeded = false }
    | done ↦ c
    | pending ↦ record c { all_succeeded = false }
    | missing ↦
        if deps_ok s.needs && not c.any_failed
        then record c { all_succeeded = false; ready = c.ready ++ s.key ∷ [] }
        else record c { all_succeeded = false }
  ]

  unfoldable pub scan : List Step → Scan → Scan
  unfolding scan_step
  scan [] c = c
  scan (s ∷ ss) c = scan ss (scan_step s c)

abbrev pub blank : Scan
blank = record { any_failed = false; all_succeeded = true; ready = [] }

-- `insert into tasks … on conflict … do nothing`; the flag is `RowsAffected() > 0`.
unfoldable pub insert_ignore : Task → Db → Db × Bool
unfolding task_exists
insert_ignore t db =
    if task_exists t.run t.step_key t.attempt db.tasks
    then (db, false)
    else (record db { tasks = t ∷ db.tasks; next_id = suc db.next_id }, true)

abbrev pub finished : Option Text → ℕ → Task → Task
finished e now t = record t { error = e; finished_at = some now }

-- One ready step, whose guard has decided: the flag is `guardResolved`.
unfoldable pub resolve : Guard → ℕ → ℕ → Text → ℕ → Db × Bool → Db × Bool
unfolding insert_ignore new_task
resolve passes run workspace key now (db, resolved) =
    let t = new_task db.next_id run workspace key 1 TaskStatus.queued in
    let (db', inserted) = insert_ignore t db in
    (if inserted then enqueue (execute_task t.id none) db' else db', resolved)
resolve skips run workspace key now (db, resolved) =
    let t = finished none now (new_task db.next_id run workspace key 1 TaskStatus.skipped) in
    let (db', inserted) = insert_ignore t db in (db', resolved || inserted)
resolve (errs m) run workspace key now (db, resolved) =
    let e = some (message_json (codes "if condition: " ++ m)) in
    let t = finished e now (new_task db.next_id run workspace key 1 TaskStatus.failed) in
    let (db', inserted) = insert_ignore t db in (db', resolved || inserted)

-- `evalGuard` is called only where the step has a guard.
abbrev pub guard_of : (Step → Guard) → Step → Guard
guard_of eval s = if text_eq s.guard [] then passes else eval s

-- `def.Step(key)` is nil for no ready key; a nil step would be a panic, and is passed over here.
abbrev pub step_guard : (Step → Guard) → Option Step → Guard
step_guard eval none = passes
step_guard eval (some s) = guard_of eval s

-- The loop over the ready keys.
unfoldable pub resolve_all :
    (Step → Guard) → Definition → ℕ → ℕ → ℕ → List Text → Db × Bool → Db × Bool
unfolding resolve step
resolve_all eval d run workspace now [] acc = acc
resolve_all eval d run workspace now (k ∷ ks) acc =
    resolve_all eval d run workspace now ks
      (resolve (step_guard eval (step d k)) run workspace k now acc)

abbrev pub coalesce : Option ℕ → ℕ → Option ℕ
coalesce none now = some now
coalesce (some t) now = some t

abbrev pub fail_run : ℕ → Run → Run
fail_run now r = record r { status = RunStatus.failed; finished_at = coalesce r.finished_at now }

-- `status not in ('failed','canceled')`.
abbrev not_over : RunStatus → Bool
not_over RunStatus.failed = false
not_over RunStatus.canceled = false
not_over _ = true

abbrev pub not_failed : ℕ → Run → Bool
not_failed run r = r.id == run && not_over r.status

abbrev pub succeed_run : ℕ → Run → Run
succeed_run now r = record r { status = RunStatus.succeeded; finished_at = some now }

abbrev pub begin_run : ℕ → Run → Run
begin_run now r = record r { status = RunStatus.running; started_at = coalesce r.started_at now }

abbrev is_queued_run : RunStatus → Bool
is_queued_run RunStatus.queued = true
is_queued_run _ = false

abbrev pub queued_run : ℕ → Run → Bool
queued_run run r = r.id == run && is_queued_run r.status

-- The switch on what the scan found.
unfoldable pub settle : (Step → Guard) → Definition → ℕ → ℕ → ℕ → Scan → Db → Db
unfolding update resolve_all
settle eval d run workspace now c db =
    if c.any_failed
    then record db { runs = update (not_failed run) (fail_run now) db.runs }
    else if c.all_succeeded
    then record db { runs = update (run_by_id run) (succeed_run now) db.runs }
    else (let (db', resolved) = resolve_all eval d run workspace now c.ready (db, false) in
        let db'' = if resolved then enqueue (advance_run run) db' else db' in
        record db'' { runs = update (queued_run run) (begin_run now) db''.runs })

abbrev pub version_by_id : ℕ → Version → Bool
version_by_id id v = v.id == id

-- `advanceRunWorker.Work`. `eval` is `evalGuard` over the state in which the advance began.
unfoldable pub advance : (Definition → Run → Step → Guard) → ℕ → ℕ → Db → Result Db
unfolding find settle scan step_status
advance eval run now db = do
  r ← or_fail (find (run_by_id run) db.runs) no_rows
  v ← or_fail (find (version_by_id r.version) db.versions) no_rows
  if is_terminal r.status then ok db else elim v.definition [
    | none ↦ err bad_definition
    | some d ↦
        ok (
          settle (eval d r) d run r.workspace now (scan (step_status run db.tasks) d.steps blank)
            db)
  ]
