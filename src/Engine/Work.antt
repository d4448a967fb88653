-- ===== src/Engine/Work.antt =====
-- engine/internal/engine/execute.go: `executeTaskWorker.Work`, from the job to the claim of its task,
-- and from what the executor returned to the task's row.
pub mod Plans
pub mod Begins
pub mod Ends
use oarlock.Prelude.{
  ℕ, ◌≡◌, Text, codes, Bool, true, false, not, Option, none, some, List, [], ◌∷◌, map,
  if◌then◌else◌,
}
use oarlock.Prelude.Int.{ℤ, pos}
use oarlock.Prelude.Tables.{find}
use oarlock.Json.{Value, marshal, null, str, obj, Fields, end, put}
use oarlock.Steps.Js.{JsResult}
use oarlock.Definition.{Step, Definition, step, transitive_needs}
use oarlock.Engine.Store.{
  TaskStatus, Version, Run, Task, Db, Error, no_rows, invalid_json, Result, ok, err, ◌>>=◌, or_fail,
  run_by_id, task_by_id,
}
use oarlock.Engine.Context.{build_run_context}
use oarlock.Engine.Advance.{version_by_id}
use oarlock.Engine.Redact.{new_redactor, redact}
use oarlock.Engine.Interpolate.{interpolate_config}
use oarlock.Engine.Execute.{
  TaskRef, is_queued, claim, Verdict, succeeded, failed, finish, Suspend, suspend_task,
  suspended_output,
}

-- What the vault answers: the names and the values, or an error. An engine without a vault has none.
pub data Secrets : Type 0 where
  available : List (Text × Text) → Secrets
  unavailable : Text → Secrets

-- Why a task fails before its claim.
pub data Fault : Type 0 where
  no_secrets : Text → Fault
  bad_definition : Fault
  no_step unknown_type : Text → Fault
  bad_config : Text → Text → Fault

-- What an executor returns: its output, an error with an output, or the signal to park the task.
pub data Outcome : Type 0 where
  produced : Value → Outcome
  errored : Text → Value → Outcome
  parked : Suspend → Outcome

abbrev pub Executor : Type 0
Executor = Fields → Value → Outcome

-- What the job does with its task.
pub data Plan : Type 0 where
  fails : TaskRef → Fault → Plan
  runs : TaskRef → Executor → Fields → Value → Plan
  out_of_fuel : Plan

abbrev secret_fields : List (Text × Text) → Fields
secret_fields [] = end
secret_fields ((k, v) ∷ ss) = put k (str v) (secret_fields ss)

unfoldable pub bind_secrets : List (Text × Text) → Value → Value
unfolding put
bind_secrets ss (obj fs) = obj (put (codes "secrets") (obj (secret_fields ss)) fs)
bind_secrets ss v = v

abbrev pub task_ref : Task → ℤ → (Text → Text) → TaskRef
task_ref t retries redact = record {
  id = t.id;
  run = t.run;
  workspace = t.workspace;
  step_key = t.step_key;
  attempt = t.attempt;
  retries = retries;
  redact = redact;
}

abbrev scrub : List (Text × Text) → Text → Text
scrub ss s = redact (some (new_redactor (map (λ p. p.1) ss))) s

-- What a job leaves to do: nothing, or an executor to run.
pub data Next : Type 0 where
  over : Next
  running : TaskRef → Executor → Fields → Value → Next

abbrev pub claimed : TaskRef → Executor → Fields → Value → Db × Bool → Db × Next
claimed t e config context (db, true) = (db, running t e config context)
claimed t e config context (db, false) = (db, over)

-- `secrets` is the vault, `executors` the registry, and `describe` the text of an error.
module _ (secrets : ℕ → Secrets) (executors : Text → Option Executor) (describe : Fault → Text)
    (unmarshal : Option Text → Value) (vm : Text → Value → JsResult) where
  -- The config of a step whose executor is known, against the frozen context.
  unfoldable pub plan_step :
      Task → Run → Definition → Step → Executor → List (Text × Text) → Db → Plan
  unfolding build_run_context bind_secrets interpolate_config transitive_needs
  plan_step t r d s e ss db =
      let ref = task_ref t s.retries (scrub ss) in
      elim (transitive_needs d t.step_key) [
        | none ↦ out_of_fuel
        | some allowed ↦
            let context =
              bind_secrets ss (build_run_context unmarshal t.run r.input allowed db.tasks) in
            let (config, failure) = interpolate_config vm context s.config in
            elim failure [
              | none ↦ runs ref e config context
              | some p ↦ fails ref (bad_config p.0 p.1)
            ]
      ]

  unfoldable pub plan : Task → Run → Version → Db → Plan
  unfolding plan_step step
  plan t r v db = elim (secrets t.workspace) [
    | unavailable m ↦ fails (task_ref t (pos 0) (λ s. s)) (no_secrets m)
    | available ss ↦ elim v.definition [
      | none ↦ fails (task_ref t (pos 0) (scrub ss)) bad_definition
      | some d ↦ elim (step d t.step_key) [
        | none ↦ fails (task_ref t (pos 0) (scrub ss)) (no_step t.step_key)
        | some s ↦ elim (executors s.type) [
          | none ↦ fails (task_ref t s.retries (scrub ss)) (unknown_type s.type)
          | some e ↦ plan_step t r d s e ss db
        ]
      ]
    ]
  ]

  -- `takes` tells the texts that the database takes as `jsonb`.
  module _ (takes : Text → Bool) where
    unfoldable pub follow : Plan → ℕ → Db → Result (Db × Next)
    unfolding finish claim
    follow (fails t f) now db =
        finish takes t (failed (describe f)) null now db >>= λ db'. ok (db', over)
    follow (runs t e config context) now db =
        if takes (t.redact (marshal (obj config)))
        then ok (claimed t e config context (claim t (obj config) now db))
        else err invalid_json
    follow out_of_fuel now db = ok (db, over)

    -- The job of a task that is not queued is a replay, or its task is canceled.
    unfoldable pub begin_work : ℕ → ℕ → Db → Result (Db × Next)
    unfolding find plan follow
    begin_work task now db = do
      t ← or_fail (find (task_by_id task) db.tasks) no_rows
      r ← or_fail (find (run_by_id t.run) db.runs) no_rows
      v ← or_fail (find (version_by_id r.version) db.versions) no_rows
      if not (is_queued t.status) then ok (db, over) else follow (plan t r v db) now db

-- What follows when the executor has returned; the tokens are those of `generateResumeToken`.
unfoldable pub end_work : (Text → Bool) → TaskRef → Outcome → Text → Text → ℕ → Db → Result Db
unfolding finish suspend_task
end_work takes t (produced v) raw hashed now db = finish takes t succeeded v now db
end_work takes t (errored m v) raw hashed now db = finish takes t (failed m) v now db
end_work takes t (parked s) raw hashed now db =
    if takes (t.redact (marshal (suspended_output s.kind s.output raw)))
    then ok (suspend_task t s raw hashed db)
    else err invalid_json
