-- ===== src/Engine/Context.antt =====
-- engine/internal/engine: `buildRunContext` of execute.go and `evalGuard` of advance.go.
use oarlock.Prelude.{
  ℕ, Text, codes, Bool, true, false, Option, none, some, List, [], ◌∷◌, ◌++◌, select,
}
use oarlock.Json.{Value, bool, obj, Fields, end, field, put}
use oarlock.Steps.Js.{JsResult, value, thrown, eval_expression}
use oarlock.Definition.{Step, Definition, transitive_needs}
use oarlock.Engine.Store.{TaskStatus, Task, latest}

abbrev succeeded_status : TaskStatus → Bool
succeeded_status TaskStatus.succeeded = true
succeeded_status _ = false

abbrev is_succeeded : Task → Bool
is_succeeded t = succeeded_status t.status

-- What the guard of a step decides: run the step, skip it, or fail it with a message.
pub data Guard : Type 0 where
  passes skips : Guard
  errs : Text → Guard

-- The JS truth of `!!(…)`, handed back as a Go bool; any other value reads as false.
abbrev truthy : Value → Guard
truthy (bool true) = Guard.passes
truthy _ = Guard.skips

abbrev guard_result : JsResult → Guard
guard_result (value v) = truthy v
guard_result (thrown m) = Guard.errs m

-- `unmarshal` reads a stored column into a value, and a missing or malformed one as null.
module _ (unmarshal : Option Text → Value) where
  -- The outputs of the allowed steps that succeeded, each from its latest attempt that did.
  unfoldable pub step_outputs : ℕ → List Text → List Task → Fields
  unfolding latest put
  step_outputs run [] ts = end
  step_outputs run (k ∷ ks) ts =
      let rest = step_outputs run ks ts in
      elim (latest run k (select is_succeeded ts)) [
        | none ↦ rest
        | some t ↦ put k (unmarshal t.output) rest
      ]

  unfoldable pub build_run_context : ℕ → Text → List Text → List Task → Value
  unfolding step_outputs
  build_run_context run input allowed ts = obj (
      field (codes "input") (unmarshal (some input))
        (field (codes "steps") (obj (step_outputs run allowed ts)) end))

  -- `none` where the closure of the needs runs out of fuel, which it does not.
  unfoldable pub eval_guard :
      (Text → Value → JsResult) → Definition → ℕ → Text → List Task → Step → Option Guard
  unfolding build_run_context eval_expression
  eval_guard vm d run input ts s = elim (transitive_needs d s.key) [
    | none ↦ none
    | some allowed ↦ some (
        guard_result (
          eval_expression vm (codes "!!(" ++ (s.guard ++ codes ")"))
            (build_run_context run input allowed ts)))
  ]
