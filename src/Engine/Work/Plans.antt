-- ===== src/Engine/Work/Plans.antt =====
-- execute.go: what `Work` plans for its task.
use oarlock.Prelude.{ℕ, ◌≡◌, refl, ◌⊎◌, inl, inr, Text, Option, List, Option-cases}
use oarlock.Json.{Value}
use oarlock.Steps.Js.{JsResult}
use oarlock.Definition.{Step, Definition, step}
use oarlock.Definition.Closure.{transitive_needs-Upstream}
use oarlock.Engine.Store.{Version, Run, Task, Db}
use oarlock.Engine.Context.{build_run_context}
use oarlock.Engine.Interpolate.{interpolate_config}
use oarlock.Engine.System.{Names}
use oarlock.Engine.Work.{
  Secrets, available, unavailable, Fault, Executor, Plan, fails, runs, out_of_fuel, plan, plan_step,
  bind_secrets,
}

-- The plan is about the task that it was made for; the closure of the needs has fuel enough.
abbrev pub Concerns : Task → Plan → Type 0
Concerns t (fails ref f) = Names ref t
Concerns t (runs ref e config context) = Names ref t
Concerns t out_of_fuel = ⊥

Secrets-cases :
    (x : Secrets)
    → ((m : Text) × (x ≡ unavailable m)) ⊎ ((ss : List (Text × Text)) × (x ≡ available ss))
Secrets-cases (unavailable m) = inl (m, refl)
Secrets-cases (available ss) = inr (ss, refl)

module _ (secrets : ℕ → Secrets) (executors : Text → Option Executor) (describe : Fault → Text)
    (unmarshal : Option Text → Value) (vm : Text → Value → JsResult) where
  plan_step-Concerns :
      (t : Task) (r : Run) (d : Definition) (s : Step) (e : Executor) (ss : List (Text × Text))
      (db : Db)
      → Concerns t (plan_step secrets executors describe unmarshal vm t r d s e ss db)
  unfolding plan_step
  plan_step-Concerns t r d s e ss db =
      let (allowed, q, _) = transitive_needs-Upstream d t.step_key in
      let context = bind_secrets ss (build_run_context unmarshal t.run r.input allowed db.tasks) in
      elim (Option-cases (interpolate_config vm context s.config).1) [
        | inl f ↦ rw (q, f, plan_step) (refl, refl, refl, refl)
        | inr (p, f) ↦ rw (q, f, plan_step) (refl, refl, refl, refl)
      ]

  pub plan-Concerns :
      (t : Task) (r : Run) (v : Version) (db : Db)
      → Concerns t (plan secrets executors describe unmarshal vm t r v db)
  unfolding plan
  plan-Concerns t r v db = elim (Secrets-cases (secrets t.workspace)) [
    | inl (m, a) ↦ rw (a, plan) (refl, refl, refl, refl)
    | inr (ss, a) ↦ elim (Option-cases v.definition) [
      | inl b ↦ rw (a, b, plan) (refl, refl, refl, refl)
      | inr (d, b) ↦ elim (Option-cases (step d t.step_key)) [
        | inl c ↦ rw (a, b, c, plan) (refl, refl, refl, refl)
        | inr (s, c) ↦ elim (Option-cases (executors s.type)) [
          | inl e ↦ rw (a, b, c, e, plan) (refl, refl, refl, refl)
          | inr (x, e) ↦ rw (a, b, c, e, plan) (plan_step-Concerns t r d s x ss db)
        ]
      ]
    ]
  ]
