-- ===== src/Engine/Advance/Liveness.antt =====
-- After an advance of a run whose definition is valid, the run is over, or it has a task that is not
-- finished, or another advance is enqueued.
use oarlock.Prelude.{
  ℕ, ◌≡◌, subst, ◌⊎◌, inl, inr, Text, Bool, true, false, Option, some, List, [], ◌∷◌, Memᴰ, arith,
  Bool-cases, Option-cases,
}
use oarlock.Prelude.Tables.{find, any_row, any_row-of, any_row-none}
use oarlock.Definition.{Step, Definition, step}
use oarlock.Engine.Store.{
  TaskStatus, Run, Task, advance_run, Db, run_by_id, is_terminal, of_step, latest, new_task,
  task_exists,
}
use oarlock.Engine.Latest.{IsLatest, latest-IsLatest}
use oarlock.Engine.Runs.{pending_of}
use oarlock.Engine.Context.{Guard, passes, skips, errs}
use oarlock.Engine.Advance.{
  pending, standing, step_status, insert_ignore, resolve, resolve_all, step_guard,
}
use oarlock.Engine.Advance.Scanning.{is_missing, is_ready, ready_keys}

-- The row of the run says that it is over.
abbrev pub IsOver : ℕ → Db → Type 0
IsOver run db = (r : Run) × (find (run_by_id run) db.runs ≡ some r) × (is_terminal r.status ≡ true)

-- A task of the run is queued, running or suspended, or an advance of the run is in the queue.
abbrev pub IsBusy : ℕ → Db → Type 0
IsBusy run db = (any_row (pending_of run) db.tasks ≡ true) ⊎ Memᴰ (advance_run run) db.jobs

-- The same inside the loop over the ready keys, where the advance is not enqueued yet.
abbrev pub Stirred : ℕ → Db × Bool → Type 0
Stirred run (db, resolved) = (any_row (pending_of run) db.tasks ≡ true) ⊎ (resolved ≡ true)

resolve-Stirred :
    (g : Guard) (run workspace : ℕ) (key : Text) (now : ℕ) (db : Db) (resolved : Bool)
    → Stirred run (db, resolved)
    → Stirred run (resolve g run workspace key now (db, resolved))
unfolding resolve insert_ignore new_task any_row
resolve-Stirred passes run workspace key now db resolved h = ground arith
resolve-Stirred skips run workspace key now db resolved h = ground arith
resolve-Stirred (errs m) run workspace key now db resolved h = ground arith

resolve-first :
    (g : Guard) (run workspace : ℕ) (key : Text) (now : ℕ) (db : Db) (resolved : Bool)
    → task_exists run key 1 db.tasks ≡ false
    → Stirred run (resolve g run workspace key now (db, resolved))
unfolding resolve insert_ignore new_task any_row
resolve-first passes run workspace key now db resolved h = ground arith
resolve-first skips run workspace key now db resolved h = ground arith
resolve-first (errs m) run workspace key now db resolved h = ground arith

resolve_all-Stirred :
    (eval : Step → Guard) (d : Definition) (run workspace now : ℕ) (ks : List Text) (db : Db)
    (resolved : Bool)
    → Stirred run (db, resolved)
    → Stirred run (resolve_all eval d run workspace now ks (db, resolved))
unfolding resolve_all
resolve_all-Stirred eval d run workspace now [] db resolved h = h
resolve_all-Stirred eval d run workspace now (k ∷ ks) db resolved h =
    let g = step_guard eval (step d k) in
    let (db', resolved') = resolve g run workspace k now (db, resolved) in
    resolve_all-Stirred eval d run workspace now ks db' resolved'
      (resolve-Stirred g run workspace k now db resolved h)

pub resolve_all-first :
    (eval : Step → Guard) (d : Definition) (run workspace now : ℕ) (k : Text) (ks : List Text)
    (db : Db)
    → task_exists run k 1 db.tasks ≡ false
    → Stirred run (resolve_all eval d run workspace now (k ∷ ks) (db, false))
unfolding resolve_all
resolve_all-first eval d run workspace now k ks db h =
    let g = step_guard eval (step d k) in
    let (db', resolved') = resolve g run workspace k now (db, false) in
    resolve_all-Stirred eval d run workspace now ks db' resolved'
      (resolve-first g run workspace k now db false h)

-- A ready key has no attempt.
pub ready_keys-missing :
    (st : Text → Option TaskStatus) (ss : List Step) {k : Text} {ks : List Text}
    → ready_keys st ss ≡ k ∷ ks
    → is_missing (standing (st k)) ≡ true
ready_keys-missing st [] e = absurd (ground arith)
ready_keys-missing st (s ∷ ss) {k} {ks} e = elim (Bool-cases (is_ready st s)) [
  | inl q ↦ let here : s.key ≡ k = ground arith in rw (← here) (ground arith)
  | inr q ↦ let there : ready_keys st ss ≡ k ∷ ks = ground arith in ready_keys-missing st ss there
]

pub missing-task_exists :
    (run : ℕ) (k : Text) (attempt : ℕ) (ts : List Task)
    → is_missing (standing (step_status run ts k)) ≡ true
    → task_exists run k attempt ts ≡ false
unfolding step_status task_exists
missing-task_exists run k attempt ts h = elim (Option-cases (latest run k ts)) [
  | inr (t, e) ↦ absurd (found t e (standing-live t.status))
  | inl e ↦
      let none' = subst (λ o. IsLatest run k ts o) e (latest-IsLatest run k ts) in
      any_row-none _ ts (λ u m. ground (arith, none' u m))
]
  where
    standing-live : (x : TaskStatus) → is_missing (standing (some x)) ≡ false
    standing-live x = ground arith

    found :
        (t : Task) → latest run k ts ≡ some t → is_missing (standing (some t.status)) ≡ false → ⊥
    found t e q = ground arith

pub pending-task :
    (run : ℕ) (k : Text) (ts : List Task)
    → standing (step_status run ts k) ≡ pending
    → any_row (pending_of run) ts ≡ true
unfolding step_status of_step
pending-task run k ts h = elim (Option-cases (latest run k ts)) [
  | inl e ↦ absurd (ground arith)
  | inr (t, e) ↦
      let (m, q, _) = subst (λ o. IsLatest run k ts o) e (latest-IsLatest run k ts) in
      any_row-of (pending_of run) ts m (ground arith)
]
