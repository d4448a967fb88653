-- ===== src/Engine/Advance/NoHang.antt =====
-- After an advance of a run whose definition is valid, the run is over, or it has a task that is not
-- finished, or another advance is enqueued.
use oarlock.Prelude.{
  ℕ, ◌≡◌, refl, sym, ◌∙◌, ◌⊎◌, inl, inr, Text, Bool, true, false, Option, some, Memᴰ, arith,
  Bool-cases, List-cases, if◌then◌else◌,
}
use oarlock.Prelude.Tables.{find, find-some, find-update}
use oarlock.Definition.{Step, Definition, step}
use oarlock.Definition.Valid.{IsValid}
use oarlock.Definition.Valid.Whole.{IsValid-NeedsKnown, IsValid-Grounded, IsValid-step}
use oarlock.Engine.Store.{
  TaskStatus, Run, advance_run, Db, ok, run_by_id, is_terminal, Version, enqueue,
}
use oarlock.Engine.Context.{Guard}
use oarlock.Engine.Advance.{
  scan, blank, step_status, resolve_all, settle, advance, version_by_id, fail_run, not_failed,
  succeed_run,
}
use oarlock.Engine.Advance.Scanning.{some_broken, ready_keys, scan_lem}
use oarlock.Engine.Advance.Progress.{all_done-false, pending_below}
use oarlock.Engine.Advance.Liveness.{
  IsOver, IsBusy, Stirred, resolve_all-first, ready_keys-missing, missing-task_exists, pending-task,
}

Stirred-IsBusy :
    (run : ℕ) (acc : Db × Bool)
    → Stirred run acc
    → IsBusy run (if acc.1 then enqueue (advance_run run) acc.0 else acc.0)
Stirred-IsBusy run (db, true) h = inr (Memᴰ.head refl)
Stirred-IsBusy run (db, false) h = ground arith

module _ (eval : Step → Guard) (known : Option (Text → Bool)) (d : Definition)
    (valid : IsValid known d) where
  module _ (run now : ℕ) (r : Run) (db : Db) (found : find (run_by_id run) db.runs ≡ some r) where
    st : Text → Option TaskStatus
    st = step_status run db.tasks

    after : Db
    after = settle eval d run r.workspace now (scan st d.steps blank) db

    failed-IsOver :
        is_terminal r.status ≡ false → (scan st d.steps blank).any_failed ≡ true → IsOver run after
    unfolding after settle
    failed-IsOver live e =
        let (_, mine) = find-some (run_by_id run) db.runs found in
        let at =
          find-update (run_by_id run) (not_failed run) (fail_run now) db.runs (λ x. refl) found in
        let r' : Run = if not_failed run r then fail_run now r else r in (r', rw e at, ground arith)

    succeeded-IsOver :
        (scan st d.steps blank).any_failed ≡ false
        → (scan st d.steps blank).all_succeeded ≡ true
        → IsOver run after
    unfolding after settle
    succeeded-IsOver e e' =
        let (_, mine) = find-some (run_by_id run) db.runs found in
        let at =
          find-update (run_by_id run) (run_by_id run) (succeed_run now) db.runs (λ x. refl) found in
        let r' : Run = if run_by_id run r then succeed_run now r else r in
        (r', rw (e, e') at, ground arith)

    -- Where no step failed and some are not done, the loop over the ready keys leaves the run stirred.
    stirred :
        (scan st d.steps blank).any_failed ≡ false
        → (scan st d.steps blank).all_succeeded ≡ false
        → Stirred run
            (resolve_all eval d run r.workspace now (scan st d.steps blank).ready (db, false))
    unfolding st step resolve_all
    stirred e e' =
        let (fails, succs, readies) = scan_lem st d.steps in
        let sound : some_broken st d.steps ≡ false = sym fails ∙ e in
        let ready : (scan st d.steps blank).ready ≡ ready_keys st d.steps = readies sound in
        rw ready (elim (List-cases (ready_keys st d.steps)) [
          | inl idle ↦
              let (s, m, open') = all_done-false st d.steps (sym succs ∙ e') in
              let (n, q) =
                pending_below st d (IsValid-NeedsKnown valid) sound idle s.key
                  (IsValid-Grounded valid s.key (s, IsValid-step valid s m))
                  (s, IsValid-step valid s m) open' in
              rw idle (inl (pending-task run n db.tasks q))
          | inr (k, ks, q) ↦ rw q (
              resolve_all-first eval d run r.workspace now k ks db
                (missing-task_exists run k 1 db.tasks (ready_keys-missing st d.steps q)))
        ])

    running-IsBusy :
        (scan st d.steps blank).any_failed ≡ false
        → (scan st d.steps blank).all_succeeded ≡ false
        → IsBusy run after
    unfolding after settle
    running-IsBusy e e' = rw (e, e') (Stirred-IsBusy run _ (stirred e e'))

    settle-no_hang : is_terminal r.status ≡ false → IsOver run after ⊎ IsBusy run after
    settle-no_hang live = elim (Bool-cases (scan st d.steps blank).any_failed) [
      | inl e ↦ inl (failed-IsOver live e)
      | inr e ↦ elim (Bool-cases (scan st d.steps blank).all_succeeded) [
        | inl e' ↦ inl (succeeded-IsOver e e')
        | inr e' ↦ inr (running-IsBusy e e')
      ]
    ]

-- An advance of a run whose version holds a valid definition commits, and after it the run is over,
-- or one of its tasks is queued, running or suspended, or another advance of it is in the queue.
pub advance-no_hang :
    (eval : Definition → Run → Step → Guard) (known : Option (Text → Bool)) (run now : ℕ) (db : Db)
    (r : Run) (v : Version) (d : Definition)
    → find (run_by_id run) db.runs ≡ some r
    → find (version_by_id r.version) db.versions ≡ some v
    → v.definition ≡ some d
    → IsValid known d
    → (db' : Db) × (advance eval run now db ≡ ok db') × (IsOver run db' ⊎ IsBusy run db')
unfolding advance after st
advance-no_hang eval known run now db r v d found versioned defined valid =
    elim (Bool-cases (is_terminal r.status)) [
      | inl t ↦ (db, rw (found, versioned, t), inl (r, found, t))
      | inr t ↦ (
        after (eval d r) known d valid run now r db found,
        rw (found, versioned, t, defined),
        settle-no_hang (eval d r) known d valid run now r db found t,
      )
    ]
