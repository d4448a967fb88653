-- ===== src/Engine/System/Roster/Steps.antt =====
-- Each transaction of engine/internal/engine as moves of the table of runs.
use oarlock.Prelude.{
  ℕ, ◌≡◌, refl, inl, inr, Text, text_eq_iff, true, false, Option, none, some, List, arith,
  Bool-cases,
}
use oarlock.Prelude.Tables.{find, update}
use oarlock.Definition.{Definition, Step}
use oarlock.Engine.Store.{Run, Db, ok, enqueue, run_by_id, advance_run}
use oarlock.Engine.Context.{Guard}
use oarlock.Engine.Runs.{
  RunOpts, Started, start_run_opts, cancel_run, retry_run, keyed, insert_run, new_run, canceled_run,
  redo_all, redos, rerun,
}
use oarlock.Engine.Runs.Commits.{cancel_run-commits, retry_run-found}
use oarlock.Engine.Runs.Start.{start_run_opts-StartedBy, plain, fresh, replayed}
use oarlock.Engine.Advance.{
  Scan, resolve_all, settle, advance, not_failed, fail_run, succeed_run, queued_run, begin_run,
}
use oarlock.Engine.Ledger.Advance.{advance-Advanced, over, settled}
use oarlock.Engine.System.{
  Transition, starts, cancels, retries, advances, claims, finishes, suspends, resumes, reaps,
  queue_works, workflows_change, Reaches, here, onward,
}
use oarlock.Engine.System.Roster.{RunMoves, stay, change, insert, RunMoves-trans}
use oarlock.Engine.System.Holds.{Holds-then, Holds-known}
use oarlock.Engine.System.Roster.Kept.{
  redo_all-KeepsRuns, finish_task-KeepsRuns, reap_task-KeepsRuns, suspend_task-runs,
  resolve_all-runs, resume_suspended-runs, claim-runs,
}

settle-RunMoves :
    (eval : Step → Guard) (d : Definition) (run workspace now : ℕ) (c : Scan) (db : Db)
    → RunMoves db.runs (settle eval d run workspace now c db).runs
unfolding settle
settle-RunMoves eval d run workspace now c db = elim (Bool-cases c.any_failed) [
  | inl e ↦ rw e (change (not_failed run) (fail_run now) (λ r. (refl, refl, refl, refl)) stay)
  | inr e ↦ elim (Bool-cases c.all_succeeded) [
    | inl f ↦
        rw (e, f) (change (run_by_id run) (succeed_run now) (λ r. (refl, refl, refl, refl)) stay)
    | inr f ↦
        let begun : RunMoves db.runs (update (queued_run run) (begin_run now) db.runs) =
          change (queued_run run) (begin_run now) (λ r. (refl, refl, refl, refl)) stay in
        let kept = resolve_all-runs eval d run workspace now c.ready (db, false) in
        elim (Bool-cases (resolve_all eval d run workspace now c.ready (db, false)).1) [
          | inl k ↦ rw (e, f, k, kept) begun
          | inr k ↦ rw (e, f, k, kept) begun
        ]
  ]
]

advance-RunMoves :
    (eval : Definition → Run → Step → Guard) (run now : ℕ) (db : Db) {db' : Db}
    → advance eval run now db ≡ ok db'
    → RunMoves db.runs db'.runs
advance-RunMoves eval run now db e = elim (advance-Advanced eval run now db e) [
  | over r q t same ↦ rw same stay
  | settled r v d q k k' t same ↦ rw same (settle-RunMoves (eval d r) d run r.workspace now _ db)
]

cancel_run-RunMoves :
    (workspace run now : ℕ) (db : Db) {db' : Db}
    → cancel_run workspace run now db ≡ ok db'
    → RunMoves db.runs db'.runs
cancel_run-RunMoves workspace run now db e =
    rw (cancel_run-commits workspace run now db e)
      (change (run_by_id run) (canceled_run now) (λ r. (refl, refl, refl, refl)) stay)

retry_run-RunMoves :
    (workspace run : ℕ) (db : Db) {db' : Db}
    → retry_run workspace run db ≡ ok db'
    → RunMoves db.runs db'.runs
retry_run-RunMoves workspace run db e =
    let (r, found, may, done) = retry_run-found workspace run db e in
    let mid = record db { runs = update (run_by_id run) rerun db.runs } in
    let kept =
      Holds-then (λ d. d.runs ≡ mid.runs) (redo_all run workspace (redos run db.tasks) mid)
        (λ db''. ok (enqueue (advance_run run) db''))
        (redo_all-KeepsRuns run workspace (redos run db.tasks) mid) (λ db'' k. k) in
    rw (Holds-known (λ d. d.runs ≡ mid.runs) _ kept done)
      (change (run_by_id run) rerun (λ r. (refl, refl, refl, refl)) stay)

keyed-same :
    (ws : ℕ) (k : Text) (r : Run) (key : Text)
    → keyed ws k r ≡ true
    → r.idempotency_key ≡ some key
    → (r.workspace ≡ ws) × (key ≡ k)
unfolding keyed
keyed-same ws k r key h e =
    let h' = rw e at h in (ground (arith, h'), (text_eq_iff key k).0 (ground (arith, h')))

insert_run-RunMoves :
    (db : Db) (workspace workflow version : ℕ) (input : Text) (trigger : Option ℕ) (key : Text)
    → find (keyed workspace key) db.runs ≡ none
    → RunMoves db.runs
        (insert_run
          (new_run db.next_id workspace workflow version input trigger (some key))
          db).db.runs
unfolding insert_run new_run
insert_run-RunMoves db workspace workflow version input trigger key free =
    let r = new_run db.next_id workspace workflow version input trigger (some key) in
    insert r
      (λ ws k has.
        let (same, same_key) = keyed-same ws k r key has refl in rw (← same, ← same_key) free)
      stay

start_run_opts-RunMoves :
    (uuid : ℕ → Text) (workspace workflow : ℕ) (input : Text) (opts : RunOpts) (db : Db)
    (s : Started)
    → start_run_opts uuid workspace workflow input opts db ≡ ok s
    → RunMoves db.runs s.db.runs
unfolding insert_run new_run keyed
start_run_opts-RunMoves uuid workspace workflow input opts db s e =
    elim (start_run_opts-StartedBy uuid workspace workflow input opts db s e) [
      | plain v none' q ↦ rw q (
          insert (new_run db.next_id workspace workflow v input opts.trigger_id none)
            (λ ws k has. absurd (ground arith)) stay)
      | fresh v free q ↦
          rw q (insert_run-RunMoves db workspace workflow v input opts.trigger_id _ free)
      | replayed r q same q' ↦ rw q' stay
    ]

RunMoves-same : {rs us : List Run} → us ≡ rs → RunMoves rs us
RunMoves-same e = rw e stay

pub Transition-RunMoves :
    {uuid : ℕ → Text} {db db' : Db} → Transition uuid db db' → RunMoves db.runs db'.runs
Transition-RunMoves {uuid} {db} (starts workspace workflow input opts s e) =
    start_run_opts-RunMoves uuid workspace workflow input opts db s e
Transition-RunMoves {db = db} (cancels workspace run now e) =
    cancel_run-RunMoves workspace run now db e
Transition-RunMoves {db = db} (retries workspace run e) = retry_run-RunMoves workspace run db e
Transition-RunMoves {db = db} (advances eval run now e) = advance-RunMoves eval run now db e
Transition-RunMoves {db = db} (claims t config now) = RunMoves-same (claim-runs t config now db)
Transition-RunMoves {db = db} (finishes t row v output now m names e) =
    RunMoves-same
      (Holds-known (λ d. d.runs ≡ db.runs) _ (finish_task-KeepsRuns t v output now db) e)
Transition-RunMoves {db = db} (suspends t s raw hashed) =
    RunMoves-same (suspend_task-runs t s raw hashed db)
Transition-RunMoves {db = db} (resumes task output now r e) =
    RunMoves-same (resume_suspended-runs task output now db r e)
Transition-RunMoves {db = db} (reaps d o row now m names e) =
    RunMoves-same (Holds-known (λ d. d.runs ≡ db.runs) _ (reap_task-KeepsRuns d o now db) e)
Transition-RunMoves (queue_works jobs) = stay
Transition-RunMoves (workflows_change workflows versions triggers) = stay

pub Reaches-RunMoves :
    {uuid : ℕ → Text} {db db' : Db} → Reaches uuid db db' → RunMoves db.runs db'.runs
Reaches-RunMoves here = stay
Reaches-RunMoves (onward r t) = RunMoves-trans (Reaches-RunMoves r) (Transition-RunMoves t)
