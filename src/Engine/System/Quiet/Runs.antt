-- ===== src/Engine/System/Quiet/Runs.antt =====
-- engine.go and advance.go: the transactions on one run, and the attempts of canceled runs.
use oarlock.Prelude.{
  ℕ, ◌+◌, ◌≡◌, refl, ◌∙◌, ap, inl, inr, Text, Bool, false, none, some, List, [], ◌∷◌, arith,
  Bool-cases, ◌==◌,
}
use oarlock.Prelude.Tables.{find, update}
use oarlock.Definition.{Definition, Step, step}
use oarlock.Engine.Store.{
  TaskStatus, Run, Task, Db, ok, new_task, insert_task, enqueue, execute_task, advance_run,
  task_exists, run_by_id,
}
use oarlock.Engine.Context.{Guard, passes, skips, errs}
use oarlock.Engine.Runs.{
  RunOpts, Started, start_run_opts, cancel_run, retry_run, insert_run, new_run, canceled_run,
  redo_all, redos, rerun,
}
use oarlock.Engine.Runs.Commits.{cancel_run-commits, retry_run-found}
use oarlock.Engine.Runs.Start.{start_run_opts-StartedBy, plain, fresh, replayed}
use oarlock.Engine.Advance.{
  Scan, insert_ignore, resolve, resolve_all, settle, advance, not_failed, fail_run, succeed_run,
  queued_run, begin_run, step_guard,
}
use oarlock.Engine.Ledger.Advance.{advance-Advanced, over, settled}
use oarlock.Engine.System.Holds.{Holds, Holds-bind, Holds-known}
use oarlock.Engine.System.Quiet.{
  is_canceled, run_canceled, QuietOn-less, QuietOn-insert, QuietOn-cancel, run_canceled-insert,
  run_canceled-update, run_canceled-cancel,
}
use oarlock.Engine.System.Quiet.Workers.{IsQuietDb, insert_task-IsQuietDb}

insert_run-IsQuietDb :
    (r : Run) (db : Db)
    → is_canceled r.status ≡ false
    → IsQuietDb db
    → IsQuietDb (insert_run r db).db
unfolding insert_run
insert_run-IsQuietDb r db new quiet =
    QuietOn-less (run_canceled db.runs) (run_canceled (r ∷ db.runs)) db.tasks
      (λ i h. run_canceled-insert r db.runs i new h) quiet

pub start_run_opts-IsQuietDb :
    (uuid : ℕ → Text) (workspace workflow : ℕ) (input : Text) (opts : RunOpts) (db : Db)
    (s : Started)
    → start_run_opts uuid workspace workflow input opts db ≡ ok s
    → IsQuietDb db
    → IsQuietDb s.db
unfolding new_run
start_run_opts-IsQuietDb uuid workspace workflow input opts db s e quiet =
    elim (start_run_opts-StartedBy uuid workspace workflow input opts db s e) [
      | plain v none' q ↦ rw q (insert_run-IsQuietDb _ db refl quiet)
      | fresh v free q ↦ rw q (insert_run-IsQuietDb _ db refl quiet)
      | replayed r q same q' ↦ rw q' quiet
    ]

pub cancel_run-IsQuietDb :
    (workspace run now : ℕ) (db : Db) {db' : Db}
    → cancel_run workspace run now db ≡ ok db'
    → IsQuietDb db
    → IsQuietDb db'
cancel_run-IsQuietDb workspace run now db e quiet =
    let runs' = update (run_by_id run) (canceled_run now) db.runs in
    rw (cancel_run-commits workspace run now db e) (
      QuietOn-cancel (run_canceled db.runs) (run_canceled runs') run now db.tasks
        (λ i h. run_canceled-cancel run now db.runs i h) quiet)

-- An update of the runs that cancels none.
update-IsQuietDb :
    (p : Run → Bool) (f : Run → Run) (db : Db)
    → ((r : Run) → ((f r).id ≡ r.id) × (is_canceled (f r).status ≡ false))
    → IsQuietDb db
    → IsQuietDb (record db { runs = update p f db.runs })
update-IsQuietDb p f db keeps quiet =
    QuietOn-less (run_canceled db.runs) (run_canceled (update p f db.runs)) db.tasks
      (λ i h. run_canceled-update p f db.runs i keeps h) quiet

-- A state in which a run is not canceled.
abbrev LiveIn : ℕ → Db → Type 0
LiveIn run db = IsQuietDb db × (run_canceled db.runs run ≡ false)

run_canceled-rerun :
    (run : ℕ) (rs : List Run) → run_canceled (update (run_by_id run) rerun rs) run ≡ false
unfolding run_canceled update
run_canceled-rerun run [] = refl
run_canceled-rerun run (r ∷ rs) = elim (Bool-cases (r.id == run)) [
  | inl e ↦ ground arith
  | inr e ↦ ground (arith, run_canceled-rerun run rs)
]

redo_all-LiveIn :
    (run workspace : ℕ) (rs : List Task) (db : Db)
    → LiveIn run db
    → Holds (LiveIn run) (redo_all run workspace rs db)
unfolding redo_all new_task
redo_all-LiveIn run workspace [] db live = live
redo_all-LiveIn run workspace (r ∷ rs) db live =
    let next = new_task db.next_id run workspace r.step_key (r.attempt + 1) TaskStatus.queued in
    let inserted = insert_task-IsQuietDb next db (λ h. absurd (ground (arith, live.1))) live.0 in
    Holds-bind (λ d. IsQuietDb d × (d.runs ≡ db.runs)) (LiveIn run) (insert_task next db) _ inserted
      (λ db' h.
        redo_all-LiveIn run workspace rs (enqueue (execute_task next.id none) db')
          (h.0, ap (λ us. run_canceled us run) h.1 ∙ live.1))

pub retry_run-IsQuietDb :
    (workspace run : ℕ) (db : Db) {db' : Db}
    → retry_run workspace run db ≡ ok db'
    → IsQuietDb db
    → IsQuietDb db'
retry_run-IsQuietDb workspace run db e quiet =
    let (r, found, may, done) = retry_run-found workspace run db e in
    let mid = record db { runs = update (run_by_id run) rerun db.runs } in
    let begun : LiveIn run mid = (
      update-IsQuietDb (run_by_id run) rerun db (λ x. (refl, refl)) quiet,
      run_canceled-rerun run db.runs,
    ) in
    let kept =
      Holds-bind (LiveIn run) IsQuietDb (redo_all run workspace (redos run db.tasks) mid)
        (λ db''. ok (enqueue (advance_run run) db''))
        (redo_all-LiveIn run workspace (redos run db.tasks) mid begun) (λ db'' h. h.0) in
    Holds-known IsQuietDb _ kept done

insert_ignore-LiveIn : (t : Task) (db : Db) → LiveIn t.run db → LiveIn t.run (insert_ignore t db).0
unfolding insert_ignore
insert_ignore-LiveIn t db live =
    elim (Bool-cases (task_exists t.run t.step_key t.attempt db.tasks)) [
      | inl e ↦ rw e live
      | inr e ↦ rw e (
        QuietOn-insert (run_canceled db.runs) t db.tasks (λ h. absurd (ground (arith, live.1)))
            live.0,
        live.1,
      )
    ]

resolve-LiveIn :
    (g : Guard) (run workspace : ℕ) (key : Text) (now : ℕ) (acc : Db × Bool)
    → LiveIn run acc.0
    → LiveIn run (resolve g run workspace key now acc).0
unfolding resolve new_task
resolve-LiveIn passes run workspace key now (db, resolved) live =
    let t = new_task db.next_id run workspace key 1 TaskStatus.queued in
    let kept = insert_ignore-LiveIn t db live in
    elim (Bool-cases (insert_ignore t db).1) [ inl e ↦ rw e kept | inr e ↦ rw e kept ]
resolve-LiveIn skips run workspace key now (db, resolved) live = insert_ignore-LiveIn _ db live
resolve-LiveIn (errs m) run workspace key now (db, resolved) live = insert_ignore-LiveIn _ db live

resolve_all-LiveIn :
    (eval : Step → Guard) (d : Definition) (run workspace now : ℕ) (keys : List Text)
    (acc : Db × Bool)
    → LiveIn run acc.0
    → LiveIn run (resolve_all eval d run workspace now keys acc).0
unfolding resolve_all
resolve_all-LiveIn eval d run workspace now [] acc live = live
resolve_all-LiveIn eval d run workspace now (k ∷ ks) acc live =
    resolve_all-LiveIn eval d run workspace now ks _
      (resolve-LiveIn (step_guard eval (step d k)) run workspace k now acc live)

settle-IsQuietDb :
    (eval : Step → Guard) (d : Definition) (run workspace now : ℕ) (c : Scan) (db : Db)
    → LiveIn run db
    → IsQuietDb (settle eval d run workspace now c db)
unfolding settle
settle-IsQuietDb eval d run workspace now c db live = elim (Bool-cases c.any_failed) [
  | inl e ↦ rw e (update-IsQuietDb (not_failed run) (fail_run now) db (λ r. (refl, refl)) live.0)
  | inr e ↦ elim (Bool-cases c.all_succeeded) [
    | inl f ↦
        rw (e, f) (update-IsQuietDb (run_by_id run) (succeed_run now) db (λ r. (refl, refl)) live.0)
    | inr f ↦
        let added = resolve_all-LiveIn eval d run workspace now c.ready (db, false) live in
        let db' = (resolve_all eval d run workspace now c.ready (db, false)).0 in
        let begun =
          update-IsQuietDb (queued_run run) (begin_run now) db' (λ r. (refl, refl)) added.0 in
        elim (Bool-cases (resolve_all eval d run workspace now c.ready (db, false)).1) [
          | inl k ↦ rw (e, f, k) begun
          | inr k ↦ rw (e, f, k) begun
        ]
  ]
]

pub run_canceled-found :
    (run : ℕ) (rs : List Run) (r : Run)
    → find (run_by_id run) rs ≡ some r
    → run_canceled rs run ≡ is_canceled r.status
unfolding run_canceled find
run_canceled-found run [] r h = absurd (ground arith)
run_canceled-found run (x ∷ xs) r h = elim (Bool-cases (x.id == run)) [
  | inl e ↦ let same : x ≡ r = ground arith in rw (e, same) refl
  | inr e ↦ rw e (run_canceled-found run xs r (rw (e, find) at h))
]

pub advance-IsQuietDb :
    (eval : Definition → Run → Step → Guard) (run now : ℕ) (db : Db) {db' : Db}
    → advance eval run now db ≡ ok db'
    → IsQuietDb db
    → IsQuietDb db'
advance-IsQuietDb eval run now db e quiet = elim (advance-Advanced eval run now db e) [
  | over r q t same ↦ rw same quiet
  | settled r v d q k k' t same ↦
      let live =
        run_canceled-found run db.runs r q
        ∙ (let alive : is_canceled r.status ≡ false = ground arith in alive) in
      rw same (settle-IsQuietDb (eval d r) d run r.workspace now _ db (quiet, live))
]
