-- ===== src/Engine/Advance/Starts.antt =====
-- What an advance starts: first attempts of steps whose needs are done, as their guards decide.
use mathlib.Core.List.Memᴰ
use oarlock.Prelude.{
  ℕ, suc, ◌≡◌, sym, ◌∙◌, subst, ◌⊎◌, inl, inr, Text, Bool, true, false, none, some, List, [], ◌∷◌,
  Memᴰ, arith, Bool-cases, if◌then◌else◌, select, select-Mem,
}
use oarlock.Prelude.Tables.{find}
use oarlock.Definition.{Step, Definition, step}
use oarlock.Engine.Store.{
  TaskStatus, Version, Run, Task, advance_run, execute_task, Db, ok, new_task, task_exists, enqueue,
  run_by_id,
}
use oarlock.Engine.Context.{Guard, passes, skips, errs}
use oarlock.Engine.Advance.{
  standing, deps_ok, Scan, scan, blank, step_status, insert_ignore, resolve, resolve_all,
  step_guard, settle, advance, version_by_id,
}
use oarlock.Engine.Advance.Scanning.{is_missing, is_ready, ready_keys, scan_lem}
use oarlock.Engine.Ledger.Advance.{over, settled, advance-Advanced}

-- The status with which a step starts.
abbrev pub guard_status : Guard → TaskStatus
guard_status passes = TaskStatus.queued
guard_status skips = TaskStatus.skipped
guard_status (errs m) = TaskStatus.failed

-- The row is the first attempt of the step, with the status that its guard gives.
abbrev Starts : Guard → ℕ → Text → Task → Type 0
Starts g run key t =
    (t.run ≡ run) × (t.step_key ≡ key) × (t.attempt ≡ 1) × (t.status ≡ guard_status g)

insert_ignore-new :
    (t u : Task) (db : Db) → Memᴰ u (insert_ignore t db).0.tasks → Memᴰ u db.tasks ⊎ (u ≡ t)
unfolding insert_ignore
insert_ignore-new t u db m = elim (Bool-cases (task_exists t.run t.step_key t.attempt db.tasks)) [
  | inl e ↦ inl (subst (λ b. Memᴰ u (if b then (db, false) else grown).0.tasks) e m)
  | inr e ↦
      apart (Memᴰ.cases_cons (subst (λ b. Memᴰ u (if b then (db, false) else grown).0.tasks) e m))
]
  where
    grown : Db × Bool
    grown = (record db { tasks = t ∷ db.tasks; next_id = suc db.next_id }, true)

    apart : (u ≡ t) ⊎ Memᴰ u db.tasks → Memᴰ u db.tasks ⊎ (u ≡ t)
    apart (inl e) = inr e
    apart (inr m') = inl m'

resolve-new :
    (g : Guard) (run workspace : ℕ) (key : Text) (now : ℕ) (db : Db) (resolved : Bool) (u : Task)
    → Memᴰ u (resolve g run workspace key now (db, resolved)).0.tasks
    → Memᴰ u db.tasks ⊎ Starts g run key u
unfolding resolve new_task
resolve-new skips run workspace key now db resolved u m = elim (insert_ignore-new _ u db m) [
  | inl m' ↦ inl m'
  | inr e ↦ inr (ground arith)
]
resolve-new (errs x) run workspace key now db resolved u m = elim (insert_ignore-new _ u db m) [
  | inl m' ↦ inl m'
  | inr e ↦ inr (ground arith)
]
resolve-new passes run workspace key now db resolved u m =
    let t = new_task db.next_id run workspace key 1 TaskStatus.queued in
    let (db', inserted) = insert_ignore t db in
    let same : (if inserted then enqueue (execute_task t.id none) db' else db').tasks ≡ db'.tasks =
      ground arith in
    elim (insert_ignore-new t u db (subst (λ ts. Memᴰ u ts) same m)) [
      | inl m' ↦ inl m'
      | inr e ↦ inr (ground arith)
    ]

resolve_all-new :
    (eval : Step → Guard) (d : Definition) (run workspace now : ℕ) (ks : List Text) (db : Db)
    (resolved : Bool) (u : Task)
    → Memᴰ u (resolve_all eval d run workspace now ks (db, resolved)).0.tasks
    → Memᴰ u db.tasks
      ⊎ (Memᴰ u.step_key ks × Starts (step_guard eval (step d u.step_key)) run u.step_key u)
unfolding resolve_all
resolve_all-new eval d run workspace now [] db resolved u m = inl m
resolve_all-new eval d run workspace now (k ∷ ks) db resolved u m =
    let g = step_guard eval (step d k) in
    let (db', resolved') = resolve g run workspace k now (db, resolved) in
    elim (resolve_all-new eval d run workspace now ks db' resolved' u m) [
      | inr (m', s) ↦ inr (Memᴰ.tail m', s)
      | inl m' ↦ elim (resolve-new g run workspace k now db resolved u m') [
        | inl m'' ↦ inl m''
        | inr s ↦ inr (Memᴰ.head s.1, mine s)
      ]
    ]
  where
    mine :
        Starts (step_guard eval (step d k)) run k u
        → Starts (step_guard eval (step d u.step_key)) run u.step_key u
    mine s = subst (λ x. Starts (step_guard eval (step d x)) run x u) (sym s.1) (s.0, s.1, s.2, s.3)

-- A step of the definition that is ready in the state, under the key.
abbrev pub ReadyStep : Definition → ℕ → Db → Text → Type 0
ReadyStep d run db key =
    (s : Step) × Memᴰ s d.steps
    × (s.key ≡ key)
    × (is_missing (standing (step_status run db.tasks key)) ≡ true)
    × (deps_ok (step_status run db.tasks) s.needs ≡ true)

ready_keys-ReadyStep :
    (d : Definition) (run : ℕ) (db : Db) (key : Text)
    → Memᴰ key (ready_keys (step_status run db.tasks) d.steps)
    → ReadyStep d run db key
ready_keys-ReadyStep d run db key m =
    let st = step_status run db.tasks in
    let (s, m', e) = Memᴰ.of_map (λ (x : Step). x.key) (select (is_ready st) d.steps) m in
    let (inside, ready) = select-Mem (is_ready st) d.steps m' in
    let here : is_missing (standing (st s.key)) ≡ true = ground arith in
    (s, inside, e, subst (λ k. is_missing (standing (st k)) ≡ true) e here, ground arith)

settle-new :
    (eval : Step → Guard) (d : Definition) (run workspace now : ℕ) (db : Db) (u : Task)
    → Memᴰ u
        (settle eval d run workspace now (scan (step_status run db.tasks) d.steps blank) db).tasks
    → Memᴰ u db.tasks
      ⊎ (ReadyStep d run db u.step_key
          × Starts (step_guard eval (step d u.step_key)) run u.step_key u)
unfolding settle
settle-new eval d run workspace now db u m = elim (Bool-cases c.any_failed) [
  | inl e ↦ inl (rw (e, settle) at m)
  | inr e ↦ elim (Bool-cases c.all_succeeded) [
    | inl e' ↦ inl (rw (e, e', settle) at m)
    | inr e' ↦ ready e (
        resolve_all-new eval d run workspace now c.ready db false u
          (from_loop (rw (e, e', settle) at m)))
  ]
]
  where
    c : Scan
    c = scan (step_status run db.tasks) d.steps blank

    looped : Db × Bool
    looped = resolve_all eval d run workspace now c.ready (db, false)

    from_loop :
        Memᴰ u (if looped.1 then enqueue (advance_run run) looped.0 else looped.0).tasks
        → Memᴰ u looped.0.tasks
    from_loop m' =
        let same : (if looped.1 then enqueue (advance_run run) looped.0 else looped.0).tasks
            ≡ looped.0.tasks =
          ground arith in
        subst (λ ts. Memᴰ u ts) same m'

    ready :
        c.any_failed ≡ false
        → Memᴰ u db.tasks
          ⊎ (Memᴰ u.step_key c.ready
              × Starts (step_guard eval (step d u.step_key)) run u.step_key u)
        → Memᴰ u db.tasks
          ⊎ (ReadyStep d run db u.step_key
              × Starts (step_guard eval (step d u.step_key)) run u.step_key u)
    ready e (inl m') = inl m'
    ready e (inr (k, s)) =
        let (fails, _, readies) = scan_lem (step_status run db.tasks) d.steps in
        inr (
          ready_keys-ReadyStep d run db u.step_key
              (subst (Memᴰ u.step_key) (readies (sym fails ∙ e)) k),
          s,
        )

-- Where an advance commits, every task that it adds is the first attempt of a step of the definition
-- of the run's version that had no attempt and whose needs had all succeeded or been skipped; it is
-- queued where the step has no guard or the guard passed, skipped where the guard was falsy, and
-- failed where it did not evaluate.
pub advance-starts_ready :
    (eval : Definition → Run → Step → Guard) (run now : ℕ) (db db' : Db) (u : Task)
    → advance eval run now db ≡ ok db'
    → Memᴰ u db'.tasks
    → Memᴰ u db.tasks
      ⊎ ((r : Run) × (v : Version) × (d : Definition) × (find (run_by_id run) db.runs ≡ some r)
          × (find (version_by_id r.version) db.versions ≡ some v)
          × (v.definition ≡ some d)
          × ReadyStep d run db u.step_key
          × (u.run ≡ run)
          × (u.attempt ≡ 1)
          × (u.status ≡ guard_status (step_guard (eval d r) (step d u.step_key))))
advance-starts_ready eval run now db db' u e m = elim (advance-Advanced eval run now db e) [
  | over r q t same ↦ inl (subst (λ (x : Db). Memᴰ u x.tasks) same m)
  | settled r v d q k k' t same ↦
      elim (settle-new (eval d r) d run r.workspace now db u
        (subst (λ (x : Db). Memᴰ u x.tasks) same m)) [
          | inl m' ↦ inl m'
          | inr (ready, s) ↦ inr (r, v, d, q, k, k', ready, s.0, s.2, s.3)
        ]
]
