-- ===== src/Engine/Ledger/Advance.antt =====
-- advance.go: an advance only adds first attempts, to steps that have none.
use oarlock.Prelude.{
  ℕ, ◌≡◌, refl, inl, inr, Text, text_eq_iff, Bool, true, false, ◌&&◌, none, some, List, [], ◌∷◌,
  Memᴰ, arith, Bool-cases, Option-cases, ◌==◌, if◌then◌else◌,
}
use oarlock.Prelude.Tables.{find, any_row-of}
use oarlock.Definition.{Step, Definition, step}
use oarlock.Engine.Store.{
  Version, TaskStatus, Run, Task, advance_run, execute_task, Db, ok, run_by_id, is_terminal,
  of_step, new_task, task_exists, enqueue,
}
use oarlock.Engine.Context.{Guard, passes, skips, errs}
use oarlock.Engine.Advance.{
  Scan, scan, step_status, insert_ignore, resolve, resolve_all, step_guard, settle, advance,
  version_by_id, blank,
}
use oarlock.Engine.Ledger.{SameStep, Room, Moves, stay, insert, IsSound}
use oarlock.Engine.Ledger.Keeps.{Moves-trans, Moves-IsSound}

abbrev MovesDb : Db → Db → Type 0
MovesDb db db' = Moves db.next_id db.tasks db'.next_id db'.tasks

-- A step that has an attempt has its first, so where the insert of attempt 1 finds no conflict the
-- step has none.
first-Room :
    (n : ℕ) (t : Task) (ts : List Task)
    → IsSound n ts
    → t.attempt ≡ 1
    → task_exists t.run t.step_key t.attempt ts ≡ false
    → Room t ts
unfolding task_exists of_step
first-Room n t ts s one free = record {
  over = λ u m same. absurd (taken u (s.first u m) same);
  first = inl one;
}
  where
    taken : (u : Task) → (v : Task) × Memᴰ v ts × SameStep u v × (v.attempt ≡ 1) → ¬ SameStep t u
    taken u (v, k, same', one') same =
        let hit : (of_step t.run t.step_key v && v.attempt == t.attempt) ≡ true =
          ground (arith, text_eq_iff v.step_key t.step_key) in
        ground
          (arith, any_row-of (λ w. of_step t.run t.step_key w && w.attempt == t.attempt) ts k hit)

insert_ignore-Moves :
    (t : Task) (db : Db)
    → IsSound db.next_id db.tasks
    → t.id ≡ db.next_id
    → t.attempt ≡ 1
    → MovesDb db (insert_ignore t db).0
unfolding insert_ignore
insert_ignore-Moves t db s e one =
    elim (Bool-cases (task_exists t.run t.step_key t.attempt db.tasks)) [
      | inl q ↦ rw q stay
      | inr q ↦ rw q (insert t e (first-Room db.next_id t db.tasks s one q) stay)
    ]

resolve-Moves :
    (g : Guard) (run workspace : ℕ) (key : Text) (now : ℕ) (db : Db) (resolved : Bool)
    → IsSound db.next_id db.tasks
    → MovesDb db (resolve g run workspace key now (db, resolved)).0
unfolding resolve new_task
resolve-Moves skips run workspace key now db resolved s = insert_ignore-Moves _ db s refl refl
resolve-Moves (errs m) run workspace key now db resolved s = insert_ignore-Moves _ db s refl refl
resolve-Moves passes run workspace key now db resolved s =
    let t = new_task db.next_id run workspace key 1 TaskStatus.queued in
    let (db', inserted) = insert_ignore t db in
    elim inserted as (λ b. MovesDb db (if b then enqueue (execute_task t.id none) db' else db')) [
      | true ↦ insert_ignore-Moves t db s refl refl
      | false ↦ insert_ignore-Moves t db s refl refl
    ]

resolve_all-Moves :
    (eval : Step → Guard) (d : Definition) (run workspace now : ℕ) (ks : List Text) (db : Db)
    (resolved : Bool)
    → IsSound db.next_id db.tasks
    → MovesDb db (resolve_all eval d run workspace now ks (db, resolved)).0
unfolding resolve_all
resolve_all-Moves eval d run workspace now [] db resolved s = stay
resolve_all-Moves eval d run workspace now (k ∷ ks) db resolved s =
    let g = step_guard eval (step d k) in
    let (db', resolved') = resolve g run workspace k now (db, resolved) in
    let moves : MovesDb db db' = resolve-Moves g run workspace k now db resolved s in
    Moves-trans moves
      (resolve_all-Moves eval d run workspace now ks db' resolved' (Moves-IsSound moves s))

settle-Moves :
    (eval : Step → Guard) (d : Definition) (run workspace now : ℕ) (c : Scan) (db : Db)
    → IsSound db.next_id db.tasks
    → MovesDb db (settle eval d run workspace now c db)
unfolding settle
settle-Moves eval d run workspace now c db s = elim (Bool-cases c.any_failed) [
  | inl e ↦ rw e stay
  | inr e ↦ elim (Bool-cases c.all_succeeded) [
    | inl e' ↦ rw (e, e') stay
    | inr e' ↦
        let (db', resolved) = resolve_all eval d run workspace now c.ready (db, false) in
        let moves : MovesDb db db' =
          resolve_all-Moves eval d run workspace now c.ready db false s in
        rw (e, e')
          (elim resolved as (λ b. MovesDb db (if b then enqueue (advance_run run) db' else db')) [
            | true ↦ moves
            | false ↦ moves
          ])
  ]
]

-- What an advance that commits did: nothing, where the run is over, or else the switch on its scan.
pub data Advanced (eval : Definition → Run → Step → Guard) (run now : ℕ) (db db' : Db)
    : Type 0 where
  over :
      (r : Run)
      → find (run_by_id run) db.runs ≡ some r
      → is_terminal r.status ≡ true
      → db' ≡ db
      → Advanced eval run now db db'
  settled :
      (r : Run) (v : Version) (d : Definition)
      → find (run_by_id run) db.runs ≡ some r
      → find (version_by_id r.version) db.versions ≡ some v
      → v.definition ≡ some d
      → is_terminal r.status ≡ false
      → db'
        ≡ settle (eval d r) d run r.workspace now (scan (step_status run db.tasks) d.steps blank) db
      → Advanced eval run now db db'

pub advance-Advanced :
    (eval : Definition → Run → Step → Guard) (run now : ℕ) (db : Db) {db' : Db}
    → advance eval run now db ≡ ok db'
    → Advanced eval run now db db'
unfolding advance
advance-Advanced eval run now db {db'} e = elim (Option-cases (find (run_by_id run) db.runs)) [
  | inl q ↦ absurd (ground arith)
  | inr (r, q) ↦ elim (Option-cases (find (version_by_id r.version) db.versions)) [
    | inl q' ↦ absurd (ground arith)
    | inr (v, q') ↦ elim (Bool-cases (is_terminal r.status)) [
      | inl t ↦ over r q t (ground arith)
      | inr t ↦ elim (Option-cases v.definition) [
        | inl q'' ↦ absurd (ground arith)
        | inr (d, q'') ↦ settled r v d q q' q'' t (ground arith)
      ]
    ]
  ]
]

-- An advance that commits is a move: it adds attempts and changes none.
pub advance-Moves :
    (eval : Definition → Run → Step → Guard) (run now : ℕ) (db : Db) {db' : Db}
    → IsSound db.next_id db.tasks
    → advance eval run now db ≡ ok db'
    → MovesDb db db'
advance-Moves eval run now db {db'} s e = elim (advance-Advanced eval run now db e) [
  | over r q t same ↦ rw same stay
  | settled r v d q k k' t same ↦ rw same (settle-Moves (eval d r) d run r.workspace now _ db s)
]
