-- ===== src/Engine/Ledger/Runs.antt =====
-- engine.go: cancelling and retrying a run are moves of the ledger, and a retry's inserts never
-- violate the table's constraint.
use oarlock.Prelude.{
  ℕ, suc, ◌+◌, ◌≤◌, ◌≡◌, refl, sym, ◌∙◌, ap, ◌⊎◌, inl, inr, text_eq_iff, true, false, not, ◌&&◌,
  none, some, List, [], ◌∷◌, Memᴰ, arith, Bool-cases, leb, select, select-Mem,
}
use oarlock.Prelude.Tables.{find, update, any_row, any_row-false}
use oarlock.Engine.Store.{
  TaskStatus, Run, Task, advance_run, execute_task, Db, ok, run_by_id, is_live, of_step, new_task,
  enqueue,
}
use oarlock.Engine.Runs.{
  in_workspace, canceled_task, pending_of, cancel_run, is_retryable, is_latest, redo_row, redos,
  redo_all, rerun, retry_run,
}
use oarlock.Engine.Runs.Commits.{cancel_run-commits}
use oarlock.Engine.Ledger.{SameStep, Room, Moves, stay, change, insert, Apart, AllApart, IsSound}
use oarlock.Engine.Ledger.Keeps.{Apart-at, Moves-trans}
use oarlock.Engine.Ledger.Attempts.{insert_task-Room, MovesTo}

pub cancel_run-Moves :
    (workspace run now : ℕ) (db : Db) {db' : Db}
    → cancel_run workspace run now db ≡ ok db'
    → Moves db.next_id db.tasks db'.next_id db'.tasks
cancel_run-Moves workspace run now db e =
    rw (cancel_run-commits workspace run now db e)
      (change (pending_of run) (canceled_task now) (λ t h. ground arith) stay)

-- All attempts of the row's step are finished, and none is later than it.
record Spent (ts : List Task) (r : Task) : Type 0 where
  here : Memᴰ r ts
  over :
      (u : Task) → Memᴰ u ts → SameStep r u → (is_live u.status ≡ false) × (u.attempt ≤ r.attempt)

-- The rows to redo are of the run, spent, and of different steps.
abbrev Redoable : ℕ → List Task → List Task → Type 0
Redoable run ts [] = Unit
Redoable run ts (r ∷ rs) =
    (r.run ≡ run) × Spent ts r × ((q : Task) → Memᴰ q rs → ¬ SameStep r q) × Redoable run ts rs

-- The next attempt of one step leaves the others as they were.
Redoable-insert :
    (run : ℕ) (ts : List Task) (t : Task) (rs : List Task)
    → ((q : Task) → Memᴰ q rs → ¬ SameStep t q)
    → Redoable run ts rs
    → Redoable run (t ∷ ts) rs
Redoable-insert run ts t [] other red = tt
Redoable-insert run ts t (r ∷ rs) other (mine, spent, apart, rest) = (
  mine,
  record { here = Memᴰ.tail spent.here; over = λ u m same. over u m same },
  apart,
  Redoable-insert run ts t rs (λ q m. other q (Memᴰ.tail m)) rest,
)
  where
    over :
        (u : Task)
        → Memᴰ u (t ∷ ts)
        → SameStep r u
        → (is_live u.status ≡ false) × (u.attempt ≤ r.attempt)
    over u (Memᴰ.head e) same = absurd (
        other r (Memᴰ.head refl)
          (ground (arith, ap (λ (x : Task). x.run) e, ap (λ (x : Task). x.step_key) e)))
    over u (Memᴰ.tail m) same = spent.over u m same

redo_all-MovesTo :
    (run workspace : ℕ) (rs : List Task) (db : Db)
    → Redoable run db.tasks rs
    → MovesTo db (redo_all run workspace rs db)
unfolding redo_all new_task
redo_all-MovesTo run workspace [] db red = (db, refl, stay)
redo_all-MovesTo run workspace (r ∷ rs) db (mine, spent, apart, rest) =
    let next = new_task db.next_id run workspace r.step_key (r.attempt + 1) TaskStatus.queued in
    let room : Room next db.tasks = record {
      over = λ u m same. ground (arith, spent.over u m);
      first = inr (r, spent.here, (sym mine, refl));
    } in
    let db' =
      enqueue (execute_task next.id none)
        (record db { tasks = next ∷ db.tasks; next_id = suc db.next_id }) in
    let (db'', e, moves) =
      redo_all-MovesTo run workspace rs db' (
        Redoable-insert run db.tasks next rs (λ q m same. apart q m (mine ∙ same.0, same.1))
          rest) in
    (db'', rw (insert_task-Room next db room) e, Moves-trans (insert next refl room stay) moves)

is_latest-le :
    (ts : List Task) (t u : Task)
    → is_latest ts t ≡ true
    → Memᴰ u ts
    → SameStep t u
    → u.attempt ≤ t.attempt
unfolding is_latest of_step
is_latest-le ts t u h m same =
    let none' : (any_row (λ u'. of_step t.run t.step_key u' && not (leb u'.attempt t.attempt)) ts)
        ≡ false =
      ground arith in
    ground (arith, any_row-false _ ts none' m, text_eq_iff u.step_key t.step_key)

-- A row to redo is spent.
redo_row-Spent :
    (n run : ℕ) (all : List Task) (t : Task)
    → IsSound n all
    → Memᴰ t all
    → redo_row run all t ≡ true
    → Spent all t
redo_row-Spent n run all t s m h = record {
  here = m;
  over = λ u k same. over u k same (Apart-at all s.apart m k);
}
  where
    over :
        (u : Task)
        → Memᴰ u all
        → SameStep t u
        → (t ≡ u) ⊎ Apart t u
        → (is_live u.status ≡ false) × (u.attempt ≤ t.attempt)
    over u k same (inl e) =
        ground (
          arith,
          is_latest-le all t u,
          ap (λ (x : Task). x.status) e,
          ap (λ (x : Task). x.attempt) e,
        )
    over u k same (inr a) =
        let le : u.attempt ≤ t.attempt = is_latest-le all t u (ground arith) k same in
        ground (arith, a.right same)

select-Redoable :
    (n run : ℕ) (all ts : List Task)
    → IsSound n all
    → ((t : Task) → Memᴰ t ts → Memᴰ t all)
    → AllApart ts
    → Redoable run all (select (redo_row run all) ts)
select-Redoable n run all [] s inside a = tt
select-Redoable n run all (t ∷ ts) s inside (a, rest) = elim (Bool-cases (redo_row run all t)) [
  | inr e ↦ rw e (select-Redoable n run all ts s (λ u m. inside u (Memᴰ.tail m)) rest)
  | inl e ↦ rw e (
    ground arith,
    redo_row-Spent n run all t s (inside t (Memᴰ.head refl)) e,
    (λ q m same. apart e q (select-Mem (redo_row run all) ts m) same),
    select-Redoable n run all ts s (λ u m. inside u (Memᴰ.tail m)) rest,
  )
]
  where
    apart :
        redo_row run all t ≡ true
        → (q : Task) → Memᴰ q ts × (redo_row run all q ≡ true)
        → ¬ SameStep t q
    apart e q (m, h) same =
        let up : q.attempt ≤ t.attempt =
          is_latest-le all t q (ground arith) (inside q (Memᴰ.tail m)) same in
        let down : t.attempt ≤ q.attempt =
          is_latest-le all q t (ground arith) (inside t (Memᴰ.head refl))
            (sym same.0, sym same.1) in
        (a q m).attempts same (omega arith)

-- Retrying a failed or canceled run commits, and is a move.
pub retry_run-MovesTo :
    (workspace run : ℕ) (db : Db) (r : Run)
    → IsSound db.next_id db.tasks
    → find (in_workspace run workspace) db.runs ≡ some r
    → is_retryable r.status ≡ true
    → MovesTo db (retry_run workspace run db)
unfolding retry_run
retry_run-MovesTo workspace run db r s found may =
    let db' = record db { runs = update (run_by_id run) rerun db.runs } in
    let (db'', e, moves) =
      redo_all-MovesTo run workspace (redos run db.tasks) db'
        (select-Redoable db.next_id run db.tasks db.tasks s (λ t m. m) s.apart) in
    (enqueue (advance_run run) db'', rw (found, may, e), moves)
