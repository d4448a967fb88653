-- ===== src/Engine/System/History.antt =====
-- Whatever the order of transactions, each is a move of the ledger of attempts.
use oarlock.Prelude.{ℕ, ◌≡◌, sym, ◌∙◌, subst, inl, inr, Text, List, [], Memᴰ}
use oarlock.Engine.Store.{Run, Task, Db, Result, ok}
use oarlock.Engine.Runs.{RunOpts, Started, start_run_opts, insert_run}
use oarlock.Engine.Runs.Commits.{retry_run-found}
use oarlock.Engine.Runs.Start.{start_run_opts-StartedBy, plain, fresh, replayed}
use oarlock.Engine.Ledger.{Moves, stay, draw, IsSound}
use oarlock.Engine.Ledger.Keeps.{Moves-IsSound, Moves-trans, Apart-at}
use oarlock.Engine.Ledger.Attempts.{
  RefersTo, finish_task-MovesTo, reap_task-MovesTo, claim-Moves, suspend_task-Moves,
  resume_suspended-Moves, MovesTo,
}
use oarlock.Engine.Ledger.Runs.{cancel_run-Moves, retry_run-MovesTo}
use oarlock.Engine.Ledger.Advance.{advance-Moves}
use oarlock.Engine.System.{
  Transition, starts, cancels, retries, advances, claims, finishes, suspends, resumes, reaps,
  queue_works, workflows_change, Reaches, here, onward,
}

abbrev MovesDb : Db → Db → Type 0
MovesDb db db' = Moves db.next_id db.tasks db'.next_id db'.tasks

-- A result that is known is the one of the lemma.
MovesTo-known : (db : Db) {db' : Db} (r : Result Db) → MovesTo db r → r ≡ ok db' → MovesDb db db'
MovesTo-known db {db'} r (d, e, moves) q = let same : d ≡ db' = cc in subst (MovesDb db) same moves

-- Ids are unique, so a reference read from one row names no other.
pub Names-RefersTo :
    (n : ℕ) (ts : List Task) (row : Task) (id run : ℕ) (key : Text) (attempt : ℕ)
    → IsSound n ts
    → Memᴰ row ts
    → (row.id ≡ id) × (row.run ≡ run) × (row.step_key ≡ key) × (row.attempt ≡ attempt)
    → RefersTo id run key attempt ts
Names-RefersTo n ts row id run key attempt s m names t k e = elim (Apart-at ts s.apart m k) [
  | inl same ↦
      subst (λ (x : Task). (x.run ≡ run) × (x.step_key ≡ key) × (x.attempt ≡ attempt)) same
        (names.1, names.2, names.3)
  | inr apart ↦ absurd (apart.ids (names.0 ∙ sym e))
]

-- Starting a run adds no task.
insert_run-Moves : (r : Run) (db : Db) → MovesDb db (insert_run r db).db
unfolding insert_run
insert_run-Moves r db = draw stay

start_run_opts-Moves :
    (uuid : ℕ → Text) (workspace workflow : ℕ) (input : Text) (opts : RunOpts) (db : Db)
    (s : Started)
    → start_run_opts uuid workspace workflow input opts db ≡ ok s
    → MovesDb db s.db
start_run_opts-Moves uuid workspace workflow input opts db s e =
    elim (start_run_opts-StartedBy uuid workspace workflow input opts db s e) [
      | plain v none' q ↦ rw q (insert_run-Moves _ db)
      | fresh v none' q ↦ rw q (insert_run-Moves _ db)
      | replayed r q same q' ↦ rw q' stay
    ]

pub Transition-Moves :
    {uuid : ℕ → Text} {db db' : Db}
    → Transition uuid db db'
    → IsSound db.next_id db.tasks
    → MovesDb db db'
Transition-Moves {uuid} {db} (starts workspace workflow input opts s e) sound =
    start_run_opts-Moves uuid workspace workflow input opts db s e
Transition-Moves {db = db} (cancels workspace run now e) sound =
    cancel_run-Moves workspace run now db e
Transition-Moves {db = db} (retries workspace run e) sound =
    let (r, found, may, done) = retry_run-found workspace run db e in
    MovesTo-known db _ (retry_run-MovesTo workspace run db r sound found may) e
Transition-Moves {db = db} (advances eval run now e) sound = advance-Moves eval run now db sound e
Transition-Moves {db = db} (claims t config now) sound = claim-Moves t config now db
Transition-Moves {db = db} (finishes t row v output now m names e) sound =
    MovesTo-known db _
      (finish_task-MovesTo t v output now db sound
        (Names-RefersTo _ db.tasks row _ _ _ _ sound m names))
      e
Transition-Moves {db = db} (suspends t s raw hashed) sound = suspend_task-Moves t s raw hashed db
Transition-Moves {db = db} (resumes task output now r e) sound =
    resume_suspended-Moves task output now db e
Transition-Moves {db = db} (reaps d o row now m names e) sound =
    MovesTo-known db _
      (reap_task-MovesTo d o now db sound (Names-RefersTo _ db.tasks row _ _ _ _ sound m names)) e
Transition-Moves (queue_works jobs) sound = stay
Transition-Moves (workflows_change workflows versions triggers) sound = stay

pub Reaches-Moves :
    {uuid : ℕ → Text} {db db' : Db}
    → Reaches uuid db db'
    → IsSound db.next_id db.tasks
    → MovesDb db db'
Reaches-Moves here sound = stay
Reaches-Moves (onward r t) sound =
    let moves = Reaches-Moves r sound in
    Moves-trans moves (Transition-Moves t (Moves-IsSound moves sound))

pub empty-IsSound : IsSound 0 []
empty-IsSound = record { below = λ t m. elim m [ ]; apart = tt; first = λ t m. elim m [ ] }
