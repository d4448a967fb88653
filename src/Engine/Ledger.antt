-- ===== src/Engine/Ledger.antt =====
-- The table of task attempts as an abstract machine: what any operation may do to it, and what
-- holds of it. The engine's operations are shown to be such moves in the modules below.
pub mod Keeps
pub mod Attempts
pub mod Runs
pub mod Advance
use oarlock.Prelude.{
  ℕ, zero, suc, ◌+◌, ◌≤◌, ◌<◌, ◌≡◌, ◌≢◌, ◌⊎◌, Text, Bool, true, false, List, [], ◌∷◌, Memᴰ,
}
use oarlock.Prelude.Tables.{update}
use oarlock.Engine.Store.{TaskStatus, Task, is_live}

-- Two attempts of one step of one run.
abbrev pub SameStep : Task → Task → Type 0
SameStep t u = (t.run ≡ u.run) × (t.step_key ≡ u.step_key)

-- An update may change the contents of a row that is live, and nothing that identifies it.
abbrev pub Allowed : (Task → Bool) → (Task → Task) → Type 0
Allowed p f =
    (t : Task)
    → p t ≡ true
    → (is_live t.status ≡ true)
      × ((f t).id ≡ t.id)
      × ((f t).run ≡ t.run)
      × ((f t).step_key ≡ t.step_key)
      × ((f t).attempt ≡ t.attempt)

-- A new attempt comes after all attempts of its step, which are finished; only attempt 1 comes with
-- none before it.
pub record Room (t : Task) (ts : List Task) : Type 0 where
  pub over :
      (u : Task) → Memᴰ u ts → SameStep t u → (is_live u.status ≡ false) × (u.attempt < t.attempt)
  pub first : (t.attempt ≡ 1) ⊎ ((u : Task) × Memᴰ u ts × SameStep t u)

-- From a table with its counter of ids to another.
pub data Moves (n : ℕ) (ts : List Task) : ℕ → List Task → Type 0 where
  stay : Moves n ts n ts
  change :
      {m : ℕ} {us : List Task} (p : Task → Bool) (f : Task → Task)
      → Allowed p f
      → Moves n ts m us
      → Moves n ts m (update p f us)
  -- An id is drawn for a row of another table.
  draw : {m : ℕ} {us : List Task} → Moves n ts m us → Moves n ts (suc m) us
  insert :
      {m : ℕ} {us : List Task} (t : Task)
      → t.id ≡ m
      → Room t us
      → Moves n ts m us
      → Moves n ts (suc m) (t ∷ us)

-- Two rows of the table: their ids differ, and of two attempts of one step the numbers differ and
-- only the later one can be live.
pub record Apart (t u : Task) : Type 0 where
  pub ids : t.id ≢ u.id
  pub attempts : SameStep t u → t.attempt ≢ u.attempt
  pub left : SameStep t u → is_live t.status ≡ true → u.attempt < t.attempt
  pub right : SameStep t u → is_live u.status ≡ true → t.attempt < u.attempt

abbrev pub AllApart : List Task → Type 0
AllApart [] = Unit
AllApart (t ∷ ts) = ((u : Task) → Memᴰ u ts → Apart t u) × AllApart ts

pub record IsSound (n : ℕ) (ts : List Task) : Type 0 where
  pub below : (t : Task) → Memᴰ t ts → t.id < n
  pub apart : AllApart ts
  pub first : (t : Task) → Memᴰ t ts → (u : Task) × Memᴰ u ts × SameStep t u × (u.attempt ≡ 1)
