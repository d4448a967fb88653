-- ===== src/Engine/System/Roster.antt =====
-- The table of runs that the transactions of engine/internal/engine share, as an abstract machine: a
-- row keeps what identifies it, and an insert comes with a free key.
pub mod Kept
pub mod Steps
use oarlock.Prelude.{
  ℕ, ◌≡◌, ◌≤◌, refl, sym, ◌∙◌, ap, subst, inl, inr, Text, Bool, true, false, ◌&&◌, Option, none,
  some, List, [], ◌∷◌, Memᴰ, arith, count_if, ◌==◌, if◌then◌else◌, Bool-cases, Option-cases,
}
use oarlock.Prelude.Tables.{find, update, any_row, find-update, find-none}
use oarlock.Prelude.Counts.{count_if-update_same, count_if-none}
use oarlock.Prelude.Keys.{count_if-insert}
use oarlock.Json.{Value}
use oarlock.Definition.{Definition, Step}
use oarlock.Engine.Store.{Run, Task, Db, ok, insert_task, new_task}
use oarlock.Engine.Context.{Guard}
use oarlock.Engine.Runs.{keyed}

-- A row stays the same run.
abbrev pub SameRun : Run → Run → Type 0
SameRun r r' =
    (r'.id ≡ r.id)
    × (r'.workspace ≡ r.workspace)
    × (r'.workflow ≡ r.workflow)
    × (r'.idempotency_key ≡ r.idempotency_key)

-- No run of the table has the key of a new one.
abbrev pub IsFree : Run → List Run → Type 0
IsFree r rs =
    (workspace : ℕ) (key : Text)
    → keyed workspace key r ≡ true
    → find (keyed workspace key) rs ≡ none

-- `insert` is `insert into runs`, whose key the transaction looked for first.
pub data RunMoves (rs : List Run) : List Run → Type 0 where
  stay : RunMoves rs rs
  change :
      {us : List Run} (p : Run → Bool) (f : Run → Run)
      → ((r : Run) → SameRun r (f r))
      → RunMoves rs us
      → RunMoves rs (update p f us)
  insert : {us : List Run} (r : Run) → IsFree r us → RunMoves rs us → RunMoves rs (r ∷ us)

pub RunMoves-trans : {rs us vs : List Run} → RunMoves rs us → RunMoves us vs → RunMoves rs vs
RunMoves-trans m stay = m
RunMoves-trans m (change p f same n) = change p f same (RunMoves-trans m n)
RunMoves-trans m (insert r free n) = insert r free (RunMoves-trans m n)

module _ (workspace : ℕ) (key : Text) where
  SameRun-keyed : (r r' : Run) → SameRun r r' → keyed workspace key r' ≡ keyed workspace key r
  unfolding keyed
  SameRun-keyed r r' (i, w, f, k) = rw (w, k)

  -- At most one run has a key.
  pub RunMoves-single :
      {rs us : List Run}
      → RunMoves rs us
      → count_if (keyed workspace key) rs ≤ 1
      → count_if (keyed workspace key) us ≤ 1
  RunMoves-single stay h = h
  RunMoves-single (change {us} p f same m) h =
      rw (count_if-update_same (keyed workspace key) p f us (λ r _. SameRun-keyed r (f r) (same r)))
        (RunMoves-single m h)
  RunMoves-single (insert {us} r free m) h =
      count_if-insert (keyed workspace key) r us
        (λ k.
          count_if-none (keyed workspace key) us
            (λ u n. find-none (keyed workspace key) us (free workspace key k) n))
        (RunMoves-single m h)

  -- The run that has a key keeps it.
  pub RunMoves-found :
      {rs us : List Run} {r : Run}
      → RunMoves rs us
      → find (keyed workspace key) rs ≡ some r
      → (u : Run) × (find (keyed workspace key) us ≡ some u)
        × (u.id ≡ r.id)
        × (u.workflow ≡ r.workflow)
  unfolding find
  RunMoves-found {r = r} stay h = (r, h, refl, refl)
  RunMoves-found {r = r} (change {us} p f same m) h =
      let (u, found, i, w) = RunMoves-found m h in
      let u' = if p u then f u else u in
      let kept =
        find-update (keyed workspace key) p f us (λ x. SameRun-keyed x (f x) (same x)) found in
      elim (Bool-cases (p u)) [
        | inl e ↦ (f u, rw e at kept, (same u).0 ∙ i, (same u).2 ∙ w)
        | inr e ↦ (u, rw e at kept, i, w)
      ]
  RunMoves-found (insert {us} r free m) h =
      let (u, found, i, w) = RunMoves-found m h in
      elim (Bool-cases (keyed workspace key r)) [
        | inl e ↦ absurd (ground (arith, free workspace key e))
        | inr e ↦ (u, rw (e, find) found, i, w)
      ]
