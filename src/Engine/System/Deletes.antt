-- ===== src/Engine/System/Deletes.antt =====
-- What the deletion of workflows, beside the engine's transactions, leaves of the invariants.
use mathlib.Core.List.Memᴰ
use oarlock.Prelude.{ℕ, refl, sym, ap, ◌∙◌, inl, inr, Text, Bool, List, [], ◌∷◌, Memᴰ, Bool-cases}
use oarlock.Prelude.Tables.{delete}
use oarlock.Prelude.Keys.{delete-away, delete-kept}
use oarlock.Engine.Store.{Task, Db}
use oarlock.Engine.Ledger.{AllApart, IsSound}
use oarlock.Engine.Ledger.Keeps.{Moves-IsSound}
use oarlock.Engine.System.{
  Reaches, here, onward, Evolves, begin, moves, deletes, cascade, run_of, any_workflow, empty_db,
}
use oarlock.Engine.System.History.{Transition-Moves, empty-IsSound}

-- A table without the rows of some runs.
module _ (c : ℕ → Bool) where
  pub delete-from : (ts : List Task) {t : Task} → Memᴰ t (delete (λ x. c x.run) ts) → Memᴰ t ts
  unfolding delete
  delete-from [] m = m
  delete-from (x ∷ xs) {t} m = elim (Bool-cases (c x.run)) [
    | inl e ↦ Memᴰ.tail (delete-from xs (rw (e, delete) at m))
    | inr e ↦ elim (Memᴰ.cases_cons (rw (e, delete) at m)) [
      | inl q ↦ Memᴰ.head q
      | inr k ↦ Memᴰ.tail (delete-from xs k)
    ]
  ]

  delete-AllApart : (ts : List Task) → AllApart ts → AllApart (delete (λ x. c x.run) ts)
  unfolding delete
  delete-AllApart [] a = tt
  delete-AllApart (x ∷ xs) (a, rest) = elim (Bool-cases (c x.run)) [
    | inl e ↦ rw (e, delete) (delete-AllApart xs rest)
    | inr e ↦ rw (e, delete) (λ u m. a u (delete-from xs m), delete-AllApart xs rest)
  ]

  delete-IsSound : (n : ℕ) (ts : List Task) → IsSound n ts → IsSound n (delete (λ x. c x.run) ts)
  delete-IsSound n ts s = record {
    below = λ t m. s.below t (delete-from ts m);
    apart = delete-AllApart ts s.apart;
    first = λ t m.
        let (u, m', same, one) = s.first t (delete-from ts m) in
        let away = delete-away (λ (x : Task). c x.run) ts m in
        (u, delete-kept (λ (x : Task). c x.run) ts m' (ap c (sym same.0) ∙ away), same, one);
  }

-- Whatever transactions ran, in whatever order, and whatever workflows were deleted, since the
-- database was empty: task ids are distinct and drawn, of two attempts of one step the numbers differ
-- and only the later one can be queued, running or suspended, and a step with an attempt has an
-- attempt 1.
pub Evolves-IsSound :
    (uuid : ℕ → Text) (spared : ℕ → Bool) (db : Db)
    → Evolves uuid spared empty_db db
    → IsSound db.next_id db.tasks
unfolding cascade
Evolves-IsSound uuid spared db begin = empty-IsSound
Evolves-IsSound uuid spared db (moves {mid} r step) =
    let sound = Evolves-IsSound uuid spared mid r in
    Moves-IsSound (Transition-Moves step sound) sound
Evolves-IsSound uuid spared db (deletes {mid} w workflows versions triggers free r) =
    delete-IsSound (run_of w mid.runs) mid.next_id mid.tasks (Evolves-IsSound uuid spared mid r)

pub Reaches-Evolves :
    {uuid : ℕ → Text} {spared : ℕ → Bool} {db db' : Db}
    → Reaches uuid db db'
    → Evolves uuid spared db db'
Reaches-Evolves here = begin
Reaches-Evolves (onward r t) = moves (Reaches-Evolves r) t

pub Evolves-trans :
    {uuid : ℕ → Text} {spared : ℕ → Bool} {db mid db' : Db}
    → Evolves uuid spared db mid
    → Evolves uuid spared mid db'
    → Evolves uuid spared db db'
Evolves-trans r begin = r
Evolves-trans r (moves r' t) = moves (Evolves-trans r r') t
Evolves-trans r (deletes w ws vs ts free r') = deletes w ws vs ts free (Evolves-trans r r')

-- What is deleted where some workflows are spared is deleted where none is.
pub Evolves-any :
    {uuid : ℕ → Text} {spared : ℕ → Bool} {db db' : Db}
    → Evolves uuid spared db db'
    → Evolves uuid any_workflow db db'
Evolves-any begin = begin
Evolves-any (moves r t) = moves (Evolves-any r) t
Evolves-any (deletes w ws vs ts free r) = deletes w ws vs ts refl (Evolves-any r)
