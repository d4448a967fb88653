-- ===== src/Engine/System/Once.antt =====
-- engine/internal/engine/engine.go: `StartRunOpts` with the key of an earlier start, after other
-- transactions.
use oarlock.Prelude.{
  ℕ, ◌≤◌, refl, ◌≡◌, ◌≢◌, ◌∙◌, ◌⊎◌, inl, inr, Text, Bool, false, ◌==◌, Option, some, [], arith,
  count_if, Option-cases,
}
use oarlock.Prelude.Tables.{find, find-delete}
use oarlock.Engine.Store.{Workflow, Run, Db, ok, err, no_rows}
use oarlock.Engine.Runs.{RunOpts, Started, start_run_opts, deployed, keyed, scoped_key}
use oarlock.Engine.Runs.Start.{start_run_opts-StartedBy}
use oarlock.Engine.Runs.Idempotency.{started-Held, start_run_opts-replays}
use oarlock.Engine.System.{Evolves, begin, moves, deletes, cascade, all_but}
use oarlock.Prelude.Counts.{count_if-delete_le}
use oarlock.Engine.System.Roster.{RunMoves-single, RunMoves-found}
use oarlock.Engine.System.Roster.Steps.{Transition-RunMoves}

-- The workflow is in the workspace and has a version.
abbrev pub IsDeployed : ℕ → ℕ → Db → Type 0
IsDeployed workspace workflow db =
    (w : Workflow) × (version : ℕ) × (find (deployed workflow workspace) db.workflows ≡ some w)
    × (w.current_version ≡ some version)

-- What a start does in a state where a run of the workflow has its key.
start_run_opts-taken :
    (uuid : ℕ → Text) (workspace workflow : ℕ) (input : Text) (opts : RunOpts) (db : Db) (r : Run)
    → opts.idempotency_key ≢ []
    → find (keyed workspace (scoped_key uuid workflow opts.idempotency_key)) db.runs ≡ some r
    → r.workflow ≡ workflow
    → (start_run_opts uuid workspace workflow input opts db
        ≡ ok (record { run = r.id; created = false; db = db }))
      ⊎ ((¬ IsDeployed workspace workflow db)
          × (start_run_opts uuid workspace workflow input opts db ≡ err no_rows))
unfolding start_run_opts
start_run_opts-taken uuid workspace workflow input opts db r asked found same =
    elim (Option-cases (find (deployed workflow workspace) db.workflows)) [
      | inl q ↦ inr (λ (w, v, e, e'). cc (q, e), ground arith)
      | inr (w, q) ↦ elim (Option-cases w.current_version) [
        | inl q' ↦ inr (
          λ (w', v, e, e').
              let here : w ≡ w' = ground (arith, e) in absurd (ground (arith, e', q')),
          ground arith,
        )
        | inr (v, q') ↦ inl (
            start_run_opts-replays uuid workspace workflow input opts db w v r asked q q' found
              same)
      ]
    ]

module _ (workspace : ℕ) (key : Text) where
  -- At most one run has a key, whatever workflows are deleted.
  pub Evolves-single :
      {uuid : ℕ → Text} {spared : ℕ → Bool} {db db' : Db}
      → Evolves uuid spared db db'
      → count_if (keyed workspace key) db.runs ≤ 1
      → count_if (keyed workspace key) db'.runs ≤ 1
  unfolding cascade
  Evolves-single begin h = h
  Evolves-single (moves r step) h =
      RunMoves-single workspace key (Transition-RunMoves step) (Evolves-single r h)
  Evolves-single (deletes {mid} w ws vs ts free r) h =
      let less = count_if-delete_le (keyed workspace key) (λ x. x.workflow == w) mid.runs in
      let one = Evolves-single r h in omega (arith, less, one)

  -- The run that has a key keeps it, unless its workflow is deleted.
  Evolves-found :
      {uuid : ℕ → Text} {workflow : ℕ} {db db' : Db} {r : Run}
      → Evolves uuid (all_but workflow) db db'
      → find (keyed workspace key) db.runs ≡ some r
      → r.workflow ≡ workflow
      → (u : Run) × (find (keyed workspace key) db'.runs ≡ some u)
        × (u.id ≡ r.id)
        × (u.workflow ≡ workflow)
  unfolding cascade
  Evolves-found {r = r} begin h own = (r, h, refl, own)
  Evolves-found (moves p step) h own =
      let (u, found, i, w) = Evolves-found p h own in
      let (u', found', i', w') = RunMoves-found workspace key (Transition-RunMoves step) found in
      (u', found', i' ∙ i, w' ∙ w)
  Evolves-found (deletes {mid} w ws vs ts free p) h own =
      let (u, found, i, own') = Evolves-found p h own in
      (
        u,
        find-delete (keyed workspace key) (λ x. x.workflow == w) mid.runs found
            (ground (arith, own', free)),
        i,
        own',
      )

-- The run that has the key of a start that committed, in a state that is reached later.
started-kept :
    (uuid : ℕ → Text) (workspace workflow : ℕ) (input : Text) (opts : RunOpts) (db : Db)
    (s : Started) (db' : Db)
    → opts.idempotency_key ≢ []
    → start_run_opts uuid workspace workflow input opts db ≡ ok s
    → Evolves uuid (all_but workflow) s.db db'
    → (u : Run) × (find (keyed workspace (scoped_key uuid workflow opts.idempotency_key)) db'.runs
        ≡ some u)
      × (u.id ≡ s.run)
      × (u.workflow ≡ workflow)
started-kept uuid workspace workflow input opts db s db' asked e later =
    let by = start_run_opts-StartedBy uuid workspace workflow input opts db s e in
    let held = started-Held uuid workspace workflow input opts db s by asked in
    let (u, found, i, w) =
      Evolves-found workspace (scoped_key uuid workflow opts.idempotency_key) later held.found
        held.same_workflow in
    (u, found, i ∙ held.same_run, w)

-- A start with the key of one that committed, in a state that is reached later.
pub start_run_opts-later :
    (uuid : ℕ → Text) (workspace workflow : ℕ) (input : Text) (opts : RunOpts) (db : Db)
    (s : Started) (db' : Db) (input' : Text) (trigger : Option ℕ)
    → opts.idempotency_key ≢ []
    → start_run_opts uuid workspace workflow input opts db ≡ ok s
    → Evolves uuid (all_but workflow) s.db db'
    → (start_run_opts uuid workspace workflow input' (record opts { trigger_id = trigger }) db'
        ≡ ok (record { run = s.run; created = false; db = db' }))
      ⊎ ((¬ IsDeployed workspace workflow db')
          × (start_run_opts uuid workspace workflow input'
                (record opts { trigger_id = trigger })
                db'
              ≡ err no_rows))
start_run_opts-later uuid workspace workflow input opts db s db' input' trigger asked e later =
    let (u, found, i, w) = started-kept uuid workspace workflow input opts db s db' asked e later in
    let again =
      start_run_opts-taken uuid workspace workflow input' (record opts { trigger_id = trigger }) db'
        u asked found w in
    rw i at again
