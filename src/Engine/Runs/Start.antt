-- ===== src/Engine/Runs/Start.antt =====
-- What `StartRunOpts` did when it committed.
use oarlock.Prelude.{
  ℕ, ◌≡◌, inl, inr, Text, text_eq, text_eq_iff, true, false, Option, none, some, [], arith,
  Bool-cases, Option-cases, ◌==◌,
}
use oarlock.Prelude.Tables.{find}
use oarlock.Engine.Store.{Workflow, Run, Db, ok}
use oarlock.Engine.Runs.{
  RunOpts, Started, start_run_opts, deployed, keyed, scoped_key, replay, insert_run, new_run,
}

-- A run was inserted with the stored key, which no run of the workspace had; or the run that has the
-- key was returned and nothing changed.
pub data StartedBy (uuid : ℕ → Text) (workspace workflow : ℕ) (input : Text) (opts : RunOpts)
    (db : Db) (s : Started) : Type 0 where
  plain :
      (version : ℕ)
      → opts.idempotency_key ≡ []
      → s ≡ insert_run (new_run db.next_id workspace workflow version input opts.trigger_id none) db
      → StartedBy uuid workspace workflow input opts db s
  fresh :
      (version : ℕ)
      → find (keyed workspace (scoped_key uuid workflow opts.idempotency_key)) db.runs ≡ none
      → s
        ≡ insert_run
            (new_run db.next_id workspace workflow version input opts.trigger_id
              (some (scoped_key uuid workflow opts.idempotency_key)))
            db
      → StartedBy uuid workspace workflow input opts db s
  replayed :
      (r : Run)
      → find (keyed workspace (scoped_key uuid workflow opts.idempotency_key)) db.runs ≡ some r
      → r.workflow ≡ workflow
      → s ≡ record { run = r.id; created = false; db = db }
      → StartedBy uuid workspace workflow input opts db s

module _ (uuid : ℕ → Text) (workspace workflow : ℕ) (input : Text) (opts : RunOpts) (db : Db)
    (s : Started) where
  replay-StartedBy :
      (r : Run)
      → find (keyed workspace (scoped_key uuid workflow opts.idempotency_key)) db.runs ≡ some r
      → replay workflow r db ≡ ok s
      → StartedBy uuid workspace workflow input opts db s
  unfolding replay
  replay-StartedBy r q e = elim (Bool-cases (r.workflow == workflow)) [
    | inl same ↦ replayed r q (ground arith) (ground arith)
    | inr other ↦ absurd (ground arith)
  ]

  pub start_run_opts-StartedBy :
      start_run_opts uuid workspace workflow input opts db ≡ ok s
      → StartedBy uuid workspace workflow input opts db s
  unfolding start_run_opts
  start_run_opts-StartedBy e =
      elim (Option-cases (find (deployed workflow workspace) db.workflows)) [
        | inl q ↦ absurd (ground arith)
        | inr (w, q) ↦ elim (Option-cases w.current_version) [
          | inl q' ↦ absurd (ground arith)
          | inr (v, q') ↦ elim (Bool-cases (text_eq opts.idempotency_key [])) [
            | inl unkeyed ↦ plain v ((text_eq_iff _ _).0 unkeyed) (ground arith)
            | inr asked ↦
                elim (Option-cases (
                  find (keyed workspace (scoped_key uuid workflow opts.idempotency_key)) db.runs)) [
                    | inl q'' ↦ fresh v q'' (ground arith)
                    | inr (r, q'') ↦ replay-StartedBy r q'' (ground arith)
                  ]
          ]
        ]
      ]

  replay-created : (r : Run) → replay workflow r db ≡ ok s → s.created ≡ false
  unfolding replay
  replay-created r e = ground arith

  -- A new run is of the version to which its workflow points.
  pub start_run_opts-created :
      start_run_opts uuid workspace workflow input opts db ≡ ok s
      → s.created ≡ true
      → (w : Workflow) × (version : ℕ) × (key : Option Text) × (find
            (deployed workflow workspace)
            db.workflows
          ≡ some w)
        × (w.current_version ≡ some version)
        × (s
            ≡ insert_run
                (new_run db.next_id workspace workflow version input opts.trigger_id key)
                db)
  unfolding start_run_opts
  start_run_opts-created e new =
      elim (Option-cases (find (deployed workflow workspace) db.workflows)) [
        | inl q ↦ absurd (ground arith)
        | inr (w, q) ↦ elim (Option-cases w.current_version) [
          | inl q' ↦ absurd (ground arith)
          | inr (v, q') ↦ elim (Bool-cases (text_eq opts.idempotency_key [])) [
            | inl unkeyed ↦ (w, v, none, q, q', ground arith)
            | inr asked ↦
                let key = scoped_key uuid workflow opts.idempotency_key in
                elim (Option-cases (find (keyed workspace key) db.runs)) [
                  | inl q'' ↦ (w, v, some key, q, q', ground arith)
                  | inr (r, q'') ↦ absurd (ground (arith, replay-created r (ground arith)))
                ]
          ]
        ]
      ]
