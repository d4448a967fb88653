-- ===== src/Engine/Scheduler/Fires.antt =====
-- engine/internal/engine/scheduler.go: `fireSchedule`, and its repetition with the key of the occurrence.
use oarlock.Prelude.{
  ℕ, ◌≡◌, ◌≢◌, refl, ◌∙◌, ap, ◌⊎◌, inl, inr, Text, text_eq_iff, none, some, [], arith, Option-cases,
  Bool-cases, ◌==◌,
}
use oarlock.Prelude.Tables.{find}
use oarlock.Engine.Store.{Run, Db, Error, err, Result-cases}
use oarlock.Engine.Runs.{
  RunOpts, Started, start_run_opts, deployed, keyed, scoped_key, replay, insert_run,
}
use oarlock.Engine.Runs.Start.{start_run_opts-StartedBy, plain, fresh, replayed}
use oarlock.Engine.Runs.Idempotency.{started-Held}
use oarlock.Engine.Scheduler.{Search, result, out_of_fuel, cron_key, after_fire}
use oarlock.Engine.System.{Reaches, here, onward, starts}
use oarlock.Engine.System.Once.{IsDeployed}
use oarlock.Engine.System.Roster.{RunMoves, RunMoves-found}

-- States with the same workflows and triggers.
abbrev pub SameCatalog : Db → Db → Type 0
SameCatalog db db' = (db'.workflows ≡ db.workflows) × (db'.triggers ≡ db.triggers)

pub Reaches-trans :
    {uuid : ℕ → Text} {db mid db' : Db}
    → Reaches uuid db mid
    → Reaches uuid mid db'
    → Reaches uuid db db'
Reaches-trans r here = r
Reaches-trans r (onward r' t) = onward (Reaches-trans r r') t

pub Search-cases :
    (r : Search) → (r ≡ out_of_fuel) ⊎ (r ≡ result none) ⊎ ((occ : ℕ) × (r ≡ result (some occ)))
Search-cases out_of_fuel = inl refl
Search-cases (result none) = inr (inl refl)
Search-cases (result (some occ)) = inr (inr (occ, refl))

module _ (uuid : ℕ → Text) (workspace workflow : ℕ) (input : Text) (opts : RunOpts) where
  -- Where a run has the key, a start changes nothing, whatever it answers.
  after_fire-taken :
      (db : Db) (r : Run)
      → opts.idempotency_key ≢ []
      → find (keyed workspace (scoped_key uuid workflow opts.idempotency_key)) db.runs ≡ some r
      → after_fire db (start_run_opts uuid workspace workflow input opts db) ≡ db
  unfolding start_run_opts replay
  after_fire-taken db r asked found =
      elim (Option-cases (find (deployed workflow workspace) db.workflows)) [
        | inl q ↦ rw q refl
        | inr (w, q) ↦ elim (Option-cases w.current_version) [
          | inl q' ↦ rw (q, q') refl
          | inr (v, q') ↦ elim (Bool-cases (r.workflow == workflow)) [
            | inl same ↦ ground (arith, text_eq_iff opts.idempotency_key [])
            | inr other ↦ ground (arith, text_eq_iff opts.idempotency_key [])
          ]
        ]
      ]

  pub after_fire-Reaches :
      (db : Db)
      → Reaches uuid db (after_fire db (start_run_opts uuid workspace workflow input opts db))
  after_fire-Reaches db =
      elim (Result-cases (start_run_opts uuid workspace workflow input opts db)) [
        | inl (s, e) ↦ rw e (onward here (starts workspace workflow input opts s e))
        | inr (x, e) ↦ rw e here
      ]

  pub after_fire-catalog :
      (db : Db)
      → SameCatalog db (after_fire db (start_run_opts uuid workspace workflow input opts db))
  unfolding insert_run
  after_fire-catalog db =
      elim (Result-cases (start_run_opts uuid workspace workflow input opts db)) [
        | inr (x, e) ↦ rw e (refl, refl)
        | inl (s, e) ↦
            rw e (elim (start_run_opts-StartedBy uuid workspace workflow input opts db s e) [
              | plain v q q' ↦
                  (ap (λ (x : Started). x.db.workflows) q', ap (λ (x : Started). x.db.triggers) q')
              | fresh v q q' ↦
                  (ap (λ (x : Started). x.db.workflows) q', ap (λ (x : Started). x.db.triggers) q')
              | replayed r q w q' ↦
                  (ap (λ (x : Started). x.db.workflows) q', ap (λ (x : Started). x.db.triggers) q')
            ])
      ]

  -- A start that was refused is refused again, or finds the run that has its key.
  refused-again :
      (db db' : Db)
      → opts.idempotency_key ≢ []
      → RunMoves db.runs db'.runs
      → db'.workflows ≡ db.workflows
      → (x : Error) → start_run_opts uuid workspace workflow input opts db ≡ err x
      → after_fire db' (start_run_opts uuid workspace workflow input opts db') ≡ db'
  unfolding start_run_opts
  refused-again db db' asked moves same x e =
      elim (Option-cases (find (deployed workflow workspace) db.workflows)) [
        | inl q ↦ rw (same, q) refl
        | inr (w, q) ↦ elim (Option-cases w.current_version) [
          | inl q' ↦ rw (same, q, q') refl
          | inr (v, q') ↦
              let key = scoped_key uuid workflow opts.idempotency_key in
              elim (Option-cases (find (keyed workspace key) db.runs)) [
                | inl free ↦ absurd (ground (arith, text_eq_iff opts.idempotency_key []))
                | inr (r, taken) ↦
                    let (u, found, i, w') = RunMoves-found workspace key moves taken in
                    after_fire-taken db' u asked found
              ]
        ]
      ]

  -- What a start left, and whatever ran later, a start with its key leaves.
  pub after_fire-again :
      (db db' : Db)
      → opts.idempotency_key ≢ []
      → RunMoves
          (after_fire db (start_run_opts uuid workspace workflow input opts db)).runs
          db'.runs
      → db'.workflows ≡ db.workflows
      → after_fire db' (start_run_opts uuid workspace workflow input opts db') ≡ db'
  after_fire-again db db' asked moves same =
      elim (Result-cases (start_run_opts uuid workspace workflow input opts db)) [
        | inr (x, e) ↦ refused-again db db' asked (rw e at moves) same x e
        | inl (s, e) ↦
            let by = start_run_opts-StartedBy uuid workspace workflow input opts db s e in
            let held = started-Held uuid workspace workflow input opts db s by asked in
            let key = scoped_key uuid workflow opts.idempotency_key in
            let (u, found, i, w) = RunMoves-found workspace key (rw e at moves) held.found in
            after_fire-taken db' u asked found
      ]

  -- A start of a deployed workflow leaves a run with its key, whatever it answers.
  pub after_fire-keyed :
      (db : Db)
      → opts.idempotency_key ≢ []
      → IsDeployed workspace workflow db
      → (r : Run) × (find
            (keyed workspace (scoped_key uuid workflow opts.idempotency_key))
            (after_fire db (start_run_opts uuid workspace workflow input opts db)).runs
          ≡ some r)
  unfolding start_run_opts
  after_fire-keyed db asked (w, v, q, q') =
      let key = scoped_key uuid workflow opts.idempotency_key in
      elim (Option-cases (find (keyed workspace key) db.runs)) [
        | inr (r, taken) ↦
            let kept = after_fire-taken db r asked taken in
            (r, ap (λ (d : Db). find (keyed workspace key) d.runs) kept ∙ taken)
        | inl free ↦ elim (Result-cases (start_run_opts uuid workspace workflow input opts db)) [
          | inl (s, e) ↦
              let by = start_run_opts-StartedBy uuid workspace workflow input opts db s e in
              let held = started-Held uuid workspace workflow input opts db s by asked in
              (held.row, rw e held.found)
          | inr (x, e) ↦ absurd (ground (arith, text_eq_iff opts.idempotency_key []))
        ]
      ]

pub cron_key-given : (uuid : ℕ → Text) (trigger occ : ℕ) → cron_key uuid trigger occ ≢ []
unfolding cron_key
cron_key-given uuid trigger occ e = cc e
