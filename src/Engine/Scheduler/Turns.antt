-- ===== src/Engine/Scheduler/Turns.antt =====
-- engine/internal/engine/scheduler.go: the turn of each trigger in `sweepSchedules`.
use oarlock.Prelude.{
  ℕ, ◌≡◌, refl, sym, ◌∙◌, ap, ◌⊎◌, inl, inr, Text, Option, some, List, [], ◌∷◌, Memᴰ, Option-cases,
}
use oarlock.Prelude.Tables.{find}
use oarlock.Engine.Store.{Trigger, Run, Db}
use oarlock.Engine.Runs.{deployed, keyed, scoped_key}
use oarlock.Engine.Scheduler.{
  Schedule, result, latest_occurrence, lookback_window, cron_key, cron_expr, after_fire,
  fire_schedule, sweep_trigger, sweep_all,
}
use oarlock.Engine.System.{Reaches, here}
use oarlock.Engine.System.Once.{IsDeployed}
use oarlock.Engine.System.Roster.{RunMoves, RunMoves-found, RunMoves-trans}
use oarlock.Engine.System.Roster.Steps.{Reaches-RunMoves}
use oarlock.Engine.Scheduler.Fires.{
  SameCatalog, Reaches-trans, Search-cases, after_fire-Reaches, after_fire-catalog,
  after_fire-again, after_fire-keyed, cron_key-given,
}

-- The key under which the run of an occurrence is stored.
abbrev pub occurrence_key : (ℕ → Text) → Trigger → ℕ → Text
occurrence_key uuid t occ = scoped_key uuid t.workflow (cron_key uuid t.id occ)

module _ (uuid rfc3339 : ℕ → Text) (parse : Text → Option Schedule) where
  -- A trigger with nothing to fire at a time, or with an occurrence to fire.
  sweep_trigger-cases :
      (now : ℕ) (t : Trigger)
      → ((db : Db) → sweep_trigger uuid rfc3339 parse now t db ≡ db)
        ⊎ ((occ : ℕ) × ((db : Db)
              → sweep_trigger uuid rfc3339 parse now t db
                ≡ after_fire db (fire_schedule uuid rfc3339 parse t occ db)))
  unfolding sweep_trigger
  sweep_trigger-cases now t = elim (Option-cases (parse (cron_expr t.cron))) [
    | inl q ↦ inl (λ db. rw (q, sweep_trigger) refl)
    | inr (next, q) ↦ elim (Search-cases (latest_occurrence next now lookback_window)) [
      | inl e ↦ inl (λ db. rw (q, e, sweep_trigger) refl)
      | inr (inl e) ↦ inl (λ db. rw (q, e, sweep_trigger) refl)
      | inr (inr (occ, e)) ↦ inr (occ, λ db. rw (q, e, sweep_trigger) refl)
    ]
  ]

  sweep_trigger-Reaches :
      (now : ℕ) (t : Trigger) (db : Db)
      → Reaches uuid db (sweep_trigger uuid rfc3339 parse now t db)
  unfolding fire_schedule
  sweep_trigger-Reaches now t db = elim (sweep_trigger-cases now t) [
    | inl e ↦ rw (e db) here
    | inr (occ, e) ↦ rw (e db) (after_fire-Reaches uuid t.workspace t.workflow _ _ db)
  ]

  sweep_trigger-catalog :
      (now : ℕ) (t : Trigger) (db : Db) → SameCatalog db (sweep_trigger uuid rfc3339 parse now t db)
  unfolding fire_schedule
  sweep_trigger-catalog now t db = elim (sweep_trigger-cases now t) [
    | inl e ↦ rw (e db) (refl, refl)
    | inr (occ, e) ↦ rw (e db) (after_fire-catalog uuid t.workspace t.workflow _ _ db)
  ]

  -- What a trigger's turn left, and whatever ran later, its turn leaves.
  sweep_trigger-again :
      (now : ℕ) (t : Trigger) (db db' : Db)
      → RunMoves (sweep_trigger uuid rfc3339 parse now t db).runs db'.runs
      → db'.workflows ≡ db.workflows
      → sweep_trigger uuid rfc3339 parse now t db' ≡ db'
  unfolding fire_schedule
  sweep_trigger-again now t db db' moves same = elim (sweep_trigger-cases now t) [
    | inl e ↦ e db'
    | inr (occ, e) ↦
        let fired = rw (e db) at moves in
        e db'
        ∙ after_fire-again uuid t.workspace t.workflow _ _ db db' (cron_key-given uuid t.id occ)
            fired same
  ]

  pub sweep_all-Reaches :
      (now : ℕ) (ts : List Trigger) (db : Db)
      → Reaches uuid db (sweep_all uuid rfc3339 parse now ts db)
  unfolding sweep_all
  sweep_all-Reaches now [] db = here
  sweep_all-Reaches now (t ∷ ts) db =
      Reaches-trans (sweep_trigger-Reaches now t db)
        (sweep_all-Reaches now ts (sweep_trigger uuid rfc3339 parse now t db))

  pub sweep_all-again :
      (now : ℕ) (ts : List Trigger) (db db' : Db)
      → RunMoves (sweep_all uuid rfc3339 parse now ts db).runs db'.runs
      → db'.workflows ≡ db.workflows
      → sweep_all uuid rfc3339 parse now ts db' ≡ db'
  unfolding sweep_all
  sweep_all-again now [] db db' moves same = refl
  sweep_all-again now (t ∷ ts) db db' moves same =
      let mid = sweep_trigger uuid rfc3339 parse now t db in
      let rest = Reaches-RunMoves (sweep_all-Reaches now ts mid) in
      let first = sweep_trigger-again now t db db' (RunMoves-trans rest moves) same in
      let kept = sweep_trigger-catalog now t db in
      rw first (sweep_all-again now ts mid db' moves (same ∙ sym kept.0))

  -- Two times at which the schedule of a trigger has one latest occurrence.
  abbrev pub SameOccurrence : ℕ → ℕ → Trigger → Type 0
  SameOccurrence now later t =
      (next : Schedule)
      → parse (cron_expr t.cron) ≡ some next
      → latest_occurrence next later lookback_window ≡ latest_occurrence next now lookback_window

  sweep_trigger-same :
      (now later : ℕ) (t : Trigger) (db : Db)
      → SameOccurrence now later t
      → sweep_trigger uuid rfc3339 parse later t db ≡ sweep_trigger uuid rfc3339 parse now t db
  unfolding sweep_trigger
  sweep_trigger-same now later t db same = elim (Option-cases (parse (cron_expr t.cron))) [
    | inl q ↦ rw (q, sweep_trigger) refl
    | inr (next, q) ↦ rw (q, same next q, sweep_trigger) refl
  ]

  pub sweep_all-same :
      (now later : ℕ) (ts : List Trigger) (db : Db)
      → ((t : Trigger) → Memᴰ t ts → SameOccurrence now later t)
      → sweep_all uuid rfc3339 parse later ts db ≡ sweep_all uuid rfc3339 parse now ts db
  unfolding sweep_all
  sweep_all-same now later [] db same = refl
  sweep_all-same now later (t ∷ ts) db same =
      rw (sweep_trigger-same now later t db (same t (Memᴰ.head refl))) (
        sweep_all-same now later ts (sweep_trigger uuid rfc3339 parse now t db)
          (λ u m. same u (Memᴰ.tail m)))

  -- The turn of a trigger with an occurrence leaves a run with the occurrence's key.
  fire_schedule-keyed :
      (t : Trigger) (occ : ℕ) (db : Db)
      → IsDeployed t.workspace t.workflow db
      → (r : Run) × (find
            (keyed t.workspace (occurrence_key uuid t occ))
            (after_fire db (fire_schedule uuid rfc3339 parse t occ db)).runs
          ≡ some r)
  unfolding fire_schedule
  fire_schedule-keyed t occ db deployed =
      after_fire-keyed uuid t.workspace t.workflow _ _ db (cron_key-given uuid t.id occ) deployed

  pub sweep_all-keyed :
      (now : ℕ) (ts : List Trigger) (db : Db) (t : Trigger) (next : Schedule) (occ : ℕ)
      → Memᴰ t ts
      → IsDeployed t.workspace t.workflow db
      → parse (cron_expr t.cron) ≡ some next
      → latest_occurrence next now lookback_window ≡ result (some occ)
      → (r : Run) × (find
            (keyed t.workspace (occurrence_key uuid t occ))
            (sweep_all uuid rfc3339 parse now ts db).runs
          ≡ some r)
  unfolding sweep_all sweep_trigger
  sweep_all-keyed now [] db t next occ m deployed q e = elim m [ ]
  sweep_all-keyed now (u ∷ us) db t next occ (Memᴰ.head same) deployed q e =
      let (r, found) = fire_schedule-keyed t occ db deployed in
      let fired : sweep_trigger uuid rfc3339 parse now t db
          ≡ after_fire db (fire_schedule uuid rfc3339 parse t occ db) =
        rw (q, e, sweep_trigger) refl in
      let mid = sweep_trigger uuid rfc3339 parse now t db in
      let moves = Reaches-RunMoves (sweep_all-Reaches now us mid) in
      let (r', found', i, w) = RunMoves-found t.workspace (occurrence_key uuid t occ) moves (
        ap (λ (d : Db). find (keyed t.workspace (occurrence_key uuid t occ)) d.runs) fired
        ∙ found) in
      (r', rw (← same) found')
  sweep_all-keyed now (u ∷ us) db t next occ (Memᴰ.tail m) (w, v, here', now') q e =
      let kept = sweep_trigger-catalog now u db in
      sweep_all-keyed now us (sweep_trigger uuid rfc3339 parse now u db) t next occ m
        (w, v, ap (find (deployed t.workflow t.workspace)) kept.0 ∙ here', now') q e
