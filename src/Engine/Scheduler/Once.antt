-- ===== src/Engine/Scheduler/Once.antt =====
-- engine/internal/engine/scheduler.go: sweeps that see the same occurrence of a schedule.
use oarlock.Prelude.{ℕ, ◌≡◌, ◌∙◌, refl, ap, Text, Option, some, Memᴰ, arith, count_if}
use oarlock.Prelude.Tables.{find-some}
use oarlock.Prelude.Keys.{count_if-pos}
use oarlock.Engine.Store.{Trigger, Db}
use oarlock.Engine.Runs.{keyed}
use oarlock.Engine.Scheduler.{
  Schedule, result, latest_occurrence, lookback_window, cron_expr, due_triggers, sweep_all,
  sweep_schedules,
}
use oarlock.Engine.Scheduler.Fires.{SameCatalog, Reaches-trans}
use oarlock.Engine.Scheduler.Turns.{
  occurrence_key, SameOccurrence, sweep_all-Reaches, sweep_all-again, sweep_all-same,
  sweep_all-keyed,
}
use oarlock.Engine.System.{Reaches, Evolves, any_workflow, empty_db}
use oarlock.Engine.System.Deletes.{Reaches-Evolves, Evolves-trans}
use oarlock.Engine.System.Once.{IsDeployed, Evolves-single}
use oarlock.Engine.System.Roster.{RunMoves-found}
use oarlock.Engine.System.Roster.Steps.{Reaches-RunMoves}

due_triggers-same : (db db' : Db) → SameCatalog db db' → due_triggers db' ≡ due_triggers db
unfolding due_triggers
due_triggers-same db db' (workflows, triggers) = rw (workflows, triggers) refl

-- In a state that has come of the empty database a trigger is due, its workflow is deployed, and a sweep at
-- `now` finds an occurrence of its schedule. After the sweep, and whatever transactions ran later that
-- edited no workflow and no trigger, where each due trigger's latest occurrence at `later` is the one at
-- `now`: exactly one run has the key of the occurrence, and a sweep at `later` changes nothing.
pub sweep_schedules-once :
    (uuid rfc3339 : ℕ → Text) (parse : Text → Option Schedule) (now later : ℕ) (db db' : Db)
    (t : Trigger) (next : Schedule) (occ : ℕ)
    → Evolves uuid any_workflow empty_db db
    → Memᴰ t (due_triggers db)
    → IsDeployed t.workspace t.workflow db
    → parse (cron_expr t.cron) ≡ some next
    → latest_occurrence next now lookback_window ≡ result (some occ)
    → Reaches uuid (sweep_schedules uuid rfc3339 parse now db) db'
    → db'.workflows ≡ db.workflows
    → db'.triggers ≡ db.triggers
    → ((u : Trigger) → Memᴰ u (due_triggers db) → SameOccurrence uuid rfc3339 parse now later u)
    → (count_if (keyed t.workspace (occurrence_key uuid t occ)) db'.runs ≡ 1)
      × (sweep_schedules uuid rfc3339 parse later db' ≡ db')
unfolding sweep_schedules
sweep_schedules-once uuid rfc3339 parse now later db db' t next occ before due deployed q e after
      workflows triggers same =
    let key = occurrence_key uuid t occ in
    let ts = due_triggers db in
    let swept = sweep_all-Reaches uuid rfc3339 parse now ts db in
    let moves = Reaches-RunMoves after in
    let (r, found) = sweep_all-keyed uuid rfc3339 parse now ts db t next occ due deployed q e in
    let (u, found', i, w) = RunMoves-found t.workspace key moves found in
    let (m, k) = find-some (keyed t.workspace key) db'.runs found' in
    let some_run = count_if-pos (keyed t.workspace key) db'.runs m k in
    let all = Evolves-trans before (Reaches-Evolves (Reaches-trans swept after)) in
    let one = Evolves-single t.workspace key all (omega arith) in
    let again =
      sweep_all-same uuid rfc3339 parse now later ts db' same
      ∙ sweep_all-again uuid rfc3339 parse now ts db db' moves workflows in
    (
      omega arith,
      ap (λ us. sweep_all uuid rfc3339 parse later us db')
            (due_triggers-same db db' (workflows, triggers))
          ∙ again,
    )
