-- ===== src/Tests/Once.antt =====
-- A start with a key while the run is advanced and canceled, and a schedule that two sweeps see.
use oarlock.Prelude.{
  ℕ, ◌+◌, ◌*◌, ◌/◌, ◌≡◌, refl, sym, subst, ◌∙◌, Text, codes, text_eq, true, Option, none, some, [],
  ◌∷◌, Memᴰ, count_if,
}
use oarlock.Prelude.Tables.{find}
use oarlock.Json.{escape, marshal}
use oarlock.Engine.Store.{RunStatus, Trigger, Run, advance_run, Db, ok}
use oarlock.Engine.Runs.{deployed, keyed, cancel_run}
use oarlock.Engine.Scheduler.{
  Schedule, result, latest_occurrence, lookback_window, due_triggers, sweep_schedules,
}
use oarlock.Engine.Scheduler.Turns.{occurrence_key, SameOccurrence}
use oarlock.Engine.Scheduler.Once.{sweep_schedules-once}
use oarlock.Engine.System.{
  here, onward, Evolves, begin, moves, cascade, any_workflow, workflows_change, cancels, empty_db,
}
use oarlock.Engine.System.Once.{IsDeployed}
use oarlock.Tests.Fixtures.{uuid, workflow, version, db_deployed}
use oarlock.Tests.Runs.{db_canceled}

abbrev left : Db
left = cascade 5 (record db_canceled { triggers = [] })

-- Nanoseconds.
abbrev every_minute : Schedule
every_minute t = some ((t / 60_000_000_000 + 1) * 60_000_000_000)

abbrev parse : Text → Option Schedule
parse cron = some every_minute

abbrev rfc3339 : ℕ → Text
rfc3339 at = codes "1970-01-01T00:02:00Z"

abbrev clock : Trigger
clock = record {
  id = 4;
  workspace = 7;
  workflow = 1;
  type = codes "schedule";
  cron = some (codes "* * * * *");
  is_enabled = true;
}

abbrev db_scheduled : Db
db_scheduled = record db_deployed { triggers = clock ∷ [] }

scheduled-Evolves : Evolves uuid any_workflow empty_db db_scheduled
scheduled-Evolves = moves begin (workflows_change (workflow ∷ []) (version ∷ []) (clock ∷ []))

-- The clock is swept at 2:30 and at 2:50, and the run is canceled in between.
abbrev first_sweep : ℕ
first_sweep = 150_000_000_000

abbrev second_sweep : ℕ
second_sweep = 170_000_000_000

abbrev swept : Db
swept = sweep_schedules uuid rfc3339 parse first_sweep db_scheduled

abbrev swept_run : Run
swept_run = record {
  id = 0;
  workspace = 7;
  workflow = 1;
  version = 2;
  trigger = some 4;
  status = RunStatus.canceled;
  input = codes "{\"scheduled_for\":\"1970-01-01T00:02:00Z\"}";
  error = none;
  idempotency_key = some (occurrence_key uuid clock 120_000_000_000);
  started_at = none;
  finished_at = some 160_000_000_000;
}

abbrev swept_canceled : Db
swept_canceled = record db_scheduled {
  runs = swept_run ∷ [];
  jobs = advance_run 0 ∷ [];
  next_id = 1;
}

sweep_fires : cancel_run 7 0 160_000_000_000 swept ≡ ok swept_canceled
unfolding sweep_schedules cancel_run text_eq escape marshal
sweep_fires = refl

clock-due : Memᴰ clock (due_triggers db_scheduled)
unfolding due_triggers
clock-due = Memᴰ.head refl

first_occurrence :
    latest_occurrence every_minute first_sweep lookback_window ≡ result (some 120_000_000_000)
unfolding latest_occurrence
first_occurrence = refl

second_occurrence :
    latest_occurrence every_minute second_sweep lookback_window ≡ result (some 120_000_000_000)
unfolding latest_occurrence
second_occurrence = refl

same_occurrence :
    (u : Trigger)
    → Memᴰ u (due_triggers db_scheduled)
    → SameOccurrence uuid rfc3339 parse first_sweep second_sweep u
same_occurrence u m next e =
    let known : every_minute ≡ next = cc e in
    subst
      (λ (s : Schedule).
        latest_occurrence s second_sweep lookback_window
        ≡ latest_occurrence s first_sweep lookback_window)
      known (second_occurrence ∙ sym first_occurrence)

clock-IsDeployed : IsDeployed 7 1 db_scheduled
unfolding find deployed
clock-IsDeployed = (workflow, 2, refl, refl)

sweep_schedules-once_example :
    (count_if (keyed 7 (occurrence_key uuid clock 120_000_000_000)) swept_canceled.runs ≡ 1)
    × (sweep_schedules uuid rfc3339 parse second_sweep swept_canceled ≡ swept_canceled)
sweep_schedules-once_example =
    sweep_schedules-once uuid rfc3339 parse first_sweep second_sweep db_scheduled swept_canceled
      clock every_minute 120_000_000_000 scheduled-Evolves clock-due clock-IsDeployed refl
      first_occurrence (onward here (cancels 7 0 160_000_000_000 sweep_fires)) refl refl
      same_occurrence
