-- ===== src/Engine/Scheduler.antt =====
-- engine/internal/engine/scheduler.go: firing the schedule triggers that have come due.
pub mod Window
pub mod Fires
pub mod Turns
pub mod Once
use oarlock.Prelude.{
  ℕ, zero, suc, ◌+◌, ◌-◌, ◌*◌, ◌/◌, ◌%◌, ◌≡◌, Text, text_eq, codes, Bool, true, false, ◌&&◌, Option,
  none, some, List, [], ◌∷◌, ◌++◌, ltb, ◌==◌, select, if◌then◌else◌,
}
use oarlock.Prelude.Tables.{any_row}
use oarlock.Json.{Value, obj, str, field, end, marshal}
use oarlock.Engine.Store.{Workflow, Trigger, Db, Result, ok, err}
use oarlock.Engine.Runs.{RunOpts, Started, start_run_opts}

-- Nanoseconds.
abbrev pub lookback_window : ℕ
lookback_window = 90 * 1_000_000_000

-- A cron schedule is its method `Next`: the first activation after a time, `none` for the zero time.
abbrev pub Schedule : Type 0
Schedule = ℕ → Option ℕ

-- The loop of `latestOccurrence`, on fuel: `occ` is the last activation found. Fuel that runs out is
-- told apart from a result.
pub data Search : Type 0 where
  result : Option ℕ → Search
  out_of_fuel : Search

unfoldable pub search_window : Schedule → ℕ → ℕ → ℕ → Option ℕ → Search
search_window next zero now t occ = out_of_fuel
search_window next (suc fuel) now t occ = elim (next t) [
  | none ↦ result occ
  | some u ↦ elim (ltb now u) [ true ↦ result occ | false ↦ search_window next fuel now u (some u) ]
]

-- Each round moves on by a nanosecond at least, so the window bounds the rounds.
unfoldable pub latest_occurrence : Schedule → ℕ → ℕ → Search
unfolding search_window
latest_occurrence next now lookback = search_window next (suc lookback) now (now - lookback) none

-- `%d` of a number that is not negative.
unfoldable pub decimal_digits : ℕ → ℕ → Text → Text
decimal_digits zero n rest = rest
decimal_digits (suc fuel) n rest =
    let rest' = (b'0' + n % 10) ∷ rest in
    elim (ltb n 10) [ true ↦ rest' | false ↦ decimal_digits fuel (n / 10) rest' ]

unfoldable pub decimal : ℕ → Text
unfolding decimal_digits
decimal n = decimal_digits (suc n) n []

-- The key ties the run to the trigger and the second of the occurrence.
unfoldable pub cron_key : (ℕ → Text) → ℕ → ℕ → Text
unfolding decimal
cron_key uuid trigger occ =
    codes "cron:" ++ (uuid trigger ++ (codes ":" ++ decimal (occ / 1_000_000_000)))

-- The rows of the sweep's query: enabled schedule triggers of enabled workflows with a version.
abbrev has_version : Option ℕ → Bool
has_version none = false
has_version (some v) = true

abbrev deployable : Trigger → Workflow → Bool
deployable t w = w.id == t.workflow && (w.is_enabled && has_version w.current_version)

unfoldable pub due_triggers : Db → List Trigger
unfolding any_row text_eq
due_triggers db =
    select
      (λ t.
        text_eq t.type (codes "schedule") && (t.is_enabled && any_row (deployable t) db.workflows))
      db.triggers

-- A missing expression reads as the empty one.
abbrev pub cron_expr : Option Text → Text
cron_expr none = []
cron_expr (some c) = c

abbrev pub after_fire : Db → Result Started → Db
after_fire db (ok s) = s.db
after_fire db (err e) = db

-- `uuid` writes a UUID, `rfc3339` a time, and `parse` is `cron.ParseStandard`.
module _ (uuid rfc3339 : ℕ → Text) (parse : Text → Option Schedule) where
  unfoldable pub fire_schedule : Trigger → ℕ → Db → Result Started
  unfolding start_run_opts cron_key
  fire_schedule t occ db =
      start_run_opts uuid t.workspace t.workflow
        (marshal (obj (field (codes "scheduled_for") (str (rfc3339 occ)) end)))
        (record { trigger_id = some t.id; idempotency_key = cron_key uuid t.id occ }) db

  -- A bad expression, nothing due, or a start that fails: the sweep goes on with the next trigger.
  unfoldable pub sweep_trigger : ℕ → Trigger → Db → Db
  unfolding fire_schedule latest_occurrence
  sweep_trigger now t db = elim (parse (cron_expr t.cron)) [
    | none ↦ db
    | some next ↦ elim (latest_occurrence next now lookback_window) [
      | out_of_fuel ↦ db
      | result none ↦ db
      | result (some occ) ↦ after_fire db (fire_schedule t occ db)
    ]
  ]

  unfoldable pub sweep_all : ℕ → List Trigger → Db → Db
  unfolding sweep_trigger
  sweep_all now [] db = db
  sweep_all now (t ∷ ts) db = sweep_all now ts (sweep_trigger now t db)

  unfoldable pub sweep_schedules : ℕ → Db → Db
  unfolding sweep_all due_triggers
  sweep_schedules now db = sweep_all now (due_triggers db) db
