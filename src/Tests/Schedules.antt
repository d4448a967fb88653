-- ===== src/Tests/Schedules.antt =====
-- A schedule that activates every minute.
use oarlock.Prelude.{ℕ, ◌+◌, ◌*◌, ◌/◌, ◌≡◌, ap, arith, none, some}
use oarlock.Engine.Scheduler.{Schedule, latest_occurrence}
use oarlock.Engine.Scheduler.Window.{IsSchedule, IsLatestIn, latest_occurrence-IsLatestIn}

abbrev minutely : Schedule
minutely t = some ((t / 60 + 1) * 60)

minutely-eq : (t u : ℕ) → minutely t ≡ some u → u ≡ (t / 60 + 1) * 60
minutely-eq t u e = cc e

no-none : {n : ℕ} → some n ≡ none → ⊥
no-none e = cc e

minutely-IsSchedule : IsSchedule minutely
minutely-IsSchedule = record {
  later = λ t u e. let q = minutely-eq t u e in omega arith;
  first = λ t s u e h l.
      let q = minutely-eq t u e in ap some (let same : (s / 60 + 1) * 60 ≡ u = omega arith in same);
  never = λ t s e h. absurd (no-none e);
}

latest_occurrence-IsLatestIn_example :
    IsLatestIn minutely 10 130 (latest_occurrence minutely 130 120)
latest_occurrence-IsLatestIn_example =
    latest_occurrence-IsLatestIn minutely minutely-IsSchedule 130 120 (omega arith)
