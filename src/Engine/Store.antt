-- ===== src/Engine/Store.antt =====
-- engine/internal/db/migrations/0001_init.sql and the River queue: the rows that the engine keeps,
-- with the job table that the queue adds to the same database.
use oarlock.Prelude.{
  ℕ, suc, ◌≡◌, ◌⊎◌, inl, inr, refl, Text, text_eq, Bool, true, false, ◌&&◌, Option, none, some,
  List, [], ◌∷◌, leb, ◌==◌, if◌then◌else◌,
}
use oarlock.Prelude.Tables.{any_row}
use oarlock.Definition.{Definition}

pub data RunStatus : Type 0 where
  queued running suspended succeeded failed canceled : RunStatus

pub data TaskStatus : Type 0 where
  queued running suspended succeeded failed skipped canceled : TaskStatus

-- A UUID is a number, drawn from a counter. A timestamp is a number of nanoseconds.
pub record Workflow : Type 0 where
  pub id : ℕ
  pub workspace : ℕ
  pub current_version : Option ℕ
  pub is_enabled : Bool

-- The column `definition` holds what `definition.Parse` makes of it: `none` is its error.
pub record Version : Type 0 where
  pub id : ℕ
  pub definition : Option Definition

pub record Trigger : Type 0 where
  pub id : ℕ
  pub workspace : ℕ
  pub workflow : ℕ
  pub type : Text
  pub cron : Option Text
  pub is_enabled : Bool

pub record Run : Type 0 where
  pub id : ℕ
  pub workspace : ℕ
  pub workflow : ℕ
  pub version : ℕ
  pub trigger : Option ℕ
  pub status : RunStatus
  pub input : Text
  pub error : Option Text
  pub idempotency_key : Option Text
  pub started_at : Option ℕ
  pub finished_at : Option ℕ

pub record Task : Type 0 where
  pub id : ℕ
  pub run : ℕ
  pub workspace : ℕ
  pub step_key : Text
  pub attempt : ℕ
  pub status : TaskStatus
  pub input : Option Text
  pub output : Option Text
  pub error : Option Text
  pub started_at : Option ℕ
  pub finished_at : Option ℕ

pub data Kind : Type 0 where
  delay callback : Kind

pub record Suspension : Type 0 where
  pub task : ℕ
  pub workspace : ℕ
  pub kind : Kind
  pub resume_token : Text
  pub resume_at : Option ℕ
  pub payload : Text

-- A job's arguments, with the time for which it is scheduled.
pub data Job : Type 0 where
  advance_run : ℕ → Job
  execute_task resume_task : ℕ → Option ℕ → Job

pub record Db : Type 0 where
  pub workflows : List Workflow
  pub versions : List Version
  pub triggers : List Trigger
  pub runs : List Run
  pub tasks : List Task
  pub suspensions : List Suspension
  pub jobs : List Job
  pub next_id : ℕ

-- What an operation of the engine returns when it does not commit.
pub data Error : Type 0 where
  no_rows bad_definition unique_violation other_workflow suspension_not_found not_waiting
        invalid_json :
      Error
  already not_retryable : RunStatus → Error

pub data Result {ℓ} (A : Type ℓ) : Type ℓ where
  ok : A → Result A
  err : Error → Result A

infixl 5 ◌>>=◌
abbrev pub ◌>>=◌ {ℓ κ} : {A : Type ℓ} {B : Type κ} → Result A → (A → Result B) → Result B
ok a >>= f = f a
err e >>= f = err e

-- Inversion of a chain that succeeded.
pub >>=-eq-ok {ℓ κ} :
    {X : Type ℓ} {Y : Type κ} (first : Result X) (next : X → Result Y) {y : Y}
    → (first >>= next) ≡ ok y
    → (x : X) × (first ≡ ok x) × (next x ≡ ok y)
>>=-eq-ok (err e) next h = cc
>>=-eq-ok (ok x) next h = (x, refl, h)

pub Result-cases {ℓ} :
    {A : Type ℓ} (r : Result A) → ((a : A) × (r ≡ ok a)) ⊎ ((e : Error) × (r ≡ err e))
Result-cases (ok a) = inl (a, refl)
Result-cases (err e) = inr (e, refl)

-- `pgx.ErrNoRows` where a query that must give a row gives none.
abbrev pub or_fail {ℓ} : {A : Type ℓ} → Option A → Error → Result A
or_fail none e = err e
or_fail (some a) e = ok a

abbrev pub run_by_id : ℕ → Run → Bool
run_by_id id r = r.id == id

abbrev pub task_by_id : ℕ → Task → Bool
task_by_id id t = t.id == id

-- The statuses 'queued', 'running' and 'suspended': the task is not finished.
abbrev pub is_live : TaskStatus → Bool
is_live TaskStatus.queued = true
is_live TaskStatus.running = true
is_live TaskStatus.suspended = true
is_live _ = false

-- The cases "succeeded", "failed", "canceled" of a run's status.
abbrev pub is_terminal : RunStatus → Bool
is_terminal RunStatus.succeeded = true
is_terminal RunStatus.failed = true
is_terminal RunStatus.canceled = true
is_terminal _ = false

-- `run_id = $1 and step_key = $2`.
unfoldable pub of_step : ℕ → Text → Task → Bool
of_step run key t = t.run == run && text_eq t.step_key key

-- A row of `tasks` as it is inserted.
unfoldable pub new_task : ℕ → ℕ → ℕ → Text → ℕ → TaskStatus → Task
new_task id run workspace key attempt status = record {
  id = id;
  run = run;
  workspace = workspace;
  step_key = key;
  attempt = attempt;
  status = status;
  input = none;
  output = none;
  error = none;
  started_at = none;
  finished_at = none;
}

-- The constraint `unique (run_id, step_key, attempt)`.
unfoldable pub task_exists : ℕ → Text → ℕ → List Task → Bool
unfolding of_step any_row
task_exists run key attempt ts = any_row (λ t. of_step run key t && t.attempt == attempt) ts

-- `insert into tasks …`: it fails on a violation of the constraint. The new id is `next_id`.
unfoldable pub insert_task : Task → Db → Result Db
unfolding task_exists
insert_task t db =
    if task_exists t.run t.step_key t.attempt db.tasks
    then err unique_violation
    else ok (record db { tasks = t ∷ db.tasks; next_id = suc db.next_id })

-- `client.InsertTx`.
abbrev pub enqueue : Job → Db → Db
enqueue j db = record db { jobs = j ∷ db.jobs }

-- The later attempt of two rows.
unfoldable pub newer : Task → Option Task → Option Task
newer t none = some t
newer t (some u) = if leb u.attempt t.attempt then some t else some u

-- `select distinct on (step_key) … order by step_key, attempt desc`, at one step of the run.
unfoldable pub latest : ℕ → Text → List Task → Option Task
unfolding newer of_step
latest run key [] = none
latest run key (t ∷ ts) =
    let rest = latest run key ts in if of_step run key t then newer t rest else rest
