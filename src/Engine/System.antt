-- ===== src/Engine/System.antt =====
-- The engine as a transition system: the transactions of the API, of the three workers, of the
-- reaper and of the queue, in any order. A worker's transaction acts on a task by a reference that
-- it read from a row. `Reaches` has the transactions that delete no workflow, `Evolves` all.
pub mod Holds
pub mod Roster
pub mod History
pub mod Once
pub mod Quiet
pub mod Deletes
pub mod Forever
pub mod Commits
use oarlock.Prelude.{ℕ, ◌≡◌, Text, Bool, false, ◌&&◌, ◌==◌, Option, List, [], Memᴰ}
use oarlock.Prelude.Tables.{delete, any_row}
use oarlock.Json.{Value}
use oarlock.Definition.{Step, Definition}
use oarlock.Engine.Store.{Workflow, Version, Trigger, Run, Task, Job, Db, ok}
use oarlock.Engine.Context.{Guard}
use oarlock.Engine.Runs.{RunOpts, Started, start_run_opts, cancel_run, retry_run}
use oarlock.Engine.Advance.{advance}
use oarlock.Engine.Execute.{TaskRef, claim, Verdict, finish_task, Suspend, suspend_task}
use oarlock.Engine.Resume.{Resumed, resume_suspended}
use oarlock.Engine.Reaper.{reap_task}

-- The reference was read from the row.
abbrev pub Names : TaskRef → Task → Type 0
Names t row =
    (row.id ≡ t.id) × (row.run ≡ t.run) × (row.step_key ≡ t.step_key) × (row.attempt ≡ t.attempt)

-- `uuid` writes a UUID as text. What a guard decides is the environment's choice.
pub data Transition (uuid : ℕ → Text) (db : Db) : Db → Type 0 where
  starts :
      (workspace workflow : ℕ) (input : Text) (opts : RunOpts) (s : Started)
      → start_run_opts uuid workspace workflow input opts db ≡ ok s
      → Transition uuid db s.db
  cancels :
      (workspace run now : ℕ) {db' : Db}
      → cancel_run workspace run now db ≡ ok db'
      → Transition uuid db db'
  retries :
      (workspace run : ℕ) {db' : Db} → retry_run workspace run db ≡ ok db' → Transition uuid db db'
  advances :
      (eval : Definition → Run → Step → Guard) (run now : ℕ) {db' : Db}
      → advance eval run now db ≡ ok db'
      → Transition uuid db db'
  claims : (t : TaskRef) (config : Value) (now : ℕ) → Transition uuid db (claim t config now db).0
  finishes :
      (t : TaskRef) (row : Task) (v : Verdict) (output : Value) (now : ℕ) {db' : Db}
      → Memᴰ row db.tasks
      → Names t row
      → finish_task t v output now db ≡ ok db'
      → Transition uuid db db'
  suspends :
      (t : TaskRef) (s : Suspend) (raw hashed : Text)
      → Transition uuid db (suspend_task t s raw hashed db)
  resumes :
      (task : ℕ) (output : Text) (now : ℕ) (r : Resumed)
      → resume_suspended task output now db ≡ ok r
      → Transition uuid db r.db
  reaps :
      (d : Option Definition) (o row : Task) (now : ℕ) {db' : Db}
      → Memᴰ row db.tasks
      → (row.id ≡ o.id)
        × (row.run ≡ o.run)
        × (row.step_key ≡ o.step_key)
        × (row.attempt ≡ o.attempt)
      → reap_task d o now db ≡ ok db'
      → Transition uuid db db'
  -- The queue hands out, reschedules and drops jobs; workflows are created and edited meanwhile.
  queue_works : (jobs : List Job) → Transition uuid db (record db { jobs = jobs })
  workflows_change :
      (workflows : List Workflow) (versions : List Version) (triggers : List Trigger)
      → Transition uuid db
          (record db { workflows = workflows; versions = versions; triggers = triggers })

pub data Reaches (uuid : ℕ → Text) (db : Db) : Db → Type 0 where
  here : Reaches uuid db db
  onward : {mid db' : Db} → Reaches uuid db mid → Transition uuid mid db' → Reaches uuid db db'

-- The runs of a workflow, their tasks, and the suspensions of these.
unfoldable pub run_of : ℕ → List Run → ℕ → Bool
unfolding any_row
run_of workflow rs run = any_row (λ r. r.id == run && r.workflow == workflow) rs

unfoldable pub task_of : ℕ → Db → ℕ → Bool
unfolding any_row run_of
task_of workflow db task = any_row (λ t. t.id == task && run_of workflow db.runs t.run) db.tasks

-- What `on delete cascade` deletes with a workflow.
unfoldable pub cascade : ℕ → Db → Db
unfolding delete run_of task_of
cascade workflow db = record db {
  runs = delete (λ r. r.workflow == workflow) db.runs;
  tasks = delete (λ t. run_of workflow db.runs t.run) db.tasks;
  suspensions = delete (λ s. task_of workflow db s.task) db.suspensions;
}

-- Transactions and deletions of workflows, of those that are not spared.
pub data Evolves (uuid : ℕ → Text) (spared : ℕ → Bool) (db : Db) : Db → Type 0 where
  begin : Evolves uuid spared db db
  moves :
      {mid db' : Db}
      → Evolves uuid spared db mid
      → Transition uuid mid db'
      → Evolves uuid spared db db'
  deletes :
      {mid : Db} (workflow : ℕ) (workflows : List Workflow) (versions : List Version)
      (triggers : List Trigger)
      → spared workflow ≡ false
      → Evolves uuid spared db mid
      → Evolves uuid spared db (
          cascade workflow
            (record mid { workflows = workflows; versions = versions; triggers = triggers }))

-- No workflow is spared, and only one is.
abbrev pub any_workflow : ℕ → Bool
any_workflow w = false

abbrev pub all_but : ℕ → ℕ → Bool
all_but workflow w = w == workflow

-- The database as the migrations leave it.
abbrev pub empty_db : Db
empty_db = record {
  workflows = [];
  versions = [];
  triggers = [];
  runs = [];
  tasks = [];
  suspensions = [];
  jobs = [];
  next_id = 0;
}
