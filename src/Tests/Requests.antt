-- ===== src/Tests/Requests.antt =====
-- Requests that are refused, a callback that is repeated, and triggers.
use oarlock.Prelude.{
  ℕ, ◌≡◌, ◌≤◌, ◌⊎◌, refl, Text, text_eq, codes, Bool, true, false, Option, none, some, List, [],
  ◌∷◌, arith, trim_space, count_if,
}
use oarlock.Prelude.Tables.{find, any_row}
use oarlock.Json.{Value, null, str, obj, field, end, escape}
use oarlock.Engine.Store.{Db, Run, RunStatus, TaskStatus, Task, callback, already, is_terminal}
use oarlock.Engine.Resume.{by_token}
use oarlock.Engine.System.{empty_db}
use oarlock.Api.Http.{reply, error, said, engine_error}
use oarlock.Api.Runs.{Body, run_id, empty, json, resume, cancel_run}
use oarlock.Api.Runs.Cancels.{cancel_run-answers}
use oarlock.Engine.Runs.{in_workspace, canceled_run, pending_of}
use oarlock.Api.Runs.Callback.{resume-once}
use oarlock.Api.Workflows.{Catalog}
use oarlock.Api.Triggers.{Triggers, create_trigger}
use oarlock.Api.Triggers.Config.{schedule, hook}
use oarlock.Api.Triggers.Kept.{IsChecked}
use oarlock.Api.Triggers.Handles.{Request, creates, deletes, handle_all, handle_all-IsChecked}

abbrev run : Run
run = record {
  id = 3;
  workspace = 7;
  workflow = 1;
  version = 2;
  trigger = none;
  status = RunStatus.succeeded;
  input = [];
  error = none;
  idempotency_key = none;
  started_at = none;
  finished_at = some 5;
}

abbrev with_run : Db
with_run = record empty_db { runs = run ∷ [] }

cancel_run-answers_example :
    ((find (in_workspace 3 7) with_run.runs ≡ none)
      × (cancel_run 7 (some 3) 9 with_run ≡ (with_run, error 404 (said (codes "run not found")))))
    ⊎ ((r : Run) × (find (in_workspace 3 7) with_run.runs ≡ some r)
        × (is_terminal r.status ≡ true)
        × (cancel_run 7 (some 3) 9 with_run
            ≡ (with_run, error 409 (engine_error (already r.status)))))
    ⊎ ((r : Run) × (find (in_workspace 3 7) with_run.runs ≡ some r)
        × (is_terminal r.status ≡ false)
        × ((cancel_run 7 (some 3) 9 with_run).1 ≡ reply 200 (Body.status (codes "canceled")))
        × (find (in_workspace 3 7) (cancel_run 7 (some 3) 9 with_run).0.runs
            ≡ some (canceled_run 9 r))
        × (any_row (pending_of 3) (cancel_run 7 (some 3) 9 with_run).0.tasks ≡ false))
cancel_run-answers_example = cancel_run-answers 7 3 9 with_run

abbrev parked : Task
parked = record {
  id = 4;
  run = 3;
  workspace = 7;
  step_key = codes "approve";
  attempt = 1;
  status = TaskStatus.suspended;
  input = none;
  output = none;
  error = none;
  started_at = none;
  finished_at = none;
}

abbrev waiting : Db
waiting = record with_run {
  runs = record run { status = RunStatus.suspended; finished_at = none } ∷ [];
  tasks = parked ∷ [];
  suspensions =
      record {
        task = 4;
        workspace = 7;
        kind = callback;
        resume_token = codes "#r";
        resume_at = none;
        payload = [];
      }
      ∷ [];
}

abbrev hash : Text → Text
hash token = b'#' ∷ token

abbrev as_it_is : ℕ → Text → Text
as_it_is workspace text = text

abbrev resumed : Db
resumed = (resume hash as_it_is 9 (codes "r") empty waiting).0

resumes : resume hash as_it_is 9 (codes "r") empty waiting ≡ (resumed, reply 200 (run_id 3))
unfolding resume text_eq escape
resumes = refl

one_token : count_if (by_token (hash (codes "r"))) waiting.suspensions ≤ 1
unfolding text_eq
one_token = omega arith

resume-once_example :
    resume hash as_it_is 12 (codes "r") (json null) resumed
    ≡ (resumed, error 404 (said (codes "not found")))
resume-once_example =
    resume-once hash as_it_is 9 (codes "r") waiting resumed 3 one_token 12 empty null resumes

abbrev flows : Catalog
flows = record {
  workflows =
      record {
        id = 1;
        workspace = 7;
        name = codes "Flow";
        slug = codes "flow";
        is_enabled = true;
        current_version = none;
      }
      ∷ [];
  versions = [];
  next_id = 2;
}

abbrev five_fields : Text → Bool
five_fields expression = text_eq expression (codes "0 * * * *")

abbrev orders_hook : Option (Text × Option Value × Option Bool)
orders_hook = some (hook, some (obj (field (codes "Path") (str (codes " orders ")) end)), none)

abbrev hourly : Option (Text × Option Value × Option Bool)
hourly = some (schedule, some (obj (field (codes "cron") (str (codes "0 * * * *")) end)), none)

abbrev no_triggers : Triggers
no_triggers = record { rows = []; next_id = 1 }

no_triggers-IsChecked : IsChecked five_fields no_triggers
no_triggers-IsChecked = record {
  checked = λ t m. elim m [ ];
  drawn = λ t m. elim m [ ];
  single = λ i. omega arith;
  single_path = λ w p. omega arith;
}

abbrev trigger_requests : List (ℕ × Catalog × Request)
trigger_requests =
    (7, flows, creates (some 1) orders_hook)
    ∷ (7, flows, creates (some 1) hourly)
    ∷ (7, flows, creates (some 1) orders_hook)
    ∷ (7, flows, deletes (λ t. false) (some 2))
    ∷ []

handle_all-IsChecked_example :
    IsChecked five_fields (handle_all five_fields trigger_requests no_triggers)
handle_all-IsChecked_example =
    handle_all-IsChecked five_fields trigger_requests no_triggers no_triggers-IsChecked

abbrev with_hook : Triggers
with_hook = (create_trigger five_fields 7 (some 1) orders_hook flows no_triggers).0

-- The second webhook of a path is refused.
path_is_taken : create_trigger five_fields 7 (some 1) orders_hook flows with_hook ≡ (
  with_hook,
  error 409 (said (codes "a webhook with that path already exists in this workspace")),
)
unfolding create_trigger text_eq trim_space
path_is_taken = refl
