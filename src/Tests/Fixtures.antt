-- ===== src/Tests/Fixtures.antt =====
-- A workflow of two steps, the second of which needs the first and has a guard, and its run.
use oarlock.Prelude.{ℕ, Text, codes, Bool, true, Option, none, some, [], ◌∷◌}
use oarlock.Prelude.Int.{pos}
use oarlock.Json.{end}
use oarlock.Definition.{Step, Definition}
use oarlock.Engine.Store.{Workflow, Version, Db}
use oarlock.Engine.Runs.{RunOpts}
use oarlock.Engine.System.{empty_db}

abbrev pub fetch : Step
fetch = record {
  key = codes "fetch";
  type = codes "http.request";
  needs = [];
  guard = [];
  config = end;
  retries = pos 2;
  timeout = pos 30;
}

abbrev pub report : Step
report = record {
  key = codes "report";
  type = codes "transform";
  needs = codes "fetch" ∷ [];
  guard = codes "input.ok";
  config = end;
  retries = pos 0;
  timeout = pos 0;
}

abbrev pub pipeline : Definition
pipeline = record { name = codes "pipeline"; steps = fetch ∷ report ∷ [] }

abbrev pub looped : Definition
looped = record {
  name = codes "looped";
  steps = record fetch { needs = codes "report" ∷ [] } ∷ report ∷ [];
}

abbrev pub any_type : Option (Text → Bool)
any_type = none

abbrev pub uuid : ℕ → Text
uuid n = n ∷ []

abbrev pub workflow : Workflow
workflow = record { id = 1; workspace = 7; current_version = some 2; is_enabled = true }

abbrev pub version : Version
version = record { id = 2; definition = some pipeline }

abbrev pub db_deployed : Db
db_deployed = record empty_db { workflows = workflow ∷ []; versions = version ∷ [] }

abbrev pub keyed_opts : RunOpts
keyed_opts = record { trigger_id = none; idempotency_key = codes "order-1" }
