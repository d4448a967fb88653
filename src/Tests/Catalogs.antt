-- ===== src/Tests/Catalogs.antt =====
-- Workflows that are saved, run and saved again, and the slugs of their names.
use oarlock.Prelude.{
  ℕ, suc, ◌≡◌, refl, Text, codes, Bool, true, ◌&&◌, Option, none, some, List, [], ◌∷◌, arith, map,
  if◌then◌else◌,
}
use oarlock.Prelude.Tables.{any_row}
use oarlock.Json.{Value, obj, end}
use oarlock.Definition.{Definition, Step}
use oarlock.Engine.Store.{Db, Run}
use oarlock.Engine.Context.{Guard, passes}
use oarlock.Engine.Runs.{RunOpts, Started, insert_run, new_run}
use oarlock.Api.Http.{reply, slugify}
use oarlock.Api.Workflows.{
  Catalog, WorkflowRow, saved, shows_workflow, shows_version, new_version, max_version, owned,
  numbered, insert_version,
}
use oarlock.Api.Workflows.Requests.{get_workflow, get_version, put_definition, create_workflow}
use oarlock.Api.Workflows.Sound.{IsSound}
use oarlock.Api.Workflows.Saved.{
  Request, creates, puts, handle_all, handle_all-IsSound, to_workflow, to_version,
}
use oarlock.Api.Workflows.Versions.{put_definition-get}

slug_of_name : slugify (codes " My flow: no. 2!") ≡ codes "my-flow-no-2"
unfolding slugify
slug_of_name = refl

-- U+212A and U+0130 have a letter of ASCII as their lower case, other letters are dropped.
slug_of_signs : slugify (226 ∷ 132 ∷ 170 ∷ 196 ∷ 176 ∷ 195 ∷ 188 ∷ []) ≡ codes "ki"
unfolding slugify
slug_of_signs = refl

abbrev no_steps : Definition
no_steps = record { name = []; steps = [] }

-- Only objects are definitions here.
abbrev parse : Value → Option Definition
parse (obj members) = some no_steps
parse v = none

abbrev has : Text → Bool
has type = true

abbrev empty_catalog : Catalog
empty_catalog = record { workflows = []; versions = []; next_id = 5 }

empty_catalog-IsSound : IsSound parse has empty_catalog
empty_catalog-IsSound = record {
  savable = λ v m. elim m [ ];
  current = λ w m. elim m [ ];
  drawn_workflow = λ w m. elim m [ ];
  drawn_version = λ v m. elim m [ ];
  single_workflow = λ i. omega arith;
  single_slug = λ w s. omega arith;
  single_number = λ w n. omega arith;
}

abbrev requests : List (ℕ × Request)
requests = (1, creates (some (codes "Flow", none))) ∷ (1, puts (some 5) (some (obj end))) ∷ []

handle_all-IsSound_example : IsSound parse has (handle_all parse has requests empty_catalog)
handle_all-IsSound_example =
    handle_all-IsSound parse has requests empty_catalog empty_catalog-IsSound

abbrev one_flow : Catalog
one_flow = handle_all parse has ((1, creates (some (codes "Flow", none))) ∷ []) empty_catalog

one_flow-IsSound : IsSound parse has one_flow
one_flow-IsSound =
    handle_all-IsSound parse has ((1, creates (some (codes "Flow", none))) ∷ []) empty_catalog
      empty_catalog-IsSound

abbrev serving : Db
serving = record {
  workflows = map to_workflow one_flow.workflows;
  versions = map (to_version parse has) one_flow.versions;
  triggers = [];
  runs = [];
  tasks = [];
  suspensions = [];
  jobs = [];
  next_id = 30;
}

abbrev opts : RunOpts
opts = record { trigger_id = none; idempotency_key = [] }

abbrev uuid : ℕ → Text
uuid n = []

abbrev started : Started
started = insert_run (new_run 30 1 5 6 (codes "{}") none none) serving

abbrev passing : Definition → Run → Step → Guard
passing d r s = passes

abbrev twice : Catalog
twice = insert_version 5 2 (obj end) one_flow

saves_again :
    put_definition parse has 1 (some 5) (some (obj end)) one_flow ≡ (twice, reply 200 (saved 5 2))
unfolding put_definition create_workflow
saves_again = refl

put_definition-get_example :
    ◌≡◌ {A = ℕ} 2 (suc (max_version 5 one_flow.versions))
    × ((x : WorkflowRow) × (get_workflow 1 (some 5) twice
          ≡ reply 200 (shows_workflow x (some (new_version 7 5 2 (obj end))))))
    × (get_version 1 (some 5) (some 1) twice ≡ (
        if numbered 5 1 (new_version 7 5 2 (obj end)) && any_row (owned 5 1) one_flow.workflows
        then reply 200 (shows_version (new_version 7 5 2 (obj end)))
        else get_version 1 (some 5) (some 1) one_flow))
unfolding create_workflow
put_definition-get_example =
    put_definition-get parse has 1 5 2 (obj end) one_flow twice saves_again one_flow-IsSound 1 5 1
