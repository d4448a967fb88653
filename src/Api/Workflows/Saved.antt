-- ===== src/Api/Workflows/Saved.antt =====
-- What saving a definition promises: to later requests, and to the engine.
use oarlock.Prelude.{ℕ, ◌≡◌, Text, Bool, Option, List, [], ◌∷◌, map}
use oarlock.Json.{Value}
use oarlock.Definition.{Definition}
use oarlock.Engine.Store.{Workflow, Version, Db}
use oarlock.Api.Workflows.{WorkflowRow, VersionRow, Catalog}
use oarlock.Api.Workflows.Requests.{
  create_workflow, update_workflow, delete_workflow, put_definition,
}
use oarlock.Api.Workflows.Sound.{IsSound}
use oarlock.Api.Workflows.Handles.{
  create_workflow-IsSound, update_workflow-IsSound, delete_workflow-IsSound, put_definition-IsSound,
}

-- A request on workflows that may write.
pub data Request : Type 0 where
  creates : Option (Text × Option Value) → Request
  updates : Option ℕ → Option (Option Text × Option Bool) → Request
  deletes : Option ℕ → Request
  puts : Option ℕ → Option Value → Request

-- The engine's view of the rows: its columns, and what `definition.Parse` makes of a definition.
abbrev pub to_workflow : WorkflowRow → Workflow
to_workflow w = record {
  id = w.id;
  workspace = w.workspace;
  current_version = w.current_version;
  is_enabled = w.is_enabled;
}

module _ (parse : Value → Option Definition) (has : Text → Bool) where
  -- The request of a member of the workspace.
  abbrev pub handle : ℕ → Request → Catalog → Catalog
  handle w (creates body) c = (create_workflow parse has w body c).0
  handle w (updates id body) c = (update_workflow w id body c).0
  handle w (deletes id) c = (delete_workflow w id c).0
  handle w (puts id body) c = (put_definition parse has w id body c).0

  abbrev pub handle_all : List (ℕ × Request) → Catalog → Catalog
  handle_all [] c = c
  handle_all ((w, r) ∷ rs) c = handle_all rs (handle w r c)

  handle-IsSound :
      (w : ℕ) (r : Request) (c : Catalog) → IsSound parse has c → IsSound parse has (handle w r c)
  handle-IsSound w (creates body) c s = create_workflow-IsSound parse has c s w body
  handle-IsSound w (updates id body) c s = update_workflow-IsSound parse has c s w id body
  handle-IsSound w (deletes id) c s = delete_workflow-IsSound parse has c s w id
  handle-IsSound w (puts id body) c s = put_definition-IsSound parse has c s w id body

  -- Any requests that create, update and delete workflows and save definitions, in any workspaces,
  -- keep a catalog sound: each stored definition is one that is parsed and valid; the current version
  -- of each workflow is stored, and one of its own; ids are drawn; and at most one workflow has an id,
  -- at most one of a workspace a slug, and at most one version of a workflow a number.
  pub handle_all-IsSound :
      (rs : List (ℕ × Request)) (c : Catalog)
      → IsSound parse has c
      → IsSound parse has (handle_all rs c)
  handle_all-IsSound [] c s = s
  handle_all-IsSound ((w, r) ∷ rs) c s =
      handle_all-IsSound rs (handle w r c) (handle-IsSound w r c s)

  abbrev pub to_version : VersionRow → Version
  to_version v = record { id = v.id; definition = parse v.definition }

  -- The database holds the rows of the catalog.
  pub record Serves (c : Catalog) (db : Db) : Type 0 where
    pub workflows : db.workflows ≡ map to_workflow c.workflows
    pub versions : db.versions ≡ map to_version c.versions
