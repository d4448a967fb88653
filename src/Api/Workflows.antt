-- ===== src/Api/Workflows.antt =====
-- engine/internal/api/api.go: the rows of workflows and their versions, and the writes of them.
pub mod Requests
pub mod Sound
pub mod Keeps
pub mod Handles
pub mod Saved
pub mod Versions
use oarlock.Prelude.{
  ℕ, suc, ◌+◌, ◌≡◌, Text, text_eq, codes, Bool, true, false, ◌&&◌, Option, none, some, List, [],
  ◌∷◌, ltb, leb, ◌==◌, if◌then◌else◌, trim_space,
}
use oarlock.Prelude.Tables.{find, update, delete, any_row}
use oarlock.Json.{Value, obj, arr, nil, field, end}
use oarlock.Definition.{Definition, Check, ok, invalid, nil_deref, out_of_fuel, validate}
use oarlock.Api.Http.{
  Reply, reply, panicked, error, said, invalid_definition, library_error, slugify,
}

-- The rows that these requests read and write; timestamps and `created_by` are left out.
pub record WorkflowRow : Type 0 where
  pub id : ℕ
  pub workspace : ℕ
  pub name : Text
  pub slug : Text
  pub is_enabled : Bool
  pub current_version : Option ℕ

pub record VersionRow : Type 0 where
  pub id : ℕ
  pub workflow : ℕ
  pub version : ℕ
  pub definition : Value

pub record Catalog : Type 0 where
  pub workflows : List WorkflowRow
  pub versions : List VersionRow
  pub next_id : ℕ

-- The body of a response that succeeds.
pub data Body : Type 0 where
  saved : ℕ → ℕ → Body
  updated : ℕ → Text → Bool → Body
  shows_workflow : WorkflowRow → Option VersionRow → Body
  shows_version : VersionRow → Body
  no_content : Body

-- `where id = $1 and workspace_id = $2`.
unfoldable pub owned : ℕ → ℕ → WorkflowRow → Bool
owned id workspace w = w.id == id && w.workspace == workspace

abbrev pub workflow_by_id : ℕ → WorkflowRow → Bool
workflow_by_id id w = w.id == id

-- `unique (workspace_id, slug)`.
unfoldable pub has_slug : ℕ → Text → WorkflowRow → Bool
unfolding text_eq
has_slug workspace slug w = w.workspace == workspace && text_eq w.slug slug

-- `unique (workflow_id, version)`.
unfoldable pub numbered : ℕ → ℕ → VersionRow → Bool
numbered workflow version v = v.workflow == workflow && v.version == version

abbrev pub version_with_id : ℕ → VersionRow → Bool
version_with_id id v = v.id == id

-- `coalesce(max(v.version), 0)` of the workflow's versions.
unfoldable pub max_version : ℕ → List VersionRow → ℕ
max_version workflow [] = 0
max_version workflow (v ∷ vs) =
    let rest = max_version workflow vs in
    if v.workflow == workflow && ltb rest v.version then v.version else rest

-- The largest `integer` of the database.
abbrev pub int_max : ℕ
int_max = 2_147_483_647

abbrev pub point_at : Option ℕ → WorkflowRow → WorkflowRow
point_at version w = record w { current_version = version }

abbrev pub version_id : Option VersionRow → Option ℕ
version_id none = none
version_id (some v) = some v.id

abbrev pub new_workflow : ℕ → Text → Catalog → WorkflowRow
new_workflow workspace name c = record {
  id = c.next_id;
  workspace = workspace;
  name = name;
  slug = slugify name;
  is_enabled = false;
  current_version = some (suc c.next_id);
}

abbrev pub new_version : ℕ → ℕ → ℕ → Value → VersionRow
new_version id workflow number definition = record {
  id = id;
  workflow = workflow;
  version = number;
  definition = definition;
}

-- The new workflow with its first version, in one transaction.
unfoldable pub insert_workflow : ℕ → Text → Value → Catalog → Catalog
insert_workflow workspace name definition c = record {
  workflows = new_workflow workspace name c ∷ c.workflows;
  versions = new_version (suc c.next_id) c.next_id 1 definition ∷ c.versions;
  next_id = suc (suc c.next_id);
}

-- The next version of a workflow, which becomes the current one, in one transaction.
unfoldable pub insert_version : ℕ → ℕ → Value → Catalog → Catalog
unfolding find update numbered
insert_version id number definition c =
    let versions = new_version c.next_id id number definition ∷ c.versions in
    record {
      workflows =
          update (workflow_by_id id) (point_at (version_id (find (numbered id number) versions)))
            c.workflows;
      versions = versions;
      next_id = suc c.next_id;
    }
