-- ===== src/Api/Triggers.antt =====
-- engine/internal/api/triggers.go: the triggers of a workflow and their configs.
pub mod Config
pub mod Kept
pub mod Handles
use oarlock.Prelude.{
  ℕ, suc, ◌+◌, ◌-◌, ◌≡◌, Text, text_eq, codes, Bool, true, false, not, ◌&&◌, ◌||◌, Option, none,
  some, List, [], ◌∷◌, leb, ◌==◌, if◌then◌else◌, trim_space,
}
use oarlock.Prelude.Tables.{find, update, delete, any_row}
use oarlock.Json.{Value, null, bool, num, str, arr, obj, Fields, field, end}
use oarlock.Api.Http.{Reply, reply, error, Message, said, library_error, is_alnum}
use oarlock.Api.Triggers.Config.{Checked, normalized, refused, hook, validate_trigger_config}
use oarlock.Api.Workflows.{Catalog}
use oarlock.Api.Workflows as Workflows

pub record TriggerRow : Type 0 where
  pub id : ℕ
  pub workspace : ℕ
  pub workflow : ℕ
  pub type : Text
  pub config : Value
  pub is_enabled : Bool

pub record Triggers : Type 0 where
  pub rows : List TriggerRow
  pub next_id : ℕ

pub data Body : Type 0 where
  trigger_id : ℕ → Body
  no_content : Body

-- `config->>'path'` of a normalized config.
unfoldable pub member_text : Text → Value → Option Text
unfolding text_eq
member_text name (obj (field key (str s) rest)) = if text_eq key name then some s else none
member_text name v = none

abbrev pub is_text : Text → Option Text → Bool
is_text s none = false
is_text s (some t) = text_eq t s

-- `unique (workspace_id, (config->>'path')) where type = 'webhook'`.
unfoldable pub has_path : ℕ → Text → TriggerRow → Bool
unfolding member_text text_eq
has_path workspace path t =
    t.workspace == workspace
    && (text_eq t.type hook && is_text path (member_text (codes "path") t.config))

unfoldable pub owned : ℕ → ℕ → TriggerRow → Bool
owned id workspace t = t.id == id && t.workspace == workspace

abbrev pub path_of : Option Text → Text
path_of none = []
path_of (some s) = s

-- The row breaks the index: another row has its path.
unfoldable pub breaks_index : TriggerRow → List TriggerRow → Bool
unfolding any_row has_path member_text text_eq
breaks_index t rows =
    text_eq t.type hook
    && any_row
        (λ u.
          has_path t.workspace (path_of (member_text (codes "path") t.config)) u
          && not (u.id == t.id))
        rows

abbrev invalid_trigger : {A : Type 0} → Reply A
invalid_trigger = error 400 (said (codes "invalid trigger id"))

abbrev not_found : {A : Type 0} → Reply A
not_found = error 404 (said (codes "trigger not found"))

abbrev path_taken : {A : Type 0} → Reply A
path_taken = error 409 (said (codes "a webhook with that path already exists in this workspace"))

abbrev pub new_trigger : ℕ → ℕ → ℕ → Text → Value → Bool → TriggerRow
new_trigger id workspace workflow type config enabled = record {
  id = id;
  workspace = workspace;
  workflow = workflow;
  type = type;
  config = config;
  is_enabled = enabled;
}

unfoldable pub insert_trigger : ℕ → ℕ → Text → Value → Bool → Triggers → Triggers × Reply Body
unfolding breaks_index
insert_trigger workspace workflow type config enabled ts =
    let t = new_trigger ts.next_id workspace workflow type config enabled in
    if breaks_index t ts.rows
    then (ts, path_taken)
    else (record { rows = t ∷ ts.rows; next_id = suc ts.next_id }, reply 201 (trigger_id t.id))

abbrev pub or_true : Option Bool → Bool
or_true none = true
or_true (some b) = b

abbrev pub set_trigger : Option Value → Option Bool → TriggerRow → TriggerRow
set_trigger config enabled t = record t {
  config = elim config [ none ↦ t.config | some v ↦ v ];
  is_enabled = elim enabled [ none ↦ t.is_enabled | some b ↦ b ];
}

-- The update of the row `t`, which the key selects.
unfoldable pub write_trigger :
    TriggerRow → ℕ → ℕ → Option Value → Option Bool → Triggers → Triggers × Reply Body
unfolding breaks_index update owned
write_trigger t workspace id config enabled ts =
    if breaks_index (set_trigger config enabled t) ts.rows then (ts, path_taken) else (
      record ts { rows = update (owned id workspace) (set_trigger config enabled) ts.rows },
      reply 200 (trigger_id id),
    )

-- A config that is left out or `null` is not changed.
abbrev pub given : Option Value → Option Value
given none = none
given (some null) = none
given (some v) = some v

-- The id is what `uuid.Parse` makes of the path, a body what the decoder makes of it.
module _ (parses : Text → Bool) where
  unfoldable pub create_trigger :
      ℕ
      → Option ℕ
      → Option (Text × Option Value × Option Bool)
      → Catalog
      → Triggers
      → Triggers × Reply Body
  unfolding validate_trigger_config any_row Workflows.owned insert_trigger
  create_trigger workspace none body c ts = (ts, error 400 (said (codes "invalid workflow id")))
  create_trigger workspace (some id) none c ts = (ts, error 400 (said (codes "invalid body")))
  create_trigger workspace (some id) (some (type, raw, enabled)) c ts =
      elim (validate_trigger_config parses type raw) [
        | refused message ↦ (ts, error 422 message)
        | normalized config ↦
            if any_row (Workflows.owned id workspace) c.workflows
            then insert_trigger workspace id type config (or_true enabled) ts
            else (ts, error 404 (said (codes "workflow not found")))
      ]

  unfoldable pub change_trigger :
      TriggerRow → ℕ → ℕ → Option Value → Option Bool → Triggers → Triggers × Reply Body
  unfolding validate_trigger_config write_trigger
  change_trigger t workspace id none enabled ts = write_trigger t workspace id none enabled ts
  change_trigger t workspace id (some raw) enabled ts =
      elim (validate_trigger_config parses t.type (some raw)) [
        | refused message ↦ (ts, error 422 message)
        | normalized config ↦ write_trigger t workspace id (some config) enabled ts
      ]

  unfoldable pub update_trigger :
      ℕ → Option ℕ → Option (Option Value × Option Bool) → Triggers → Triggers × Reply Body
  unfolding find owned change_trigger
  update_trigger workspace none body ts = (ts, invalid_trigger)
  update_trigger workspace (some id) none ts = (ts, error 400 (said (codes "invalid body")))
  update_trigger workspace (some id) (some (raw, enabled)) ts =
      elim (find (owned id workspace) ts.rows) [
        | none ↦ (ts, not_found)
        | some t ↦ change_trigger t workspace id (given raw) enabled ts
      ]

-- `has_runs` tells the triggers that started runs: the key `runs.trigger_id` refers to these.
unfoldable pub delete_trigger : (ℕ → Bool) → ℕ → Option ℕ → Triggers → Triggers × Reply Body
unfolding any_row owned delete
delete_trigger has_runs workspace none ts = (ts, invalid_trigger)
delete_trigger has_runs workspace (some id) ts =
    if not (any_row (owned id workspace) ts.rows)
    then (ts, not_found)
    else if has_runs id
    then (ts, error 500 library_error)
    else (record ts { rows = delete (owned id workspace) ts.rows }, reply 204 no_content)
