-- ===== src/Api/Hooks.antt =====
-- engine/internal/api/hooks.go: the webhook endpoint, which starts runs for callers that no session
-- authenticates.
pub mod Once
use oarlock.Prelude.{
  ℕ, Text, text_eq, codes, Bool, true, false, not, ◌&&◌, ◌||◌, Option, none, some, List, [], ◌∷◌,
  ◌++◌, if◌then◌else◌,
}
use oarlock.Prelude.Tables.{find}
use oarlock.Json.{Value, str, obj, Fields, field, end, marshal}
use oarlock.Engine.Store.{Db, Error, no_rows, Result, ok, err}
use oarlock.Engine.Runs.{RunOpts, Started, start_run_opts}

-- A row of the query's join of workspaces, webhook triggers and workflows.
pub record Hook : Type 0 where
  pub slug : Text
  pub path : Text
  pub workspace : ℕ
  pub trigger : ℕ
  pub workflow : ℕ
  pub trigger_enabled : Bool
  pub secret : Option Text
  pub workflow_enabled : Bool
  pub has_version : Bool

-- The request: the body as it was read, the two headers, and the first value of each query parameter.
pub record Delivery : Type 0 where
  pub slug : Text
  pub path : Text
  pub body : Text
  pub signature : Text
  pub idempotency_key : Text
  pub query : Fields

pub data Answer : Type 0 where
  not_found disabled bad_signature : Answer
  failed : Error → Answer
  -- 202 for a run that was created, 200 for one that an idempotency key found.
  accepted found : ℕ → Answer

unfoldable pub hook_at : Text → Text → Hook → Bool
unfolding text_eq
hook_at slug path h = text_eq h.slug slug && text_eq h.path path

abbrev pub is_live_hook : Hook → Bool
is_live_hook h = h.trigger_enabled && (h.workflow_enabled && h.has_version)

abbrev pub answer_error : Error → Answer
answer_error no_rows = disabled
answer_error e = failed e

abbrev pub answer : Db → Result Started → Db × Answer
answer db (ok s) = (s.db, if s.created then accepted s.run else found s.run)
answer db (err e) = (db, answer_error e)

-- `uuid` writes a UUID, `hmac` is the hex HMAC-SHA256 of a body under a secret, and `parse_json` is
-- `json.Unmarshal` of a body.
module _ (uuid : ℕ → Text) (hmac : Text → Text → Text) (parse_json : Text → Option Value) where
  unfoldable pub engine_run_opts : ℕ → Text → RunOpts
  engine_run_opts trigger key = record {
    trigger_id = some trigger;
    idempotency_key =
        if text_eq key [] then [] else codes "hook:" ++ (uuid trigger ++ (codes ":" ++ key));
  }

  unfoldable pub verify_hmac : Text → Text → Text → Bool
  unfolding text_eq
  verify_hmac secret body signature = text_eq (hmac secret body) signature

  -- A hook without a secret takes every body.
  unfoldable pub admits : Option Text → Delivery → Bool
  unfolding verify_hmac
  admits none d = true
  admits (some secret) d = text_eq secret [] || verify_hmac secret d.body d.signature

  abbrev body_value : Text → Option Value → Value
  body_value raw none = str raw
  body_value raw (some v) = v

  unfoldable pub hook_input : Delivery → Value
  hook_input d = obj (
      field (codes "body") (body_value d.body (parse_json d.body))
        (field (codes "query") (obj d.query) end))

  unfoldable pub webhook : List Hook → Delivery → Db → Db × Answer
  unfolding find hook_at admits start_run_opts engine_run_opts hook_input marshal
  webhook hooks d db = elim (find (hook_at d.slug d.path) hooks) [
    | none ↦ (db, not_found)
    | some h ↦
        if not (is_live_hook h)
        then (db, disabled)
        else if not (admits h.secret d)
        then (db, bad_signature)
        else answer db (
            start_run_opts uuid h.workspace h.workflow (marshal (hook_input d))
              (engine_run_opts h.trigger d.idempotency_key) db)
  ]
