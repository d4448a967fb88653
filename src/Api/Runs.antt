-- ===== src/Api/Runs.antt =====
-- engine/internal/api/api.go and resume.go: the requests that start, cancel, retry and resume runs.
pub mod Cancels
pub mod Callback
use oarlock.Prelude.{
  ℕ, ◌≡◌, Text, text_eq, codes, Bool, true, false, Option, none, some, List, [], ◌∷◌, if◌then◌else◌,
}
use oarlock.Json.{Value, null}
use oarlock.Engine.Store.{Db, Error, no_rows, suspension_not_found, not_waiting, Result, ok, err}
use oarlock.Engine.Runs.{RunOpts, Started, start_run_opts}
use oarlock.Engine.Runs as Engine
use oarlock.Engine.Resume.{resume_suspended_task}
use oarlock.Api.Http.{Reply, reply, error, said, engine_error}

-- The body of a response that succeeds.
pub data Body : Type 0 where
  run_id : ℕ → Body
  status : Text → Body

-- What reading the body of a callback gives.
pub data Payload : Type 0 where
  unread not_json empty : Payload
  json : Value → Payload

abbrev invalid_run : {A : Type 0} → Reply A
invalid_run = error 400 (said (codes "invalid run id"))

abbrev pub start_reply : Db → Result Started → Db × Reply Body
start_reply db (ok s) = (s.db, reply (if s.created then 201 else 200) (run_id s.run))
start_reply db (err no_rows) = (db, error 404 (said (codes "workflow not found or has no version")))
start_reply db (err e) = (db, error 500 (engine_error e))

-- The reply to a cancel or a retry.
abbrev pub change_reply : Text → Db → Result Db → Db × Reply Body
change_reply done db (ok db') = (db', reply 200 (status done))
change_reply done db (err no_rows) = (db, error 404 (said (codes "run not found")))
change_reply done db (err e) = (db, error 409 (engine_error e))

-- The id is what `uuid.Parse` makes of the path; the input and the key are what the decoder leaves of
-- the body, whose errors are ignored.
unfoldable pub start_run : (ℕ → Text) → ℕ → Option ℕ → Text → Text → Db → Db × Reply Body
unfolding start_run_opts
start_run uuid workspace none input key db = (db, error 400 (said (codes "invalid workflow id")))
start_run uuid workspace (some id) input key db = start_reply db (
    start_run_opts uuid workspace id input (record { trigger_id = none; idempotency_key = key }) db)

unfoldable pub cancel_run : ℕ → Option ℕ → ℕ → Db → Db × Reply Body
unfolding Engine.cancel_run
cancel_run workspace none now db = (db, invalid_run)
cancel_run workspace (some id) now db =
    change_reply (codes "canceled") db (Engine.cancel_run workspace id now db)

unfoldable pub retry_run : ℕ → Option ℕ → Db → Db × Reply Body
unfolding Engine.retry_run
retry_run workspace none db = (db, invalid_run)
retry_run workspace (some id) db =
    change_reply (codes "retrying") db (Engine.retry_run workspace id db)

abbrev pub resume_reply : Result ℕ → Reply Body
resume_reply (ok run) = reply 200 (run_id run)
resume_reply (err suspension_not_found) = error 404 (said (codes "not found"))
resume_reply (err not_waiting) = error 409 (said (codes "not waiting"))
resume_reply (err e) = error 500 (engine_error e)

-- `hash` is `hashToken`, `redact` the redactor of the workspace's secrets.
module _ (hash : Text → Text) (redact : ℕ → Text → Text) (now : ℕ) where
  unfoldable pub resume_with : Text → Value → Db → Db × Reply Body
  unfolding resume_suspended_task
  resume_with token payload db =
      let (db', outcome) = resume_suspended_task redact (hash token) payload now db in
      (db', resume_reply outcome)

  unfoldable pub resume_payload : Text → Payload → Db → Db × Reply Body
  unfolding resume_with
  resume_payload token unread db = (db, error 400 (said (codes "could not read body")))
  resume_payload token not_json db = (db, error 400 (said (codes "body must be JSON")))
  resume_payload token empty db = resume_with token null db
  resume_payload token (json payload) db = resume_with token payload db

  unfoldable pub resume : Text → Payload → Db → Db × Reply Body
  unfolding resume_payload text_eq
  resume token payload db =
      if text_eq token []
      then (db, error 404 (said (codes "not found")))
      else resume_payload token payload db
