-- ===== src/Tests/Work.antt =====
-- The job of the run's first task, a redacted text, and the expressions of a text.
use oarlock.Prelude.{
  map, ap, length, ◌^◌, ◌*◌, ◌+◌, List, ◌≤◌, ℕ, ◌≡◌, refl, Text, codes, text_eq, is_prefix,
  trim_space, false, Option, none, some, [], ◌∷◌, Memᴰ, arith, if◌then◌else◌,
}
use oarlock.Json.{field, end, Value, null, str, escape, marshal}
use oarlock.Steps.Js.{JsResult, value}
use oarlock.Engine.Store.{TaskStatus, Task, advance_run, Db, Result, ok}
use oarlock.Engine.Redact.{new_redactor, redact}
use oarlock.Engine.Redact.Occurs.{occurs, bracket_free}
use oarlock.Engine.Redact.Clean.{redact-clean}
use oarlock.Engine.Interpolate.{plain, expr, pieces_from}
use oarlock.Steps.Registry.{TypeInfo, wait_callback, delay, default_registry, types}
use oarlock.Engine.TaskLog.{Record, max_task_logs, handle, task_logger}
use oarlock.Engine.TaskLog.Cap.{handle_all, stored_by, stored_by-bound}
use oarlock.Engine.Work.{
  Secrets, available, Fault, produced, Executor, Next, over, begin_work, end_work,
}
use oarlock.Engine.Work.Ends.{end_work-ends}
use oarlock.Tests.Runs.{takes_all, db_advanced, fetch_row, fetch_ref}

abbrev vault : ℕ → Secrets
vault workspace = available ((codes "token", codes "s3cr3t!") ∷ [])

abbrev echo : Executor
echo config context = produced context

abbrev registry : Text → Option Executor
registry type = if text_eq type (codes "http.request") then some echo else none

abbrev unexplained : Fault → Text
unexplained f = codes "failed"

abbrev no_columns : Option Text → Value
no_columns column = null

abbrev machine : Text → Value → JsResult
machine script context = value (str script)

abbrev begun : Result (Db × Next)
begun = begin_work vault registry unexplained no_columns machine takes_all 1 60 db_advanced

abbrev begun_db : Result (Db × Next) → Db
begun_db (ok (db, n)) = db
begun_db (Result.err e) = db_advanced

abbrev begun_next : Result (Db × Next) → Next
begun_next (ok (db, n)) = n
begun_next (Result.err e) = over

-- The attempt, as it stands once it is claimed.
abbrev running_row : Task
running_row = record (fetch_row TaskStatus.running) { started_at = some 60 }

abbrev db_running : Db
db_running = record db_advanced { tasks = running_row ∷ [] }

abbrev ended : Result Db
ended = end_work takes_all fetch_ref (produced null) [] [] 70 db_running

abbrev ended_db : Result Db → Db
ended_db (ok db) = db
ended_db (Result.err e) = db_advanced

ended_ok : ended ≡ ok (ended_db ended)
unfolding end_work
ended_ok = refl

end_work-ends_example :
    ((u : Task) × Memᴰ u (ended_db ended).tasks
      × (u.id ≡ 1)
      × (u.status ≡ TaskStatus.succeeded)
      × (u.output ≡ some (marshal null)))
    × Memᴰ (advance_run 0) (ended_db ended).jobs
end_work-ends_example =
    end_work-ends takes_all fetch_ref running_row (produced null) [] [] 70 db_running
      (ended_db ended) (Memᴰ.head refl) (refl, refl, refl, refl) refl ended_ok

redact_test :
    redact
      (some (new_redactor (codes "s3cr3t!" ∷ codes "abc" ∷ [])))
      (codes "key s3cr3t!s3cr3t! abc")
    ≡ codes "key [redacted][redacted] abc"
unfolding redact new_redactor text_eq escape is_prefix
redact_test = refl

redact-clean_example :
    occurs
      (codes "s3cr3t!")
      (redact (some (new_redactor (codes "s3cr3t!" ∷ []))) (codes "key s3cr3t!"))
    ≡ false
unfolding occurs bracket_free is_prefix
redact-clean_example =
    redact-clean (codes "s3cr3t!" ∷ []) (codes "s3cr3t!") (codes "key s3cr3t!") (Memᴰ.head refl)
      (omega arith) refl refl

pieces_test : pieces_from 0 (codes "a{{ x }}}") ≡ plain 97 ∷ expr (codes " x ") ∷ plain 125 ∷ []
unfolding pieces_from is_prefix
pieces_test = refl

trim_test : trim_space (codes " \tx y \n") ≡ codes "x y"
unfolding trim_space is_prefix
trim_test = refl

abbrev types_of : List (TypeInfo × ℕ)
types_of = (wait_callback, 7) ∷ (delay, 6) ∷ []

default_test :
    map (λ (i : TypeInfo). i.type) (types (default_registry (λ i. i.label)))
    ≡ codes "ai.prompt"
      ∷ codes "mcp.tool"
      ∷ codes "http.request"
      ∷ codes "transform"
      ∷ codes "code.js"
      ∷ codes "delay"
      ∷ codes "wait.callback"
      ∷ []
unfolding default_registry
default_test = refl

abbrev lines : List Record
lines =
    record {
      level = 0;
      message = codes "task started";
      attrs = field (codes "type") (str (codes "delay")) end;
    }
    ∷ []

log_test :
    (handle_all lines (task_logger (λ s. s))).rows
    ≡ record {
      level = 0;
      message = codes "task started";
      fields = some (codes "{\"type\":\"delay\"}");
    }
      ∷ []
unfolding handle text_eq escape marshal
log_test = refl

few_lines : (rs : List Record) → Memᴰ rs (lines ∷ lines ∷ []) → length rs ≤ 2 ^ 40
few_lines rs (Memᴰ.head e) = omega (arith, ap length e)
few_lines rs (Memᴰ.tail (Memᴰ.head e)) = omega (arith, ap length e)
few_lines rs (Memᴰ.tail (Memᴰ.tail m)) = elim m [ ]

stored_by-bound_example : stored_by (λ s. s) (lines ∷ lines ∷ []) ≤ 2 * (max_task_logs + 45)
stored_by-bound_example = stored_by-bound (λ s. s) (lines ∷ lines ∷ []) few_lines
