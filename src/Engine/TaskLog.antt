-- ===== src/Engine/TaskLog.antt =====
-- engine/internal/engine/dblog.go: the log lines of a task, and their caps.
pub mod Cap
use oarlock.Prelude.{
  ℕ, ◌+◌, ◌%◌, ◌^◌, ◌≡◌, Text, codes, Bool, true, false, ◌&&◌, Option, none, some, List, [], ◌∷◌,
  ◌++◌, ltb, if◌then◌else◌, length, take,
}
use oarlock.Json.{Value, str, obj, Fields, end, field, put_all, marshal}

abbrev pub max_log_line : ℕ
max_log_line = 8192

abbrev pub max_task_logs : ℕ
max_task_logs = 1_048_576

-- A row of `task_logs`, apart from the ids.
pub record LogRow : Type 0 where
  pub level : ℕ
  pub message : Text
  pub fields : Option Text

-- A record that is logged, of a level from Info on: `Enabled` has let it pass.
pub record Record : Type 0 where
  pub level : ℕ
  pub message : Text
  pub attrs : Fields

-- The handler's state, with the rows that it has inserted. `written` holds the bits of an `int64`.
pub record TaskLog : Type 0 where
  pub redact : Text → Text
  pub attrs : Fields
  pub written : ℕ
  pub capped : Bool
  pub rows : List LogRow

-- The ellipsis is three bytes.
abbrev pub truncated_mark : Text
truncated_mark = 226 ∷ 128 ∷ 166 ∷ codes "(truncated)"

unfoldable pub log_message : (Text → Text) → Text → Text
log_message redact message =
    let msg = redact message in
    if ltb max_log_line (length msg) then take max_log_line msg ++ truncated_mark else msg

abbrev truncated_fields : Text
truncated_fields = codes "{\"truncated\":\"fields exceeded 8KB\"}"

abbrev pub capped_fields : Text → Text
capped_fields json = if ltb max_log_line (length json) then truncated_fields else json

unfoldable pub log_fields : (Text → Text) → Fields → Option Text
log_fields redact end = none
log_fields redact (field k v fs) = some (capped_fields (redact (marshal (obj (field k v fs)))))

abbrev pub field_bytes : Option Text → ℕ
field_bytes none = 0
field_bytes (some json) = length json

-- `h.written.Add`.
abbrev pub add_int64 : ℕ → ℕ → ℕ
add_int64 a b = (a + b) % 2 ^ 64

-- `total > maxTaskLogs`, of a total that is negative where its highest bit is set.
abbrev pub exceeds : ℕ → Bool
exceeds total = ltb total (2 ^ 63) && ltb max_task_logs total

abbrev pub cap_row : LogRow
cap_row = record {
  level = 4;
  message = codes "log cap reached (~1MB); further lines dropped";
  fields = none;
}

-- The insert of a row is taken to succeed; one that fails is lost.
unfoldable pub write_row : LogRow → TaskLog → TaskLog
write_row row h =
    let total = add_int64 h.written (length row.message + field_bytes row.fields) in
    let counted = record h { written = total } in
    if exceeds total
    then if h.capped then counted else record counted { capped = true; rows = cap_row ∷ h.rows }
    else record counted { rows = row ∷ h.rows }

unfoldable pub handle : Record → TaskLog → TaskLog
unfolding log_message log_fields write_row put_all
handle r h =
    write_row
      (record {
        level = r.level;
        message = log_message h.redact r.message;
        fields = log_fields h.redact (put_all r.attrs h.attrs);
      })
      h

-- A new handler. `Work`, `suspendTask` and `finishTask` make one each, with counters of its own.
abbrev pub task_logger : (Text → Text) → TaskLog
task_logger redact = record { redact = redact; attrs = end; written = 0; capped = false; rows = [] }
