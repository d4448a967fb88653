-- ===== src/Engine/TaskLog/Cap.antt =====
-- What a task stores in the log is bounded.
use oarlock.Prelude.{
  ℕ, Memᴰ, refl, suc, ◌+◌, ◌*◌, ◌^◌, ◌≤◌, ◌<◌, ◌≡◌, Text, Bool, true, false, List, [], ◌∷◌, arith,
  ltb, length, length-append, length-take_le, take, ap, Bool-cases, inl, inr,
}
use oarlock.Json.{Fields, end, field, put_all}
use oarlock.Engine.TaskLog.{
  LogRow, Record, TaskLog, max_log_line, max_task_logs, truncated_mark, log_message, log_fields,
  field_bytes, cap_row, write_row, handle, task_logger, exceeds, add_int64,
}

abbrev row_bytes : LogRow → ℕ
row_bytes row = length row.message + field_bytes row.fields

-- The bytes of the rows.
abbrev pub stored : List LogRow → ℕ
stored [] = 0
stored (row ∷ rows) = row_bytes row + stored rows

abbrev pub handle_all : List Record → TaskLog → TaskLog
handle_all [] h = h
handle_all (r ∷ rs) h = handle_all rs (handle r h)

-- What the row about the cap adds.
abbrev extra : Bool → ℕ
extra true = row_bytes cap_row
extra false = 0

extra-le : (c : Bool) → extra c ≤ 45
extra-le true = omega arith
extra-le false = omega arith

-- After a number of lines.
record Capped (lines : ℕ) (h : TaskLog) : Type 0 where
  few : h.written ≤ lines * 16_400
  counted : stored h.rows ≤ extra h.capped + h.written
  bounded : stored h.rows ≤ extra h.capped + max_task_logs

log_message-le : (redact : Text → Text) (m : Text) → length (log_message redact m) ≤ 8206
unfolding log_message
log_message-le redact m = elim (Bool-cases (ltb max_log_line (length (redact m)))) [
  | inl e ↦
      let cut = length-take_le max_log_line (redact m) in
      let sum = length-append (take max_log_line (redact m)) truncated_mark in
      rw e (omega (arith, cut, sum))
  | inr e ↦ rw e (ground arith)
]

log_fields-le : (redact : Text → Text) (fs : Fields) → field_bytes (log_fields redact fs) ≤ 8192
unfolding log_fields
log_fields-le redact end = omega arith
log_fields-le redact (field k v fs) = ground arith

-- The counter does not wrap around.
no_wrap : (a b lines : ℕ) → lines < 2 ^ 40 → a ≤ lines * 16_400 → b ≤ 16_400 → add_int64 a b ≡ a + b
no_wrap a b lines few ha hb = omega arith

drops : (total : ℕ) → total < 2 ^ 63 → exceeds total ≡ false → total ≤ max_task_logs
drops total h e = ground arith

write_row-Capped :
    (lines : ℕ) (row : LogRow) (h : TaskLog)
    → lines < 2 ^ 40
    → row_bytes row ≤ 16_400
    → Capped lines h
    → Capped (suc lines) (write_row row h)
unfolding write_row
write_row-Capped lines row h few small c =
    let total = no_wrap h.written (row_bytes row) lines few c.few small in
    let f = c.few in
    let n = c.counted in
    let b = c.bounded in
    elim (Bool-cases (exceeds (h.written + row_bytes row))) [
      | inr e ↦
          let fits = drops (h.written + row_bytes row) (omega arith) e in
          rw (total, e, write_row)
            (record { few = omega arith; counted = omega arith; bounded = omega arith })
      | inl e ↦ elim (Bool-cases h.capped) [
        | inl k ↦
            rw (total, e, k, write_row)
              (record {
                few = omega arith;
                counted = omega (arith, ap extra k);
                bounded = omega (arith, ap extra k);
              })
        | inr k ↦
            rw (total, e, k, write_row)
              (record {
                few = omega arith;
                counted = omega (arith, ap extra k);
                bounded = omega (arith, ap extra k);
              })
      ]
    ]

handle-Capped :
    (lines : ℕ) (r : Record) (h : TaskLog)
    → lines < 2 ^ 40
    → Capped lines h
    → Capped (suc lines) (handle r h)
unfolding handle
handle-Capped lines r h few c =
    let m = log_message-le h.redact r.message in
    let f = log_fields-le h.redact (put_all r.attrs h.attrs) in
    write_row-Capped lines _ h few (omega arith) c

handle_all-Capped :
    (lines : ℕ) (rs : List Record) (h : TaskLog)
    → lines + length rs ≤ 2 ^ 40
    → Capped lines h
    → (n : ℕ) × Capped n (handle_all rs h)
handle_all-Capped lines [] h few c = (lines, c)
handle_all-Capped lines (r ∷ rs) h few c =
    handle_all-Capped (suc lines) rs (handle r h) (omega arith)
      (handle-Capped lines r h (omega arith) c)

-- However one handler is logged to, in up to 2 ^ 40 lines of any length: its rows hold at most a
-- mebibyte, and the 45 bytes of the row that says that the cap is reached.
handle_all-stored :
    (redact : Text → Text) (rs : List Record)
    → length rs ≤ 2 ^ 40
    → stored (handle_all rs (task_logger redact)).rows ≤ max_task_logs + 45
handle_all-stored redact rs few =
    let start : Capped 0 (task_logger redact) = record {
      few = omega arith;
      counted = omega arith;
      bounded = omega arith;
    } in
    let (n, c) = handle_all-Capped 0 rs (task_logger redact) (omega arith) start in
    let b = c.bounded in let e = extra-le (handle_all rs (task_logger redact)).capped in omega arith

-- The bytes that the handlers of a task store, each of which counts for itself.
abbrev pub stored_by : (Text → Text) → List (List Record) → ℕ
stored_by redact [] = 0
stored_by redact (rs ∷ rss) =
    stored (handle_all rs (task_logger redact)).rows + stored_by redact rss

-- However a task logs, to as many handlers as `Work`, `suspendTask` and `finishTask` make for it, and
-- up to 2 ^ 40 lines of any length to each: for each handler the rows hold at most a mebibyte, and the
-- 45 bytes of the row that says that the cap is reached.
pub stored_by-bound :
    (redact : Text → Text) (rss : List (List Record))
    → ((rs : List Record) → Memᴰ rs rss → length rs ≤ 2 ^ 40)
    → stored_by redact rss ≤ length rss * (max_task_logs + 45)
stored_by-bound redact [] few = omega arith
stored_by-bound redact (rs ∷ rss) few =
    let one = handle_all-stored redact rs (few rs (Memᴰ.head refl)) in
    let rest = stored_by-bound redact rss (λ x m. few x (Memᴰ.tail m)) in omega (arith, one, rest)
