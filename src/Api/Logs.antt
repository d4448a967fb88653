-- ===== src/Api/Logs.antt =====
-- engine/internal/api/api.go: the pages of a run's log, and its download.
pub mod Behind
pub mod Pages
use oarlock.Prelude.{
  select, ℕ, Text, text_eq, codes, Bool, true, false, ◌&&◌, ◌||◌, Option, none, some, List, [], ◌∷◌,
  ◌++◌, leb, ltb, ◌==◌, if◌then◌else◌, take,
}
use oarlock.Prelude.Int.{ℤ, pos, negsuc}
use oarlock.Api.Http.{Reply, reply, error, said, clamp_limit}

-- A row of `task_logs`. The rows stand with the newest first, which is the order of their ids.
pub record LogLine : Type 0 where
  pub id : ℕ
  pub workspace : ℕ
  pub run : ℕ
  pub task : ℕ
  pub step_key : Text
  pub ts : Text
  pub level : ℕ
  pub message : Text
  pub fields : Option Text

abbrev invalid_run : {A : Type 0} → Reply A
invalid_run = error 400 (said (codes "invalid run id"))

-- `run_id = $1 and workspace_id = $2`.
unfoldable pub of_run : ℕ → ℕ → LogLine → Bool
of_run run workspace l = l.run == run && l.workspace == workspace

-- `$4::bigint is null or id < $4`.
unfoldable pub older : Option ℤ → LogLine → Bool
older none l = true
older (some (pos n)) l = ltb l.id n
older (some (negsuc n)) l = false

unfoldable pub query_logs : ℕ → ℕ → ℕ → Option ℤ → List LogLine → List LogLine
unfolding of_run older
query_logs run workspace limit before rows =
    take limit (select (λ l. of_run run workspace l && older before l) rows)

-- `parse_int` is `strconv.ParseInt`, in base 10 and 64 bits; `none` is its error.
module _ (atoi parse_int : Text → Option ℤ) where
  unfoldable pub run_logs : ℕ → Option ℕ → Text → Text → List LogLine → Reply (List LogLine)
  unfolding query_logs clamp_limit text_eq
  run_logs workspace none limit before rows = invalid_run
  run_logs workspace (some run) limit before rows =
      let lines = query_logs run workspace (clamp_limit atoi limit 500 2000) in
      if text_eq before [] then reply 200 (lines none rows) else elim (parse_int before) [
        | none ↦ error 400 (said (codes "invalid before_id cursor"))
        | some n ↦ reply 200 (lines (some n) rows)
      ]

-- The name of a level, filled to five bytes.
unfoldable pub level_name : ℕ → Text
level_name l = if leb 8 l then codes "ERROR" else if leb 4 l then codes "WARN " else codes "INFO "

unfoldable pub log_text : LogLine → Text
unfolding level_name text_eq
log_text l =
    let line =
      l.ts ++ b' ' ∷ (level_name l.level ++ codes " [" ++ l.step_key ++ codes "] " ++ l.message) in
    elim l.fields [
      | none ↦ line
      | some fields ↦
          if text_eq fields [] || text_eq fields (codes "null") then line else line ++ b' ' ∷ fields
    ]

-- The lines of the rows from the oldest on.
unfoldable pub log_lines : List LogLine → Text
unfolding log_text
log_lines [] = []
log_lines (l ∷ ls) = log_lines ls ++ log_text l ++ 10 ∷ []

unfoldable pub run_logs_download : ℕ → Option ℕ → List LogLine → Reply Text
unfolding log_lines of_run
run_logs_download workspace none rows = invalid_run
run_logs_download workspace (some run) rows =
    reply 200 (log_lines (select (of_run run workspace) rows))
