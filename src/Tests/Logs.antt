-- ===== src/Tests/Logs.antt =====
-- The log of a run.
use oarlock.Prelude.{
  select, ℕ, ◌≡◌, ◌<◌, refl, Text, codes, Option, none, some, List, [], ◌∷◌, Memᴰ, arith,
}
use oarlock.Prelude.Int.{ℤ, pos}
use oarlock.Api.Http.{reply, clamp_limit}
use oarlock.Api.Logs.{LogLine, of_run, run_logs, run_logs_download}
use oarlock.Api.Logs.Behind.{IsDescending}
use oarlock.Api.Logs.Pages.{all_pages, all_pages-whole}

abbrev line : ℕ → ℕ → LogLine
line id run = record {
  id = id;
  workspace = 7;
  run = run;
  task = 1;
  step_key = codes "a";
  ts = codes "12:00";
  level = 4;
  message = codes "m";
  fields = none;
}

abbrev rows : List LogLine
rows = line 9 3 ∷ line 6 4 ∷ line 5 3 ∷ []

rows-IsDescending : IsDescending rows
rows-IsDescending =
    IsDescending.cons below_9
      (IsDescending.cons below_6 (IsDescending.cons (λ m n. elim n [ ]) IsDescending.nil))
  where
    below_6 : (m : LogLine) → Memᴰ m (line 5 3 ∷ []) → m.id < 6
    below_6 m (Memᴰ.head e) = rw e (omega arith)
    below_6 m (Memᴰ.tail n) = elim n [ ]

    below_9 : (m : LogLine) → Memᴰ m (line 6 4 ∷ line 5 3 ∷ []) → m.id < 9
    below_9 m (Memᴰ.head e) = rw e (omega arith)
    below_9 m (Memᴰ.tail n) = omega (arith, below_6 m n)

abbrev one : Text → Option ℤ
one raw = some (pos 1)

all_pages-whole_example :
    all_pages 4 3 7 (clamp_limit one (codes "1") 500 2000) none rows
    ≡ some (select (of_run 3 7) rows)
all_pages-whole_example = all_pages-whole one (codes "1") 3 7 rows rows-IsDescending

-- The second page.
page_test :
    run_logs one (λ t. some (pos 9)) 7 (some 3) (codes "1") (codes "9") rows
    ≡ reply 200 (line 5 3 ∷ [])
unfolding run_logs
page_test = refl

download_test : run_logs_download 7 (some 4) rows ≡ reply 200 (codes "12:00 WARN  [a] m\n")
unfolding run_logs_download
download_test = refl
