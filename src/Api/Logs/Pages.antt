-- ===== src/Api/Logs/Pages.antt =====
-- The pages that a client reads by the cursor cover the log of a run.
use oarlock.Prelude.{
  select, select-Mem, ℕ, zero, suc, ◌≡◌, ◌≤◌, ◌<◌, refl, inl, inr, sym, ap, ◌∙◌, Text, Bool, ◌&&◌,
  Option, none, some, List, [], ◌∷◌, ◌++◌, arith, length, take, drop, Option-cases,
}
use oarlock.Prelude.Int.{ℤ, pos, negsuc}
use oarlock.Api.Http.{clamp, clamp_limit}
use oarlock.Api.Logs.{LogLine, of_run, older, query_logs}
use oarlock.Api.Logs.Behind.{
  IsDescending, last, select-IsDescending, select-select, select-and, last-Mem, last-none, behind,
  behind-page, take-drop, length-drop_lt, behind-older, take-pos, select-all,
}

-- A client that reads pages until an empty one comes, each before the last line of the one before it;
-- `none` stands for fuel that runs out.
unfoldable pub all_pages : ℕ → ℕ → ℕ → ℕ → Option ℤ → List LogLine → Option (List LogLine)
unfolding query_logs last
all_pages zero run workspace limit before rows = none
all_pages (suc fuel) run workspace limit before rows =
    let page = query_logs run workspace limit before rows in
    elim (last page) [
      | none ↦ some []
      | some l ↦ elim (all_pages fuel run workspace limit (some (pos l.id)) rows) [
        | none ↦ none
        | some rest ↦ some (page ++ rest)
      ]
    ]

clamp-pos : (n : ℤ) → 1 ≤ clamp n 500 2000
clamp-pos (pos n) = ground arith
clamp-pos (negsuc k) = omega arith

clamp_limit-pos : (atoi : Text → Option ℤ) (raw : Text) → 1 ≤ clamp_limit atoi raw 500 2000
unfolding clamp_limit
clamp_limit-pos atoi raw = elim (Option-cases (atoi raw)) [
  | inl e ↦ rw (e, clamp_limit) (omega arith)
  | inr (n, e) ↦ rw (e, clamp_limit) (clamp-pos n)
]

module _ (run workspace limit : ℕ) (positive : 1 ≤ limit) (rows : List LogLine)
    (d : IsDescending rows) where
  abbrev lines : Option ℤ → List LogLine
  lines before = select (λ l. of_run run workspace l && older before l) rows

  lines-behind :
      (before : Option ℤ) {l : LogLine}
      → last (take limit (lines before)) ≡ some l
      → lines (some (pos l.id)) ≡ drop limit (lines before)
  lines-behind before {l} h =
      let all = select (of_run run workspace) rows in
      let split = select-and (of_run run workspace) (older before) rows in
      let page : last (take limit (select (older before) all)) ≡ some l = rw split at h in
      let old =
        (select-Mem (older before) all (last-Mem limit (select (older before) all) page)).1 in
      select-and (of_run run workspace) (behind l) rows
      ∙ sym (select-select (older before) (behind l) all (λ m. behind-older before l m old))
      ∙ behind-page limit (select (older before) all)
          (select-IsDescending (older before) all
            (select-IsDescending (of_run run workspace) rows d))
          page
      ∙ ap (λ (ls : List LogLine). drop limit ls) (sym split)

  -- With fuel for each line that is older than the cursor, the pages are those lines.
  all_pages-lines :
      (fuel : ℕ) (before : Option ℤ)
      → length (lines before) < fuel
      → all_pages fuel run workspace limit before rows ≡ some (lines before)
  unfolding all_pages query_logs
  all_pages-lines zero before enough = absurd (ground arith)
  all_pages-lines (suc fuel) before enough =
      elim (Option-cases (last (take limit (lines before)))) [
        | inl e ↦
            let none' = take-pos limit (lines before) positive (last-none limit (lines before) e) in
            rw (e, none', all_pages)
        | inr (l, e) ↦
            let rest = lines-behind before e in
            let shorter = length-drop_lt limit (lines before) e in
            let more =
              all_pages-lines fuel (some (pos l.id))
                (omega (arith, ap (λ (ls : List LogLine). length ls) rest)) in
            rw (e, more, rest, all_pages)
              (ap (λ (ls : List LogLine). some ls) (take-drop limit (lines before)))
      ]

select-length : (p : LogLine → Bool) (ls : List LogLine) → length (select p ls) ≤ length ls
select-length p [] = omega arith
select-length p (x ∷ xs) = ground (arith, select-length p xs)

-- Where the rows stand in the order of their ids, a client that reads the log of a run by pages of any
-- limit, each before the last line of the one before it, reads with one more page than there are rows
-- each line of the run once, the newest first, and then an empty page.
pub all_pages-whole :
    (atoi : Text → Option ℤ) (raw : Text) (run workspace : ℕ) (rows : List LogLine)
    → IsDescending rows
    → all_pages (suc (length rows)) run workspace (clamp_limit atoi raw 500 2000) none rows
      ≡ some (select (of_run run workspace) rows)
unfolding older
all_pages-whole atoi raw run workspace rows d =
    let limit = clamp_limit atoi raw 500 2000 in
    let test = λ (l : LogLine). of_run run workspace l && older none l in
    all_pages-lines run workspace limit (clamp_limit-pos atoi raw) rows d (suc (length rows)) none
      (omega (arith, select-length test rows))
    ∙ ap (λ (ls : List LogLine). some ls)
        (select-and (of_run run workspace) (older none) rows
          ∙ select-all (older none) (select (of_run run workspace) rows) (λ l m. refl))
