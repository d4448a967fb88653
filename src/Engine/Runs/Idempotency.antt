-- ===== src/Engine/Runs/Idempotency.antt =====
-- Starting a run with an idempotency key: a repeated start finds the run of the first.
use oarlock.Prelude.{
  ℕ, ◌≡◌, ◌≢◌, refl, sym, ap, Text, text_eq_iff, text_eq_refl, false, some, [], ◌∷◌, ◌++◌, codes,
  arith, length,
}
use oarlock.Prelude.Tables.{find}
use oarlock.Engine.Store.{Workflow, Run, Db, ok}
use oarlock.Engine.Runs.{
  RunOpts, Started, start_run_opts, deployed, keyed, scoped_key, replay, insert_run, new_run,
}
use oarlock.Engine.Runs.Start.{StartedBy, plain, fresh, replayed}

-- After a start with a key, the run that has the key is the one that the start returned, and the
-- workflows are as they were.
pub record Held (uuid : ℕ → Text) (workspace workflow : ℕ) (key : Text) (db : Db) (s : Started)
    : Type 0 where
  pub row : Run
  pub found : find (keyed workspace (scoped_key uuid workflow key)) s.db.runs ≡ some row
  pub same_workflow : row.workflow ≡ workflow
  pub same_run : row.id ≡ s.run
  pub same_workflows : s.db.workflows ≡ db.workflows

pub started-Held :
    (uuid : ℕ → Text) (workspace workflow : ℕ) (input : Text) (opts : RunOpts) (db : Db)
    (s : Started)
    → StartedBy uuid workspace workflow input opts db s
    → opts.idempotency_key ≢ []
    → Held uuid workspace workflow opts.idempotency_key db s
unfolding insert_run new_run find keyed
started-Held uuid workspace workflow input opts db s (plain v unkeyed q) asked =
    absurd (asked unkeyed)
started-Held uuid workspace workflow input opts db s (fresh v none' q) asked =
    let key = scoped_key uuid workflow opts.idempotency_key in
    let r = new_run db.next_id workspace workflow v input opts.trigger_id (some key) in
    record {
      row = r;
      found = rw q (ground (arith, text_eq_refl key));
      same_workflow = refl;
      same_run = sym (ap (λ (x : Started). x.run) q);
      same_workflows = ap (λ (x : Started). x.db.workflows) q;
    }
started-Held uuid workspace workflow input opts db s (replayed r found same q) asked = record {
  row = r;
  found = rw q found;
  same_workflow = same;
  same_run = sym (ap (λ (x : Started). x.run) q);
  same_workflows = ap (λ (x : Started). x.db.workflows) q;
}

-- A start with a key that a run of the workflow has returns that run.
pub start_run_opts-replays :
    (uuid : ℕ → Text) (workspace workflow : ℕ) (input : Text) (opts : RunOpts) (db : Db)
    (w : Workflow) (version : ℕ) (r : Run)
    → opts.idempotency_key ≢ []
    → find (deployed workflow workspace) db.workflows ≡ some w
    → w.current_version ≡ some version
    → find (keyed workspace (scoped_key uuid workflow opts.idempotency_key)) db.runs ≡ some r
    → r.workflow ≡ workflow
    → start_run_opts uuid workspace workflow input opts db
      ≡ ok (record { run = r.id; created = false; db = db })
unfolding start_run_opts replay
start_run_opts-replays uuid workspace workflow input opts db w version r asked q q' found same =
    ground (arith, text_eq_iff opts.idempotency_key [])

prefix-eq : (a b c d : Text) → length a ≡ length b → a ++ c ≡ b ++ d → a ≡ b
prefix-eq [] [] c d l e = refl
prefix-eq [] (y ∷ b) c d l e = absurd (omega arith)
prefix-eq (x ∷ a) [] c d l e = absurd (omega arith)
prefix-eq (x ∷ a) (y ∷ b) c d l e =
    let heads : x ≡ y = cc in
    let tails : a ++ c ≡ b ++ d = cc in let ih : a ≡ b = prefix-eq a b c d (omega arith) tails in cc

-- Where the texts of UUIDs have one length and two UUIDs have two texts, the scoped keys of two
-- workflows differ, whatever keys the callers chose.
pub scoped_key-workflow :
    (uuid : ℕ → Text)
    → ((a b : ℕ) → length (uuid a) ≡ length (uuid b))
    → ((a b : ℕ) → uuid a ≡ uuid b → a ≡ b)
    → (w w' : ℕ) (key key' : Text) → scoped_key uuid w key ≡ scoped_key uuid w' key'
    → w ≡ w'
unfolding scoped_key
scoped_key-workflow uuid len inj w w' key key' e =
    inj w w' (prefix-eq (uuid w) (uuid w') (codes ":" ++ key) (codes ":" ++ key') (len w w') e)
