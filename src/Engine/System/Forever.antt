-- ===== src/Engine/System/Forever.antt =====
-- What becomes of a finished attempt, whatever transactions run and whatever workflows are deleted.
use oarlock.Prelude.{
  ℕ, ◌≤◌, ◌<◌, ◌≡◌, refl, sym, ap, ◌∙◌, ◌⊎◌, inl, inr, Text, Bool, false, List, Memᴰ, arith,
  Bool-cases, if◌then◌else◌, ==_iff,
}
use oarlock.Prelude.Tables.{delete, any_row, update-from, any_row-none, any_row-false}
use oarlock.Prelude.Keys.{delete-away, delete-kept}
use oarlock.Engine.Store.{Task, Db, is_live, task_by_id}
use oarlock.Engine.Ledger.{Allowed, Moves, stay, change, draw, insert, IsSound}
use oarlock.Engine.Ledger.Keeps.{Moves-finished, Apart-at}
use oarlock.Engine.System.{
  Transition, Reaches, Evolves, begin, moves, deletes, cascade, run_of, any_workflow, empty_db,
}
use oarlock.Engine.System.History.{Transition-Moves, Reaches-Moves}
use oarlock.Engine.System.Deletes.{delete-from, Evolves-IsSound, Reaches-Evolves, Evolves-trans}

Moves-le : {n : ℕ} {ts : List Task} {m : ℕ} {us : List Task} → Moves n ts m us → n ≤ m
Moves-le stay = omega arith
Moves-le (change p f allowed m) = Moves-le m
Moves-le (draw m) = let le = Moves-le m in omega (arith, le)
Moves-le (insert t e room m) = let le = Moves-le m in omega (arith, le)

Allowed-id :
    (p : Task → Bool) (f : Task → Task) (b : Task)
    → Allowed p f
    → (if p b then f b else b).id ≡ b.id
Allowed-id p f b allowed = elim (Bool-cases (p b)) [
  | inl e ↦ rw e (allowed b e).1
  | inr e ↦ rw e refl
]

-- The id of a row is the one of an earlier row, or was drawn meanwhile.
Moves-from :
    {n : ℕ} {ts : List Task} {m : ℕ} {us : List Task}
    → Moves n ts m us
    → (u : Task) → Memᴰ u us
    → ((t : Task) × Memᴰ t ts × (t.id ≡ u.id)) ⊎ (n ≤ u.id)
Moves-from stay u k = inl (u, k, refl)
Moves-from (change {us = us} p f allowed m) u k =
    let (b, k', e) = update-from p f us k in
    let same : u.id ≡ b.id = ap (λ (x : Task). x.id) e ∙ Allowed-id p f b allowed in
    elim (Moves-from m b k') [
      | inl (t, k'', q) ↦ inl (t, k'', q ∙ sym same)
      | inr le ↦ inr (omega (arith, le, same))
    ]
Moves-from (draw m) u k = Moves-from m u k
Moves-from (insert t e room m) u (Memᴰ.head q) =
    let le = Moves-le m in inr (omega (arith, le, e, ap (λ (x : Task). x.id) q))
Moves-from (insert t e room m) u (Memᴰ.tail k) = Moves-from m u k

-- The row stands in the table, or no row has its id.
abbrev pub IsKept : Task → Db → Type 0
IsKept t db = Memᴰ t db.tasks ⊎ (any_row (task_by_id t.id) db.tasks ≡ false)

module _ (t : Task) (over : is_live t.status ≡ false) where
  Transition-IsKept :
      {uuid : ℕ → Text} {db db' : Db}
      → Transition uuid db db'
      → IsSound db.next_id db.tasks
      → t.id < db.next_id
      → IsKept t db
      → IsKept t db' × (t.id < db'.next_id)
  Transition-IsKept {db = db} {db' = db'} step sound low kept =
      let m = Transition-Moves step sound in
      let le = Moves-le m in
      (
        elim kept [
          | inl k ↦ inl (Moves-finished m t over k)
          | inr gone ↦ inr (
              any_row-none (task_by_id t.id) db'.tasks (λ u k.
                elim (Bool-cases (task_by_id t.id u)) [
                  | inr e ↦ e
                  | inl e ↦ elim (Moves-from m u k) [
                    | inl (x, k', same) ↦
                        let out = any_row-false (task_by_id t.id) db.tasks gone k' in
                        absurd (ground (arith, same, out))
                    | inr drawn ↦ absurd (ground (arith, drawn))
                  ]
                ]))
        ],
        omega (arith, le),
      )

  cascade-IsKept :
      (workflow : ℕ) (db : Db)
      → IsSound db.next_id db.tasks
      → IsKept t db
      → IsKept t (cascade workflow db)
  unfolding cascade
  cascade-IsKept workflow db sound kept =
      let c = run_of workflow db.runs in
      elim kept [
        | inr gone ↦ inr (
            any_row-none (task_by_id t.id) (delete (λ x. c x.run) db.tasks)
              (λ u k. any_row-false (task_by_id t.id) db.tasks gone (delete-from c db.tasks k)))
        | inl k ↦ elim (Bool-cases (c t.run)) [
          | inr e ↦ inl (delete-kept (λ (x : Task). c x.run) db.tasks k e)
          | inl e ↦ inr (
              any_row-none (task_by_id t.id) (delete (λ x. c x.run) db.tasks) (λ u k'.
                elim (Apart-at db.tasks sound.apart k (delete-from c db.tasks k')) [
                  | inl same ↦
                      let away = delete-away (λ (x : Task). c x.run) db.tasks k' in
                      absurd (ground (arith, e, away, ap (λ (x : Task). c x.run) same))
                  | inr apart ↦ elim (Bool-cases (task_by_id t.id u)) [
                    | inr q ↦ q
                    | inl q ↦ absurd (apart.ids (sym ((==_iff u.id t.id).0 q)))
                  ]
                ]))
        ]
      ]

  Evolves-IsKept :
      {uuid : ℕ → Text} {db db' : Db}
      → Evolves uuid any_workflow empty_db db
      → Evolves uuid any_workflow db db'
      → t.id < db.next_id
      → IsKept t db
      → IsKept t db' × (t.id < db'.next_id)
  unfolding cascade
  Evolves-IsKept before begin low kept = (kept, low)
  Evolves-IsKept {uuid} before (moves {mid} r step) low kept =
      let (kept', low') = Evolves-IsKept before r low kept in
      Transition-IsKept step (Evolves-IsSound uuid any_workflow mid (Evolves-trans before r)) low'
        kept'
  Evolves-IsKept {uuid} before (deletes {mid} w ws vs ts free r) low kept =
      let (kept', low') = Evolves-IsKept before r low kept in
      (
        cascade-IsKept w (record mid { workflows = ws; versions = vs; triggers = ts })
            (Evolves-IsSound uuid any_workflow mid (Evolves-trans before r)) kept',
        low',
      )

-- From any state that has come of the empty database on, an attempt that has succeeded, failed, been
-- skipped or been canceled stays in the table as it is, whatever transactions run, as long as no
-- workflow is deleted. Whatever workflows are deleted later, it still stands there as it was, or no
-- attempt has its id any more.
pub finished-forever :
    (uuid : ℕ → Text) (db mid db' : Db)
    → Evolves uuid any_workflow empty_db db
    → Reaches uuid db mid
    → Evolves uuid any_workflow mid db'
    → (t : Task) → is_live t.status ≡ false
    → Memᴰ t db.tasks
    → Memᴰ t mid.tasks × (Memᴰ t db'.tasks ⊎ (any_row (task_by_id t.id) db'.tasks ≡ false))
finished-forever uuid db mid db' before r later t over m =
    let sound = Evolves-IsSound uuid any_workflow db before in
    let stays = Moves-finished (Reaches-Moves r sound) t over m in
    let at = Evolves-trans before (Reaches-Evolves r) in
    let sound' = Evolves-IsSound uuid any_workflow mid at in
    (stays, (Evolves-IsKept t over at later (sound'.below t stays) (inl stays)).0)
