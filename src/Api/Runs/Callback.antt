-- ===== src/Api/Runs/Callback.antt =====
-- A resume token works once.
use oarlock.Prelude.{
  ℕ, ◌≡◌, ◌≤◌, ap, subst, inl, inr, Text, text_eq, codes, true, none, [], Memᴰ, arith, count_if,
  Bool-cases, Option-cases,
}
use oarlock.Prelude.Tables.{find, delete, find-some}
use oarlock.Prelude.Keys.{single_eq, delete-away}
use oarlock.Prelude.Counts.{delete-Mem}
use oarlock.Json.{Value, obj, field, end, bool, marshal, null}
use oarlock.Engine.Store.{
  Suspension, Db, Result, ok, err, suspension_not_found, not_waiting, Result-cases, task_by_id,
}
use oarlock.Engine.Resume.{by_token, suspends, resume_suspended, resume_suspended_task, Resumed}
use oarlock.Api.Http.{Reply, reply, error, said}
use oarlock.Api.Runs.{
  Body, run_id, Payload, unread, not_json, empty, json, resume_reply, resume_with, resume_payload,
  resume,
}

-- A resume that commits has deleted the suspensions of the task.
resume_suspended-deletes :
    (task : ℕ) (output : Text) (now : ℕ) (db : Db) (r : Resumed)
    → resume_suspended task output now db ≡ ok r
    → r.db.suspensions ≡ delete (suspends task) db.suspensions
unfolding resume_suspended
resume_suspended-deletes task output now db r h =
    elim (Option-cases (find (task_by_id task) db.tasks)) [
      | inl e ↦ absurd (ground arith)
      | inr (t, e) ↦ ground arith
    ]

abbrev output_of : Value → Value
output_of payload = obj (field (codes "payload") payload (field (codes "resumed") (bool true) end))

module _ (redact : ℕ → Text → Text) (token : Text) where
  gone :
      (db d : Db) (s : Suspension)
      → count_if (by_token token) db.suspensions ≤ 1
      → Memᴰ s db.suspensions
      → by_token token s ≡ true
      → d.suspensions ≡ delete (suspends s.task) db.suspensions
      → find (by_token token) d.suspensions ≡ none
  gone db d s one m q left = elim (Option-cases (find (by_token token) d.suspensions)) [
    | inl e ↦ e
    | inr (t, e) ↦
        let (n, k) = find-some (by_token token) d.suspensions e in
        let n' = subst (λ l. Memᴰ t l) left n in
        let same =
          single_eq (by_token token) db.suspensions one (delete-Mem _ db.suspensions n') m k q in
        let away = delete-away (suspends s.task) db.suspensions n' in
        absurd (ground (arith, ap (λ (x : Suspension). x.task) same))
  ]

  -- After a resume that succeeds no suspension has the token.
  resume_suspended_task-gone :
      (payload : Value) (now : ℕ) (db db' : Db) (run : ℕ)
      → count_if (by_token token) db.suspensions ≤ 1
      → resume_suspended_task redact token payload now db ≡ (db', ok run)
      → find (by_token token) db'.suspensions ≡ none
  unfolding resume_suspended_task
  resume_suspended_task-gone payload now db db' run one h =
      elim (Option-cases (find (by_token token) db.suspensions)) [
        | inl e ↦ absurd (ground arith)
        | inr (s, e) ↦
            elim (Result-cases
              (resume_suspended s.task (redact s.workspace (marshal (output_of payload))) now db)) [
                | inr (x, f) ↦ absurd (ground arith)
                | inl (r, f) ↦
                    let (m, q) = find-some (by_token token) db.suspensions e in
                    let same : r.db ≡ db' = ground arith in
                    let left = resume_suspended-deletes s.task _ now db r f in
                    subst (λ (d : Db). find (by_token token) d.suspensions ≡ none) same
                      (gone db r.db s one m q left)
              ]
      ]

resume_suspended_task-missed :
    (redact : ℕ → Text → Text) (token : Text) (payload : Value) (now : ℕ) (db : Db)
    → find (by_token token) db.suspensions ≡ none
    → resume_suspended_task redact token payload now db ≡ (db, err suspension_not_found)
unfolding resume_suspended_task
resume_suspended_task-missed redact token payload now db h = rw (h, resume_suspended_task)

resume_reply-ok : (o : Result ℕ) (run : ℕ) → resume_reply o ≡ reply 200 (run_id run) → o ≡ ok run
unfolding error
resume_reply-ok (ok r) run h = ground arith
resume_reply-ok (err suspension_not_found) run h = absurd (ground arith)
resume_reply-ok (err not_waiting) run h = absurd (ground arith)
resume_reply-ok (err e) run h = absurd (ground arith)

module _ (hash : Text → Text) (redact : ℕ → Text → Text) (now : ℕ) (token : Text) (db db' : Db)
    (run : ℕ) (one : count_if (by_token (hash token)) db.suspensions ≤ 1) where
  resume_with-gone :
      (payload : Value)
      → resume_with hash redact now token payload db ≡ (db', reply 200 (run_id run))
      → find (by_token (hash token)) db'.suspensions ≡ none
  unfolding resume_with
  resume_with-gone payload h =
      let outcome = resume_suspended_task redact (hash token) payload now db in
      let state : outcome.0 ≡ db' = ap (λ (r : Db × Reply Body). r.0) h in
      let resumed : outcome.1 ≡ ok run =
        resume_reply-ok outcome.1 run (ap (λ (r : Db × Reply Body). r.1) h) in
      resume_suspended_task-gone redact (hash token) payload now db db' run one
        (λ i. (state i, resumed i))

  resume_payload-gone :
      (payload : Payload)
      → resume_payload hash redact now token payload db ≡ (db', reply 200 (run_id run))
      → find (by_token (hash token)) db'.suspensions ≡ none
  unfolding resume_payload error
  resume_payload-gone unread h = absurd (ground arith)
  resume_payload-gone not_json h = absurd (ground arith)
  resume_payload-gone empty h = resume_with-gone null h
  resume_payload-gone (json payload) h = resume_with-gone payload h

  -- Where resume tokens are unique, a callback that resumes a task uses its token up: every later
  -- callback with it and a JSON body is answered by 404 and changes nothing.
  pub resume-once :
      (later : ℕ) (payload : Payload) (payload' : Value)
      → resume hash redact now token payload db ≡ (db', reply 200 (run_id run))
      → resume hash redact later token (json payload') db'
        ≡ (db', error 404 (said (codes "not found")))
  unfolding resume error resume_payload resume_with
  resume-once later payload payload' h = elim (Bool-cases (text_eq token [])) [
    | inl e ↦ absurd (ground arith)
    | inr e ↦
        let none' = resume_payload-gone payload (rw (e, resume) at h) in
        let missed = resume_suspended_task-missed redact (hash token) payload' later db' none' in
        rw (e, missed)
  ]
