-- ===== src/Engine/Latest.antt =====
-- The query of the latest attempt of a step gives a row of the step that no other passes.
use oarlock.Prelude.{
  ℕ, ◌≤◌, ◌≡◌, refl, ◌∙◌, ap, inl, inr, Text, true, false, Option, none, some, List, [], ◌∷◌, Memᴰ,
  arith, Bool-cases, leb,
}
use oarlock.Engine.Store.{Task, of_step, newer, latest}

-- A result of the query is right: no row is of the step, or it is one and has the highest attempt.
abbrev pub IsLatest : ℕ → Text → List Task → Option Task → Type 0
IsLatest run key ts none = (u : Task) → Memᴰ u ts → of_step run key u ≡ false
IsLatest run key ts (some t) =
    Memᴰ t ts
    × (of_step run key t ≡ true)
    × ((u : Task) → Memᴰ u ts → of_step run key u ≡ true → u.attempt ≤ t.attempt)

newer-IsLatest :
    (run : ℕ) (key : Text) (t : Task) (ts : List Task) (rest : Option Task)
    → of_step run key t ≡ true
    → IsLatest run key ts rest
    → IsLatest run key (t ∷ ts) (newer t rest)
unfolding newer
newer-IsLatest run key t ts none e h = (
  Memᴰ.head refl,
  e,
  λ u. elim [
    | Memᴰ.head q ↦ λ _. omega (arith, ap (λ (x : Task). x.attempt) q)
    | Memᴰ.tail m ↦ λ q. absurd (ground (arith, h u m))
  ],
)
newer-IsLatest run key t ts (some v) e (m, q, h) = elim (Bool-cases (leb v.attempt t.attempt)) [
  | inl le ↦ rw le (
    Memᴰ.head refl,
    e,
    λ u. elim [
      | Memᴰ.head q' ↦ λ _. omega (arith, ap (λ (x : Task). x.attempt) q')
      | Memᴰ.tail m' ↦ λ q'. ground (arith, h u m' q')
    ],
  )
  | inr gt ↦ rw gt (
    Memᴰ.tail m,
    q,
    λ u. elim [
      | Memᴰ.head q' ↦ λ _. ground (arith, ap (λ (x : Task). x.attempt) q')
      | Memᴰ.tail m' ↦ λ q'. h u m' q'
    ],
  )
]

skip-IsLatest :
    (run : ℕ) (key : Text) (t : Task) (ts : List Task) (rest : Option Task)
    → of_step run key t ≡ false
    → IsLatest run key ts rest
    → IsLatest run key (t ∷ ts) rest
skip-IsLatest run key t ts none e h =
    λ u. elim [ Memᴰ.head q ↦ ap (of_step run key) q ∙ e | Memᴰ.tail m ↦ h u m ]
skip-IsLatest run key t ts (some v) e (m, q, h) = (
  Memᴰ.tail m,
  q,
  λ u. elim [
    | Memᴰ.head q' ↦ λ o. absurd (ground (arith, ap (of_step run key) q'))
    | Memᴰ.tail m' ↦ λ o. h u m' o
  ],
)

-- The latest attempt of a step of a run is one of its rows, and no row of the step has a later
-- attempt; there is none only where the step has no row.
pub latest-IsLatest :
    (run : ℕ) (key : Text) (ts : List Task) → IsLatest run key ts (latest run key ts)
unfolding latest
latest-IsLatest run key [] = λ u m. elim m [ ]
latest-IsLatest run key (t ∷ ts) = elim (Bool-cases (of_step run key t)) [
  | inl e ↦ rw e (newer-IsLatest run key t ts (latest run key ts) e (latest-IsLatest run key ts))
  | inr e ↦ rw e (skip-IsLatest run key t ts (latest run key ts) e (latest-IsLatest run key ts))
]
