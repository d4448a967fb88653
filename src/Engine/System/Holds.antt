-- ===== src/Engine/System/Holds.antt =====
-- A property of the state that a transaction leaves when it commits.
use oarlock.Prelude.{◌≡◌, subst}
use oarlock.Engine.Store.{Db, Result, ok, err, ◌>>=◌}

abbrev pub Holds : (Db → Type 0) → Result Db → Type 0
Holds P (ok db) = P db
Holds P (err e) = Unit

pub Holds-bind :
    (P Q : Db → Type 0) (r : Result Db) (k : Db → Result Db)
    → Holds P r
    → ((db : Db) → P db → Holds Q (k db))
    → Holds Q (r >>= k)
Holds-bind P Q (ok db) k h more = more db h
Holds-bind P Q (err e) k h more = tt

module _ (P : Db → Type 0) where
  pub Holds-then :
      (r : Result Db) (k : Db → Result Db)
      → Holds P r
      → ((db : Db) → P db → Holds P (k db))
      → Holds P (r >>= k)
  Holds-then = Holds-bind P P

  pub Holds-known : (r : Result Db) {db : Db} → Holds P r → r ≡ ok db → P db
  Holds-known (ok d) {db} h e = let same : d ≡ db = cc e in subst P same h
  Holds-known (err x) h e = absurd (cc e)
