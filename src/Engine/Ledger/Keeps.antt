-- ===== src/Engine/Ledger/Keeps.antt =====
-- Every move keeps the table sound, and no move changes or removes a finished attempt.
use oarlock.Prelude.{
  ℕ, suc, ◌<◌, ◌≡◌, refl, sym, ◌∙◌, ap, subst, ◌⊎◌, inl, inr, Bool, true, false, List, [], ◌∷◌,
  Memᴰ, arith, Bool-cases, if◌then◌else◌,
}
use oarlock.Prelude.Tables.{update, update-from, update-Mem}
use oarlock.Engine.Store.{Task, is_live}
use oarlock.Engine.Ledger.{
  SameStep, Allowed, Room, Moves, stay, change, draw, insert, Apart, AllApart, IsSound,
}

abbrev pub put_row : (Task → Bool) → (Task → Task) → Task → Task
put_row p f t = if p t then f t else t

module _ (p : Task → Bool) (f : Task → Task) (ok : Allowed p f) where
  -- An update keeps what identifies a row, and makes no finished row live.
  pub put_row-keeps :
      (t : Task)
      → ((put_row p f t).id ≡ t.id)
        × ((put_row p f t).run ≡ t.run)
        × ((put_row p f t).step_key ≡ t.step_key)
        × ((put_row p f t).attempt ≡ t.attempt)
        × (is_live (put_row p f t).status ≡ true → is_live t.status ≡ true)
  put_row-keeps t = elim (Bool-cases (p t)) [
    | inl e ↦ let (l, i, r, k, a) = ok t e in rw e (i, r, k, a, λ _. l)
    | inr e ↦ rw e (refl, refl, refl, refl, λ l. l)
  ]

  put_row-SameStep : (t u : Task) → SameStep (put_row p f t) (put_row p f u) → SameStep t u
  put_row-SameStep t u s = ground (arith, put_row-keeps t, put_row-keeps u)

  SameStep-put_row : (t u : Task) → SameStep t u → SameStep (put_row p f t) (put_row p f u)
  SameStep-put_row t u s = ground (arith, put_row-keeps t, put_row-keeps u)

  put_row-Apart : (t u : Task) → Apart t u → Apart (put_row p f t) (put_row p f u)
  put_row-Apart t u a =
      let (i, r, k, n, l) = put_row-keeps t in
      let (i', r', k', n', l') = put_row-keeps u in
      record {
        ids = λ e. a.ids (sym i ∙ e ∙ i');
        attempts = λ s e. a.attempts (put_row-SameStep t u s) (sym n ∙ e ∙ n');
        left = λ s v. omega (arith, n, n', a.left (put_row-SameStep t u s) (l v));
        right = λ s v. omega (arith, n, n', a.right (put_row-SameStep t u s) (l' v));
      }

  update-AllApart : (ts : List Task) → AllApart ts → AllApart (update p f ts)
  unfolding update
  update-AllApart [] a = tt
  update-AllApart (t ∷ ts) (a, rest) =
      (λ u m. at u m (update-from p f ts m), update-AllApart ts rest)
    where
      at :
          (u : Task)
          → Memᴰ u (update p f ts)
          → (b : Task) × Memᴰ b ts × (u ≡ put_row p f b)
          → Apart (put_row p f t) u
      at u m (b, m', e) = subst (Apart (put_row p f t)) (sym e) (put_row-Apart t b (a b m'))

  update-IsSound : (n : ℕ) (ts : List Task) → IsSound n ts → IsSound n (update p f ts)
  update-IsSound n ts s = record {
    below = λ t m. below t (update-from p f ts m);
    apart = update-AllApart ts s.apart;
    first = λ t m. first t (update-from p f ts m);
  }
    where
      below : (t : Task) → (b : Task) × Memᴰ b ts × (t ≡ put_row p f b) → t.id < n
      below t (b, m, e) = omega (arith, ap (λ (r : Task). r.id) e, (put_row-keeps b).0, s.below b m)

      first :
          (t : Task)
          → (b : Task) × Memᴰ b ts × (t ≡ put_row p f b)
          → (u : Task) × Memᴰ u (update p f ts) × SameStep t u × (u.attempt ≡ 1)
      first t (b, m, e) =
          let (u, m', same, one) = s.first b m in
          (
            put_row p f u,
            update-Mem p f ts m',
            subst (λ (r : Task). SameStep r (put_row p f u)) (sym e) (SameStep-put_row b u same),
            (put_row-keeps u).3 ∙ one,
          )

pub insert-IsSound :
    (n : ℕ) (t : Task) (ts : List Task)
    → t.id ≡ n
    → Room t ts
    → IsSound n ts
    → IsSound (suc n) (t ∷ ts)
insert-IsSound n t ts e room s = record {
  below = λ u. elim [
    | Memᴰ.head q ↦ omega (arith, ap (λ (r : Task). r.id) q)
    | Memᴰ.tail m ↦ omega (arith, s.below u m)
  ];
  apart = (
    λ u m. record {
      ids = λ q. omega (arith, s.below u m);
      attempts = λ same q. omega (arith, (room.over u m same).1);
      left = λ same l. (room.over u m same).1;
      right = λ same l. absurd (ground (arith, room.over u m same));
    },
    s.apart,
  );
  first = λ u. elim [
    | Memᴰ.head q ↦ subst (First (t ∷ ts)) (sym q) (own room.first)
    | Memᴰ.tail m ↦ later u (s.first u m)
  ];
}
  where
    First : List Task → Task → Type 0
    First rows u = (v : Task) × Memᴰ v rows × SameStep u v × (v.attempt ≡ 1)

    later : (u : Task) → First ts u → First (t ∷ ts) u
    later u (v, m, same, one) = (v, Memᴰ.tail m, same, one)

    own : (t.attempt ≡ 1) ⊎ ((u : Task) × Memᴰ u ts × SameStep t u) → First (t ∷ ts) t
    own (inl one) = (t, Memᴰ.head refl, (refl, refl), one)
    own (inr (u, m, same)) =
        let (v, m', same', one) = s.first u m in
        (v, Memᴰ.tail m', (same.0 ∙ same'.0, same.1 ∙ same'.1), one)

pub Moves-IsSound :
    {n : ℕ} {ts : List Task} {m : ℕ} {us : List Task}
    → Moves n ts m us
    → IsSound n ts
    → IsSound m us
Moves-IsSound stay s = s
Moves-IsSound (change p f ok mv) s = update-IsSound p f ok _ _ (Moves-IsSound mv s)
Moves-IsSound (draw mv) s =
    let s' = Moves-IsSound mv s in
    record { below = λ t m. omega (arith, s'.below t m); apart = s'.apart; first = s'.first }
Moves-IsSound (insert t e room mv) s = insert-IsSound _ t _ e room (Moves-IsSound mv s)

-- A finished attempt is never rewritten.
pub Moves-finished :
    {n : ℕ} {ts : List Task} {m : ℕ} {us : List Task}
    → Moves n ts m us
    → (t : Task) → is_live t.status ≡ false
    → Memᴰ t ts
    → Memᴰ t us
Moves-finished stay t d x = x
Moves-finished (change {us = us} p f ok mv) t d x = elim (Bool-cases (p t)) [
  | inl e ↦ absurd (ground (arith, ok t e))
  | inr e ↦ subst (λ r. Memᴰ r (update p f us)) (rw e) (update-Mem p f us (Moves-finished mv t d x))
]
Moves-finished (draw mv) t d x = Moves-finished mv t d x
Moves-finished (insert t' e room mv) t d x = Memᴰ.tail (Moves-finished mv t d x)

pub Moves-trans :
    {n m : ℕ} {ts us : List Task} {k : ℕ} {vs : List Task}
    → Moves n ts m us
    → Moves m us k vs
    → Moves n ts k vs
Moves-trans p stay = p
Moves-trans p (change f g ok q) = change f g ok (Moves-trans p q)
Moves-trans p (draw q) = draw (Moves-trans p q)
Moves-trans p (insert t e room q) = insert t e room (Moves-trans p q)

-- Two rows of a sound table are the same row or apart.
pub Apart-at :
    (ts : List Task) {t u : Task} → AllApart ts → Memᴰ t ts → Memᴰ u ts → (t ≡ u) ⊎ Apart t u
Apart-at [] a m k = elim m [ ]
Apart-at (x ∷ ts) (a, rest) (Memᴰ.head e) (Memᴰ.head e') = inl (e ∙ sym e')
Apart-at (x ∷ ts) {u = u} (a, rest) (Memᴰ.head e) (Memᴰ.tail k) =
    inr (subst (λ r. Apart r u) (sym e) (a u k))
Apart-at (x ∷ ts) {t} (a, rest) (Memᴰ.tail m) (Memᴰ.head e) =
    inr (flip (subst (λ r. Apart r t) (sym e) (a t m)))
  where
    flip : {t u : Task} → Apart t u → Apart u t
    flip b = record {
      ids = λ q. b.ids (sym q);
      attempts = λ s q. b.attempts (sym s.0, sym s.1) (sym q);
      left = λ s l. b.right (sym s.0, sym s.1) l;
      right = λ s l. b.left (sym s.0, sym s.1) l;
    }
Apart-at (x ∷ ts) (a, rest) (Memᴰ.tail m) (Memᴰ.tail k) = Apart-at ts rest m k
