-- ===== src/Definition/Closure.antt =====
-- The closure that `TransitiveNeeds` computes is exactly what is upstream of the step.
use mathlib.Core.List.Memᴰ
use oarlock.Prelude.{
  text_eq_iff, ℕ, zero, suc, ◌≡◌, refl, sym, subst, ◌≤◌, ◌<◌, ◌⊎◌, ◌↔◌, inl, inr, Text, contains,
  contains→Mem, Mem→contains, true, false, not, Option, none, some, List, [], ◌∷◌, Memᴰ, arith,
  count_if, count_if_mono, count_if-lt, count_if-le, length, Bool-cases, Option-cases,
}
use oarlock.Definition.{Step, Definition, step, close_needs, close, transitive_needs}
use oarlock.Definition.Graph.{
  Needs, Upstream, direct, further, Needs-step, Upstream-trans, find_step-key, find_step-Mem,
}

-- What one call of `visit` at `k` does to the set: it grows by steps upstream of `k`, holds the
-- needs of all it adds, and holds those of `k`.
record Closed (d : Definition) (k : Text) (seen seen' : List Text) : Type 0 where
  grows : (n : Text) → Memᴰ n seen → Memᴰ n seen'
  sound : (n : Text) → Memᴰ n seen' → Memᴰ n seen ⊎ Upstream d k n
  closed : (n : Text) → Memᴰ n seen' → Memᴰ n seen ⊎ ((m : Text) → Needs d n m → Memᴰ m seen')
  own : (m : Text) → Needs d k m → Memᴰ m seen'

-- The same of the loop over some needs of `k`.
record Looped (d : Definition) (k : Text) (ns seen seen' : List Text) : Type 0 where
  grows : (n : Text) → Memᴰ n seen → Memᴰ n seen'
  sound : (n : Text) → Memᴰ n seen' → Memᴰ n seen ⊎ Upstream d k n
  closed : (n : Text) → Memᴰ n seen' → Memᴰ n seen ⊎ ((m : Text) → Needs d n m → Memᴰ m seen')
  own : (m : Text) → Memᴰ m ns → Memᴰ m seen'

-- How many steps are not in the set: the measure of the recursion.
abbrev unseen : Definition → List Text → ℕ
unseen d seen = count_if (λ s. not (contains seen s.key)) d.steps

unseen_mono :
    (d : Definition) (seen seen' : List Text)
    → ((n : Text) → Memᴰ n seen → Memᴰ n seen')
    → unseen d seen' ≤ unseen d seen
unseen_mono d seen seen' grows =
    count_if_mono _ _ (λ s h. back s (Bool-cases (contains seen s.key)) h) d.steps
  where
    back :
        (s : Step)
        → (contains seen s.key ≡ true) ⊎ (contains seen s.key ≡ false)
        → not (contains seen' s.key) ≡ true
        → not (contains seen s.key) ≡ true
    back s (inl e) h =
        absurd (ground (arith, Mem→contains seen' s.key (grows s.key (contains→Mem seen s.key e))))
    back s (inr e) h = rw e

unseen-lt :
    (d : Definition) (seen : List Text) (k : Text) {s : Step}
    → step d k ≡ some s
    → contains seen k ≡ false
    → unseen d (k ∷ seen) < unseen d seen
unfolding step contains
unseen-lt d seen k {s} e new =
    let at : s.key ≡ k = find_step-key d.steps k e in
    count_if-lt _ _ (λ t h. ground arith) s d.steps (find_step-Mem d.steps k e)
      (ground (arith, text_eq_iff s.key k)) (ground arith)

module _ {d : Definition} {k n : Text} {ns seen seen' : List Text} where
  -- A need that is in the set already is passed over.
  skip-Looped : Memᴰ n seen → Looped d k ns seen seen' → Looped d k (n ∷ ns) seen seen'
  skip-Looped m l = record {
    grows = l.grows;
    sound = l.sound;
    closed = l.closed;
    own = λ x. elim [ Memᴰ.head e ↦ l.grows _ (Memᴰ.cast e m) | Memᴰ.tail t ↦ l.own _ t ];
  }

  -- A need that is new is visited, and then the others.
  visit-Looped :
      {mid : List Text}
      → Needs d k n
      → Closed d n (n ∷ seen) mid
      → Looped d k ns mid seen'
      → Looped d k (n ∷ ns) seen seen'
  visit-Looped {mid} need c l = record {
    grows = λ x m. l.grows x (c.grows x (Memᴰ.tail m));
    sound = λ x m. from_mid x (l.sound x m);
    closed = λ x m. closed_mid x (l.closed x m);
    own = λ x m. own_needs x (Memᴰ.cases_cons m);
  }
    where
      here : Memᴰ n seen'
      here = l.grows n (c.grows n (Memᴰ.head refl))

      from_call : (x : Text) → Memᴰ x (n ∷ seen) ⊎ Upstream d n x → Memᴰ x seen ⊎ Upstream d k x
      from_call x (inl (Memᴰ.head e)) = inr (subst (Upstream d k) (sym e) (direct need))
      from_call x (inl (Memᴰ.tail m)) = inl m
      from_call x (inr u) = inr (Upstream-trans (direct need) u)

      from_mid : (x : Text) → Memᴰ x mid ⊎ Upstream d k x → Memᴰ x seen ⊎ Upstream d k x
      from_mid x (inl m) = from_call x (c.sound x m)
      from_mid x (inr u) = inr u

      closed_call :
          (x : Text)
          → Memᴰ x (n ∷ seen) ⊎ ((m : Text) → Needs d x m → Memᴰ m mid)
          → Memᴰ x seen ⊎ ((m : Text) → Needs d x m → Memᴰ m seen')
      closed_call x (inl (Memᴰ.head e)) =
          inr (λ m y. l.grows m (c.own m (subst (λ t. Needs d t m) e y)))
      closed_call x (inl (Memᴰ.tail m)) = inl m
      closed_call x (inr h) = inr (λ m y. l.grows m (h m y))

      closed_mid :
          (x : Text)
          → Memᴰ x mid ⊎ ((m : Text) → Needs d x m → Memᴰ m seen')
          → Memᴰ x seen ⊎ ((m : Text) → Needs d x m → Memᴰ m seen')
      closed_mid x (inl m) = closed_call x (c.closed x m)
      closed_mid x (inr h) = inr h

      own_needs : (x : Text) → (x ≡ n) ⊎ Memᴰ x ns → Memᴰ x seen'
      own_needs x (inl e) = Memᴰ.cast e here
      own_needs x (inr m) = l.own x m

-- What the recursive call is known to do: on a key with no step, or with fuel above the measure,
-- it returns a set that is closed.
abbrev Closes : Definition → ℕ → (Text → List Text → Option (List Text)) → Type 0
Closes d fuel call =
    (n : Text) (seen : List Text)
    → (step d n ≡ none) ⊎ (unseen d seen < fuel)
    → (r : List Text) × (call n seen ≡ some r) × Closed d n seen r

abbrev LoopResult :
    Definition → Text → (Text → List Text → Option (List Text)) → List Text → List Text → Type 0
LoopResult d k call ns seen =
    (r : List Text) × (close_needs call ns seen ≡ some r) × Looped d k ns seen r

module _ (d : Definition) (k : Text) (fuel : ℕ) (call : Text → List Text → Option (List Text)) where
  close-Needs-total :
      Closes d fuel call
      → (ns seen : List Text) → ((n : Text) → Memᴰ n ns → Needs d k n)
      → unseen d seen ≤ fuel
      → LoopResult d k call ns seen
  unfolding close_needs
  close-Needs-total closes [] seen needs h = (
    seen,
    refl,
    record {
      grows = λ n m. m;
      sound = λ n m. inl m;
      closed = λ n m. inl m;
      own = λ n m. elim m [ ];
    },
  )
  close-Needs-total closes (n ∷ ns) seen needs h = elim (Bool-cases (contains seen n)) [
    | inl old ↦
        let (r, e, l) = close-Needs-total closes ns seen (λ m x. needs m (Memᴰ.tail x)) h in
        (r, rw (old, close_needs) e, skip-Looped (contains→Mem seen n old) l)
    | inr new ↦
        let (mid, e, c) = closes n (n ∷ seen) (pre (Option-cases (step d n)) new) in
        let less : unseen d mid ≤ unseen d (n ∷ seen) = unseen_mono d (n ∷ seen) mid c.grows in
        let less' : unseen d (n ∷ seen) ≤ unseen d seen =
          unseen_mono d seen (n ∷ seen) (λ x m. Memᴰ.tail m) in
        let (r, e', l) =
          close-Needs-total closes ns mid (λ m x. needs m (Memᴰ.tail x)) (omega arith) in
        (r, rw (new, e, close_needs) e', visit-Looped (needs n (Memᴰ.head refl)) c l)
  ]
    where
      pre :
          (step d n ≡ none) ⊎ ((s : Step) × (step d n ≡ some s))
          → contains seen n ≡ false
          → (step d n ≡ none) ⊎ (unseen d (n ∷ seen) < fuel)
      pre (inl e) new = inl e
      pre (inr (s, e)) new = inr (omega (arith, unseen-lt d seen n e new))

-- A key with no step leaves the set as it is.
none-Closed :
    (d : Definition) (k : Text) (seen : List Text) → step d k ≡ none → Closed d k seen seen
none-Closed d k seen e = record {
  grows = λ n m. m;
  sound = λ n m. inl m;
  closed = λ n m. inl m;
  own = λ m (s, e', x). absurd (ground arith);
}

-- The loop over all the needs of a step makes a call.
Looped-Closed :
    {d : Definition} {k : Text} {seen seen' : List Text} (s : Step)
    → step d k ≡ some s
    → Looped d k s.needs seen seen'
    → Closed d k seen seen'
Looped-Closed {d} {k} s e l = record {
  grows = l.grows;
  sound = l.sound;
  closed = l.closed;
  own = λ m x. l.own m (Needs-step d k e x);
}

close-total : (d : Definition) (fuel : ℕ) → Closes d fuel (close d fuel)
unfolding close
close-total d zero n seen h = elim (Option-cases (step d n)) [
  | inl e ↦ (seen, rw (e, close), none-Closed d n seen e)
  | inr (s, e) ↦ absurd (ground arith)
]
close-total d (suc fuel) n seen h = elim (Option-cases (step d n)) [
  | inl e ↦ (seen, rw (e, close), none-Closed d n seen e)
  | inr (s, e) ↦
      let (r, e', l) =
        close-Needs-total d n fuel (close d fuel) (close-total d fuel) s.needs seen
          (λ m x. (s, e, x)) (ground arith) in
      (r, rw (e, close) e', Looped-Closed s e l)
]

-- `TransitiveNeeds` returns, and the set that it returns holds exactly the keys upstream of `k`.
pub transitive_needs-Upstream :
    (d : Definition) (k : Text)
    → (r : List Text) × (transitive_needs d k ≡ some r) × ((n : Text) → Memᴰ n r ↔ Upstream d k n)
unfolding transitive_needs
transitive_needs-Upstream d k =
    let (r, e, c) =
      close-total d (suc (length d.steps)) k []
        (inr (ground (arith, count_if-le (λ (s : Step). not (contains [] s.key)) d.steps))) in
    (r, e, λ n. (upstream n (c.sound n), holds r c))
  where
    upstream :
        (n : Text) {r : List Text}
        → (Memᴰ n r → Memᴰ n [] ⊎ Upstream d k n)
        → Memᴰ n r
        → Upstream d k n
    upstream n sound m = elim (sound m) [ inl x ↦ elim x [ ] | inr u ↦ u ]

    holds : (r : List Text) (c : Closed d k [] r) {n : Text} → Upstream d k n → Memᴰ n r
    holds r c (direct x) = c.own _ x
    holds r c (further {m = m} u x) = elim (c.closed m (holds r c u)) [
      | inl y ↦ elim y [ ]
      | inr h ↦ h _ x
    ]
