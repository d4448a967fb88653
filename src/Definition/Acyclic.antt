-- ===== src/Definition/Acyclic.antt =====
-- `checkAcyclic`: the search stops within its fuel, dereferences no nil step where the needs are
-- known, and reports a cycle exactly when the graph has one.
use mathlib.Core.List.Memᴰ
use oarlock.Prelude.{
  ℕ, zero, suc, ◌≡◌, refl, sym, subst, ◌<◌, ◌⊎◌, inl, inr, Text, text_eq, text_eq_iff, true, false,
  some, List, [], ◌∷◌, Memᴰ, arith, map, count_if-lt, count_if-le, length, Bool-cases,
}
use oarlock.Definition.{
  Step, Definition, step, Color, white, gray, black, Colors, color, cycle, empty_key, Check, ok,
  invalid, nil_deref, out_of_fuel, ◌>>=◌, visit_all, visit, check_acyclic,
}
use oarlock.Definition.Graph.{
  Upstream, direct, further, Grounded, intro, Needs-step, find_step-key, find_step-Mem,
  find_step-some,
}
use oarlock.Definition.Painting.{
  IsKnown, NeedsKnown, is_white, whites, Outcome, Painted, Ready, Visits, Outcome-bind,
  visit_all-Outcome,
}

-- What painting a white key gray does, and then black.
module _ (d : Definition) (fuel : ℕ) (k : Text) (c : Colors) {s : Step}
    (e : step d k ≡ some s) where
  module _ (w : color c k ≡ white) where
    whites-gray : whites d ((k, gray) ∷ c) < whites d c
    unfolding color step
    whites-gray =
        let at : s.key ≡ k = find_step-key d.steps k e in
        count_if-lt _ _ (λ t h. ground arith) s d.steps (find_step-Mem d.steps k e)
          (ground (arith, text_eq_iff k s.key)) (ground arith)

    Ready-gray : NeedsKnown d → Ready d (suc fuel) (k ∷ []) c → Ready d fuel s.needs ((k, gray) ∷ c)
    unfolding color
    Ready-gray nk r = record {
      known = λ x m. nk k x (s, e, m);
      sound = λ x b. r.sound x (ground arith);
      stack = λ x g m b. stacked x g m b (Bool-cases (text_eq k g));
      fuelled = omega (arith, r.fuelled, whites-gray);
    }
      where
        stacked :
            (x g : Text)
            → Memᴰ x s.needs
            → color ((k, gray) ∷ c) g ≡ gray
            → (text_eq k g ≡ true) ⊎ (text_eq k g ≡ false)
            → Upstream d g x
        stacked x g m b (inl q) =
            subst (λ t. Upstream d t x) ((text_eq_iff k g).0 q) (direct (s, e, m))
        stacked x g m b (inr q) = further (r.stack k g (Memᴰ.head refl) (ground arith)) (s, e, m)

    Painted-black :
        {c' : Colors}
        → Painted d s.needs ((k, gray) ∷ c) c'
        → Painted d (k ∷ []) c ((k, black) ∷ c')
    unfolding color
    Painted-black {c'} p = record {
      blacks = λ x b. ground (arith, p.blacks x, text_eq_iff k x);
      grays = λ x b. ground (arith, p.grays x, text_eq_iff k x);
      whites = λ x b. ground (arith, p.whites x, text_eq_iff k x);
      sound = λ x b. sound x b (Bool-cases (text_eq k x));
      own = λ x m. ground (arith, Memᴰ.eq_of_singleton m, text_eq_iff k x);
    }
      where
        grounded : Grounded d k
        grounded = intro k (λ n x. p.sound n (p.own n (Needs-step d k e x)))

        sound :
            (x : Text)
            → color ((k, black) ∷ c') x ≡ black
            → (text_eq k x ≡ true) ⊎ (text_eq k x ≡ false)
            → Grounded d x
        sound x b (inl q) = subst (Grounded d) ((text_eq_iff k x).0 q) grounded
        sound x b (inr q) = p.sound x (ground arith)

color-cases : (x : Color) → (x ≡ white) ⊎ ((x ≡ gray) ⊎ (x ≡ black))
color-cases white = inl refl
color-cases gray = inr (inl refl)
color-cases black = inr (inr refl)

visit-Outcome : (d : Definition) (fuel : ℕ) → NeedsKnown d → Visits d fuel (visit d fuel)
unfolding visit
visit-Outcome d zero nk k c r = absurd (omega (arith, r.fuelled))
visit-Outcome d (suc fuel) nk k c r =
    let (s, e) = r.known k (Memᴰ.head refl) in
    elim (color-cases (color c k)) [
      | inl w ↦
          rw (w, visit)
            (rw (e, visit)
              (Outcome-bind d _ (visit_all (visit d fuel) s.needs ((k, gray) ∷ c))
                (λ c'. ok ((k, black) ∷ c'))
                (visit_all-Outcome d fuel (visit d fuel) (visit-Outcome d fuel nk) s.needs _
                  (Ready-gray d fuel k c e w nk r))
                (λ c' p. Painted-black d fuel k c e w p)))
      | inr (inl g) ↦ rw (g, visit) (r.stack k k (Memᴰ.head refl) g)
      | inr (inr b) ↦
          rw (b, visit)
            (record {
              blacks = λ x h. h;
              grays = λ x h. h;
              whites = λ x h. h;
              sound = r.sound;
              own = λ x m. rw (Memᴰ.eq_of_singleton m) b;
            })
    ]

pub keys-IsKnown : (d : Definition) (x : Text) → Memᴰ x (map (λ s. s.key) d.steps) → IsKnown d x
unfolding step
keys-IsKnown d x m =
    let (s, m', e) = Memᴰ.of_map (λ (s : Step). s.key) d.steps m in find_step-some d.steps x m' e

known_keys : (d : Definition) (x : Text) → IsKnown d x → Memᴰ x (map (λ s. s.key) d.steps)
unfolding step
known_keys d x (s, e) =
    Memᴰ.cast (sym (find_step-key d.steps x e))
      (Memᴰ.map (λ (s : Step). s.key) (find_step-Mem d.steps x e))

-- Where every need names a step, the check returns nil and all chains of needs end, or it names a
-- step that is upstream of itself.
pub check_acyclic-decides :
    (d : Definition)
    → NeedsKnown d
    → ((check_acyclic d ≡ ok tt) × ((k : Text) → IsKnown d k → Grounded d k))
      ⊎ ((x : Text) × (check_acyclic d ≡ invalid (cycle x)) × Upstream d x x)
unfolding check_acyclic
check_acyclic-decides d nk =
    decide (run [])
      (visit_all-Outcome d _ (visit d (suc (length d.steps))) (visit-Outcome d _ nk) keys [] start)
  where
    keys : List Text
    keys = map (λ s. s.key) d.steps

    run : Colors → Check Colors
    run = visit_all (visit d (suc (length d.steps))) keys

    start : Ready d (suc (length d.steps)) keys []
    start = record {
      known = λ x. keys-IsKnown d x;
      sound = λ x b. absurd (ground arith);
      stack = λ x g m b. absurd (ground arith);
      fuelled = ground (arith, count_if-le (λ (s : Step). is_white (color [] s.key)) d.steps);
    }

    decide :
        (r : Check Colors)
        → Outcome d (Painted d keys []) r
        → (((r >>= λ _. ok tt) ≡ ok tt) × ((k : Text) → IsKnown d k → Grounded d k))
          ⊎ ((x : Text) × ((r >>= λ _. ok tt) ≡ invalid (cycle x)) × Upstream d x x)
    decide (ok c) p = inl (refl, λ k known. p.sound k (p.own k (known_keys d k known)))
    decide (invalid (cycle x)) u = inr (x, refl, u)
    decide (invalid empty_key) o = absurd o
    decide (invalid _) o = absurd o
    decide nil_deref o = absurd o
    decide out_of_fuel o = absurd o
