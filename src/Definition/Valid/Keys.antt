-- ===== src/Definition/Valid/Keys.antt =====
-- The loops' parts of the specification, in terms of the steps and their keys.
use mathlib.Core.List.Memᴰ
use oarlock.Prelude.{
  ◌≡◌, refl, sym, subst, ap, ◌⊎◌, ◌↔◌, inl, inr, Text, text_eq, text_eq_iff, text_eq_refl, contains,
  Bool, true, false, ◌||◌, Option, some, List, [], ◌∷◌, Memᴰ, arith, Bool-cases,
}
use oarlock.Definition.{Step, find_step}
use oarlock.Definition.Valid.{StepValid, Distinct, keys_of}
use oarlock.Definition.Valid.Loops.{Fresh, AllValid, seen_after, NeedsOf, AllNeeds}

pub AllValid-of :
    (known : Option (Text → Bool)) (ss : List Step)
    → ((s : Step) → Memᴰ s ss → StepValid known s)
    → AllValid known ss
AllValid-of known [] h = tt
AllValid-of known (s ∷ ss) h =
    (h s (Memᴰ.head refl), AllValid-of known ss (λ t m. h t (Memᴰ.tail m)))

pub AllValid-at :
    (known : Option (Text → Bool)) (ss : List Step)
    → AllValid known ss
    → (s : Step) → Memᴰ s ss
    → StepValid known s
AllValid-at known [] v s m = elim m [ ]
AllValid-at known (t ∷ ss) v s (Memᴰ.head e) = subst (StepValid known) (sym e) v.0
AllValid-at known (t ∷ ss) v s (Memᴰ.tail m) = AllValid-at known ss v.1 s m

-- `Fresh` in terms of the keys alone.
pub Fresh-of :
    (keys : List Text) (ss : List Step)
    → Distinct (keys_of ss)
    → ((k : Text) → Memᴰ k (keys_of ss) → contains keys k ≡ false)
    → Fresh keys ss
unfolding contains
Fresh-of keys [] d h = tt
Fresh-of keys (s ∷ ss) (first, rest) h = (
  h s.key (Memᴰ.head refl),
  Fresh-of (s.key ∷ keys) ss rest (λ k m. other k m (Bool-cases (text_eq k s.key))),
)
  where
    other :
        (k : Text)
        → Memᴰ k (keys_of ss)
        → (text_eq k s.key ≡ true) ⊎ (text_eq k s.key ≡ false)
        → (text_eq k s.key || contains keys k) ≡ false
    other k m (inl e) = absurd (first (Memᴰ.cast (sym ((text_eq_iff _ _).0 e)) m))
    other k m (inr e) = rw e (h k (Memᴰ.tail m))

pub Fresh-at :
    (keys : List Text) (ss : List Step)
    → Fresh keys ss
    → Distinct (keys_of ss) × ((k : Text) → Memᴰ k (keys_of ss) → contains keys k ≡ false)
unfolding contains
Fresh-at keys [] f = (tt, λ k m. elim m [ ])
Fresh-at keys (s ∷ ss) (first, rest) =
    let (d, h) = Fresh-at (s.key ∷ keys) ss rest in
    (
      (λ m. ground (arith, h s.key m, text_eq_refl s.key), d),
      λ k. elim [ Memᴰ.head e ↦ rw e first | Memᴰ.tail m ↦ ground (arith, h k m) ],
    )

pub seen_after-Mem :
    (keys : List Text) (ss : List Step) (k : Text)
    → Memᴰ k (seen_after keys ss) ↔ (Memᴰ k keys ⊎ Memᴰ k (keys_of ss))
seen_after-Mem keys [] k = (λ m. inl m, elim [ inl m ↦ m | inr m ↦ elim m [ ] ])
seen_after-Mem keys (s ∷ ss) k =
    let (split, join) = seen_after-Mem (s.key ∷ keys) ss k in
    (
      λ m. apart (split m),
      elim [
        | inl m ↦ join (inl (Memᴰ.tail m))
        | inr (Memᴰ.head e) ↦ join (inl (Memᴰ.head e))
        | inr (Memᴰ.tail m) ↦ join (inr m)
      ],
    )
  where
    apart : Memᴰ k (s.key ∷ keys) ⊎ Memᴰ k (keys_of ss) → Memᴰ k keys ⊎ Memᴰ k (s.key ∷ keys_of ss)
    apart (inl (Memᴰ.head e)) = inr (Memᴰ.head e)
    apart (inl (Memᴰ.tail m)) = inl m
    apart (inr m) = inr (Memᴰ.tail m)

pub NeedsOf-of :
    (keys : List Text) (key : Text) (ns : List Text)
    → ((n : Text) → Memᴰ n ns → (contains keys n ≡ true) × (text_eq n key ≡ false))
    → NeedsOf keys key ns
NeedsOf-of keys key [] h = tt
NeedsOf-of keys key (n ∷ ns) h =
    let (a, b) = h n (Memᴰ.head refl) in (a, b, NeedsOf-of keys key ns (λ m x. h m (Memᴰ.tail x)))

pub NeedsOf-at :
    (keys : List Text) (key : Text) (ns : List Text)
    → NeedsOf keys key ns
    → (n : Text) → Memᴰ n ns
    → contains keys n ≡ true
NeedsOf-at keys key [] v n m = elim m [ ]
NeedsOf-at keys key (x ∷ ns) v n (Memᴰ.head e) = rw e v.0
NeedsOf-at keys key (x ∷ ns) v n (Memᴰ.tail m) = NeedsOf-at keys key ns v.2 n m

pub AllNeeds-of :
    (keys : List Text) (ss : List Step)
    → ((s : Step) → Memᴰ s ss → NeedsOf keys s.key s.needs)
    → AllNeeds keys ss
AllNeeds-of keys [] h = tt
AllNeeds-of keys (s ∷ ss) h = (h s (Memᴰ.head refl), AllNeeds-of keys ss (λ t m. h t (Memᴰ.tail m)))

pub AllNeeds-at :
    (keys : List Text) (ss : List Step)
    → AllNeeds keys ss
    → (s : Step) → Memᴰ s ss
    → NeedsOf keys s.key s.needs
AllNeeds-at keys [] v s m = elim m [ ]
AllNeeds-at keys (t ∷ ss) v s (Memᴰ.head e) =
    subst (λ (r : Step). NeedsOf keys r.key r.needs) (sym e) v.0
AllNeeds-at keys (t ∷ ss) v s (Memᴰ.tail m) = AllNeeds-at keys ss v.1 s m

-- Where keys are distinct, a step is found under its key.
pub find_step-Distinct :
    (ss : List Step) (s : Step) → Distinct (keys_of ss) → Memᴰ s ss → find_step ss s.key ≡ some s
unfolding find_step
find_step-Distinct [] s d m = elim m [ ]
find_step-Distinct (t ∷ ss) s d (Memᴰ.head e) =
    ground (arith, ap (λ (r : Step). r.key) e, text_eq_iff t.key s.key)
find_step-Distinct (t ∷ ss) s (first, rest) (Memᴰ.tail m) =
    elim (Bool-cases (text_eq t.key s.key)) [
      | inl e ↦
          absurd (first (Memᴰ.cast ((text_eq_iff _ _).0 e) (Memᴰ.map (λ (r : Step). r.key) m)))
      | inr e ↦ rw e (find_step-Distinct ss s rest m)
    ]
