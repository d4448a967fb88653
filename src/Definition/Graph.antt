-- ===== src/Definition/Graph.antt =====
-- The graph of a definition: which step needs which, what is upstream of a step, and the steps
-- whose chains of needs end.
use oarlock.Prelude.{
  ◌≡◌, refl, sym, subst, ap, ◌⊎◌, inl, inr, Text, text_eq, text_eq_iff, some, List, [], ◌∷◌, Memᴰ,
  arith, Bool-cases,
}
use oarlock.Definition.{Step, Definition, find_step, step}

abbrev pub Needs : Definition → Text → Text → Type 0
Needs d k n = (s : Step) × (step d k ≡ some s) × Memᴰ n s.needs

-- A need of a key is one of its step's.
pub Needs-step :
    (d : Definition) (k : Text) {m : Text} {s : Step}
    → step d k ≡ some s
    → Needs d k m
    → Memᴰ m s.needs
Needs-step d k {m} {s} e (t, e', x) =
    let same : t ≡ s = cc in subst (λ (r : Step). Memᴰ m r.needs) same x

-- `n` is upstream of `k`: a chain of one or more needs leads from `k` to `n`.
pub data Upstream (d : Definition) (k : Text) : Text → Type 0 where
  direct : {n : Text} → Needs d k n → Upstream d k n
  further : {m n : Text} → Upstream d k m → Needs d m n → Upstream d k n

pub Upstream-trans :
    {d : Definition} {a b c : Text} → Upstream d a b → Upstream d b c → Upstream d a c
Upstream-trans p (direct x) = further p x
Upstream-trans p (further q x) = further (Upstream-trans p q) x

-- Every chain of needs from `k` ends.
pub data Grounded (d : Definition) : Text → Type 0 where
  intro : (k : Text) → ((n : Text) → Needs d k n → Grounded d n) → Grounded d k

-- The first need of a chain, and what is left of the chain.
Upstream-first :
    {d : Definition} {k m : Text}
    → Upstream d k m
    → (n : Text) × Needs d k n × ((n ≡ m) ⊎ Upstream d n m)
Upstream-first (direct {n = n} x) = (n, x, inl refl)
Upstream-first {d} (further {n = n} p x) =
    let (a, y, rest) = Upstream-first p in
    let more : Upstream d a n = elim rest [
      | inl e ↦ direct (subst (λ t. Needs d t n) (sym e) x)
      | inr q ↦ further q x
    ] in
    (a, y, inr more)

-- Nothing that a grounded step needs leads back to it, the step itself included.
pub Grounded-acyclic : {d : Definition} {k : Text} → Grounded d k → ¬ Upstream d k k
Grounded-acyclic {d} (intro k below) p =
    let (n, x, rest) = Upstream-first p in
    let round : Upstream d n n = elim rest [
      | inl e ↦ subst (λ t. Upstream d t n) (sym e) (direct x)
      | inr q ↦ further q x
    ] in
    Grounded-acyclic (below n x) round

pub find_step-key : (ss : List Step) (k : Text) {s : Step} → find_step ss k ≡ some s → s.key ≡ k
unfolding find_step
find_step-key [] k {s} h = absurd (ground arith)
find_step-key (t ∷ ss) k {s} h =
    ground (arith, text_eq_iff t.key k, λ (e : find_step ss k ≡ some s). find_step-key ss k e)

pub find_step-Mem : (ss : List Step) (k : Text) {s : Step} → find_step ss k ≡ some s → Memᴰ s ss
unfolding find_step
find_step-Mem [] k h = absurd (ground arith)
find_step-Mem (t ∷ ss) k {s} h = elim (Bool-cases (text_eq t.key k)) [
  | inl e ↦ Memᴰ.head (ground arith)
  | inr e ↦ Memᴰ.tail (find_step-Mem ss k (ground arith))
]

-- A key is known if a step has it.
pub find_step-some :
    (ss : List Step) (k : Text) {s : Step}
    → Memᴰ s ss
    → s.key ≡ k
    → (t : Step) × (find_step ss k ≡ some t)
unfolding find_step
find_step-some [] k m e = elim m [ ]
find_step-some (t ∷ ss) k {s} (Memᴰ.head h) e =
    (t, ground (arith, text_eq_iff t.key k, ap (λ (x : Step). x.key) h))
find_step-some (t ∷ ss) k (Memᴰ.tail m) e = elim (Bool-cases (text_eq t.key k)) [
  | inl here ↦ (t, rw here)
  | inr there ↦ rw there (find_step-some ss k m e)
]
