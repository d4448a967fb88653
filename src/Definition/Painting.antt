-- ===== src/Definition/Painting.antt =====
-- `checkAcyclic`: what a visit does to the colours, and why the search stops within its fuel.
use mathlib.Core.List.Memᴰ
use oarlock.Prelude.{
  ℕ, ◌≡◌, refl, ap, ◌≤◌, ◌<◌, Text, Bool, true, false, some, List, [], ◌∷◌, Memᴰ, arith, count_if,
  count_if_mono,
}
use oarlock.Definition.{
  Step, Definition, step, Color, white, gray, black, Colors, color, cycle, empty_key, Check, ok,
  invalid, nil_deref, out_of_fuel, ◌>>=◌, visit_all,
}
use oarlock.Definition.Graph.{Needs, Upstream, Grounded}

abbrev pub IsKnown : Definition → Text → Type 0
IsKnown d k = (s : Step) × (step d k ≡ some s)

abbrev pub NeedsKnown : Definition → Type 0
NeedsKnown d = (k n : Text) → Needs d k n → IsKnown d n

abbrev pub is_white : Color → Bool
is_white white = true
is_white _ = false

abbrev pub whites : Definition → Colors → ℕ
whites d c = count_if (λ s. is_white (color c s.key)) d.steps

-- A result of the search that is right: a colouring with the property, or a real cycle.
abbrev pub Outcome : Definition → (Colors → Type 0) → Check Colors → Type 0
Outcome d P (ok c) = P c
Outcome d P (invalid (cycle x)) = Upstream d x x
Outcome d P (invalid _) = ⊥
Outcome d P nil_deref = ⊥
Outcome d P out_of_fuel = ⊥

-- What one visit, or a loop of visits to `ns`, does to the colours. What is black is grounded.
pub record Painted (d : Definition) (ns : List Text) (c c' : Colors) : Type 0 where
  pub blacks : (x : Text) → color c x ≡ black → color c' x ≡ black
  pub grays : (x : Text) → color c' x ≡ gray → color c x ≡ gray
  pub whites : (x : Text) → color c' x ≡ white → color c x ≡ white
  pub sound : (x : Text) → color c' x ≡ black → Grounded d x
  pub own : (x : Text) → Memᴰ x ns → color c' x ≡ black

-- What a visit is given: the key has a step, the black keys are grounded, the gray ones lead to it,
-- and the fuel is above the number of white steps.
pub record Ready (d : Definition) (fuel : ℕ) (ns : List Text) (c : Colors) : Type 0 where
  pub known : (x : Text) → Memᴰ x ns → IsKnown d x
  pub sound : (x : Text) → color c x ≡ black → Grounded d x
  pub stack : (x g : Text) → Memᴰ x ns → color c g ≡ gray → Upstream d g x
  pub fuelled : whites d c < fuel

abbrev pub Visits : Definition → ℕ → (Text → Colors → Check Colors) → Type 0
Visits d fuel call =
    (k : Text) (c : Colors) → Ready d fuel (k ∷ []) c → Outcome d (Painted d (k ∷ []) c) (call k c)

pub Outcome-bind :
    (d : Definition) {P : Colors → Type 0} (Q : Colors → Type 0) (m : Check Colors)
    (f : Colors → Check Colors)
    → Outcome d P m
    → ((c : Colors) → P c → Outcome d Q (f c))
    → Outcome d Q (m >>= f)
Outcome-bind d Q (ok c) f o h = h c o
Outcome-bind d Q (invalid (cycle x)) f o h = o
Outcome-bind d Q (invalid empty_key) f o h = absurd o
Outcome-bind d Q (invalid _) f o h = absurd o
Outcome-bind d Q nil_deref f o h = absurd o
Outcome-bind d Q out_of_fuel f o h = absurd o

pub Outcome-map :
    (d : Definition) {P Q : Colors → Type 0} (m : Check Colors)
    → Outcome d P m
    → ((c : Colors) → P c → Q c)
    → Outcome d Q m
Outcome-map d (ok c) o h = h c o
Outcome-map d (invalid (cycle x)) o h = o
Outcome-map d (invalid empty_key) o h = absurd o
Outcome-map d (invalid _) o h = absurd o
Outcome-map d nil_deref o h = absurd o
Outcome-map d out_of_fuel o h = absurd o

pub is_white-eq : (x : Color) → is_white x ≡ true → x ≡ white
is_white-eq white h = refl
is_white-eq gray h = absurd (ground arith)
is_white-eq black h = absurd (ground arith)

pub whites_mono :
    (d : Definition) (c c' : Colors)
    → ((x : Text) → color c' x ≡ white → color c x ≡ white)
    → whites d c' ≤ whites d c
whites_mono d c c' h = count_if_mono _ _ (λ s w. ap is_white (h s.key (is_white-eq _ w))) d.steps

module _ {d : Definition} {fuel : ℕ} {n : Text} {ns : List Text} where
  Ready-head : {c : Colors} → Ready d fuel (n ∷ ns) c → Ready d fuel (n ∷ []) c
  Ready-head r = record {
    known = λ x m. r.known x (first x m);
    sound = r.sound;
    stack = λ x g m. r.stack x g (first x m);
    fuelled = r.fuelled;
  }
    where
      first : (x : Text) → Memᴰ x (n ∷ []) → Memᴰ x (n ∷ ns)
      first x m = Memᴰ.head (Memᴰ.eq_of_singleton m)

  pub Ready-tail :
      {c c' : Colors} → Ready d fuel (n ∷ ns) c → Painted d (n ∷ []) c c' → Ready d fuel ns c'
  Ready-tail {c} {c'} r p = record {
    known = λ x m. r.known x (Memᴰ.tail m);
    sound = p.sound;
    stack = λ x g m e. r.stack x g (Memᴰ.tail m) (p.grays g e);
    fuelled = omega (arith, r.fuelled, whites_mono d c c' p.whites);
  }

pub Painted-cons :
    {d : Definition} {n : Text} {ns : List Text} {c mid c' : Colors}
    → Painted d (n ∷ []) c mid
    → Painted d ns mid c'
    → Painted d (n ∷ ns) c c'
Painted-cons p q = record {
  blacks = λ x e. q.blacks x (p.blacks x e);
  grays = λ x e. p.grays x (q.grays x e);
  whites = λ x e. p.whites x (q.whites x e);
  sound = q.sound;
  own = λ x. elim [ Memᴰ.head e ↦ q.blacks x (p.own x (Memᴰ.head e)) | Memᴰ.tail m ↦ q.own x m ];
}

module _ (d : Definition) (fuel : ℕ) (call : Text → Colors → Check Colors)
    (visits : Visits d fuel call) where
  pub visit_all-Outcome :
      (ns : List Text) (c : Colors)
      → Ready d fuel ns c
      → Outcome d (Painted d ns c) (visit_all call ns c)
  unfolding visit_all
  visit_all-Outcome [] c r = record {
    blacks = λ x e. e;
    grays = λ x e. e;
    whites = λ x e. e;
    sound = r.sound;
    own = λ x m. elim m [ ];
  }
  visit_all-Outcome (n ∷ ns) c r =
      Outcome-bind d _ (call n c) (visit_all call ns) (visits n c (Ready-head r)) (λ mid p.
        Outcome-map d (visit_all call ns mid) (visit_all-Outcome ns mid (Ready-tail r p))
          (λ c' q. Painted-cons p q))
