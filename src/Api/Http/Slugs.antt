-- ===== src/Api/Http/Slugs.antt =====
-- The slugs that `slugify` makes, and the limits of `clampLimit`.
use oarlock.Prelude.{
  ℕ, ◌≡◌, ◌≤◌, ◌⊎◌, inl, inr, refl, Text, Bool, true, false, not, ◌&&◌, ◌||◌, Option, [], ◌∷◌,
  arith, leb, ◌==◌, if◌then◌else◌, Bool-cases, List-cases, Option-cases,
}
use oarlock.Prelude.Int.{ℤ, pos, negsuc}
use oarlock.Api.Http.{
  clamp_limit, is_alnum, dash_runs, trim_dashes_left, trim_dashes_right, to_lower, slugify,
}

-- The expression `[a-z0-9]+(-[a-z0-9]+)*`, read from its start (`true`: a letter or a digit has to
-- come next) or from behind a letter or a digit.
unfoldable pub accepts : Bool → Text → Bool
unfolding is_alnum
accepts due [] = not due
accepts due (c ∷ s) =
    if is_alnum c || (not due && c == b'-') then accepts (not (is_alnum c)) s else false

-- A slug is empty, or matches the expression.
unfoldable pub is_slug : Text → Bool
unfolding accepts
is_slug [] = true
is_slug (c ∷ s) = accepts true (c ∷ s)

-- No dash follows a dash: `accepts` without its demand on the end.
singles : Bool → Text → Bool
singles due [] = true
singles due (c ∷ s) =
    if is_alnum c || (not due && c == b'-') then singles (not (is_alnum c)) s else false

dash-alnum : is_alnum b'-' ≡ false
unfolding is_alnum
dash-alnum = refl

dash_runs-singles : (run : Bool) (s : Text) → singles run (dash_runs run s) ≡ true
unfolding dash_runs singles is_alnum
dash_runs-singles run [] = refl
dash_runs-singles true (c ∷ s) = ground (arith, dash_runs-singles (not (is_alnum c)) s)
dash_runs-singles false (c ∷ s) = ground (arith, dash_runs-singles (not (is_alnum c)) s)

trim_dashes_left-singles :
    (s : Text) (due : Bool) → singles due s ≡ true → singles true (trim_dashes_left s) ≡ true
unfolding trim_dashes_left singles is_alnum
trim_dashes_left-singles [] due h = refl
trim_dashes_left-singles (c ∷ s) true h = ground (arith, trim_dashes_left-singles s true)
trim_dashes_left-singles (c ∷ s) false h = ground (arith, trim_dashes_left-singles s true)

-- Where the trimmed text is not empty, it is a slug.
trim_dashes_right-accepts :
    (s : Text) (due : Bool)
    → singles due s ≡ true
    → (trim_dashes_right s ≡ []) ⊎ (accepts due (trim_dashes_right s) ≡ true)
unfolding trim_dashes_right singles accepts is_alnum
trim_dashes_right-accepts [] due h = inl refl
trim_dashes_right-accepts (c ∷ s) due h =
    let ih = trim_dashes_right-accepts s (not (is_alnum c)) (ground arith) in
    elim (List-cases (trim_dashes_right s)) [
      | inl e ↦ elim (Bool-cases (c == b'-')) [
        | inl d ↦ inl (rw (e, d, trim_dashes_right))
        | inr d ↦ inr (rw (e, d, trim_dashes_right) (ground arith))
      ]
      | inr (d, rest, e) ↦ elim ih [
        | inl empty ↦ absurd (ground arith)
        | inr good ↦
            let good' : accepts (not (is_alnum c)) (d ∷ rest) ≡ true = rw e at good in
            inr (rw (e, trim_dashes_right) (ground arith))
      ]
    ]

is_slug-accepts : (s : Text) → (s ≡ []) ⊎ (accepts true s ≡ true) → is_slug s ≡ true
unfolding is_slug
is_slug-accepts [] h = refl
is_slug-accepts (c ∷ s) (inl e) = absurd (ground arith)
is_slug-accepts (c ∷ s) (inr h) = h

slug_of : (name : Text) → is_slug (slugify name) ≡ true
unfolding slugify
slug_of name = is_slug-accepts _ (
    trim_dashes_right-accepts _ true
      (trim_dashes_left-singles _ false (dash_runs-singles false (to_lower name))))

-- What `accepts` says of the first byte and of the rest.
accepts_head :
    (a : ℕ) (s : Text) (due : Bool)
    → accepts due (a ∷ s) ≡ true
    → ((leb b'A' a && leb a b'Z') ≡ false)
      × ((a == 196) ≡ false)
      × ((a == 226) ≡ false)
      × (accepts (not (is_alnum a)) s ≡ true)
unfolding accepts is_alnum
accepts_head a s due h = (ground arith, ground arith, ground arith, ground arith)

to_lower-accepts : (s : Text) (due : Bool) → accepts due s ≡ true → to_lower s ≡ s
unfolding to_lower
to_lower-accepts [] due h = refl
to_lower-accepts (a ∷ []) due h = let (upper, _, _, _) = accepts_head a [] due h in rw upper
to_lower-accepts (a ∷ b ∷ []) due h =
    let (upper, dotted, _, h') = accepts_head a (b ∷ []) due h in
    let ih = to_lower-accepts (b ∷ []) _ h' in rw (dotted, upper, ih)
to_lower-accepts (a ∷ b ∷ c ∷ s) due h =
    let (upper, dotted, kelvin, h') = accepts_head a (b ∷ c ∷ s) due h in
    let ih = to_lower-accepts (b ∷ c ∷ s) _ h' in rw (dotted, kelvin, upper, ih)

dash_runs-accepts : (s : Text) (due : Bool) → accepts due s ≡ true → dash_runs due s ≡ s
unfolding accepts is_alnum dash_runs
dash_runs-accepts [] due h = refl
dash_runs-accepts (c ∷ s) true h = ground (arith, dash_runs-accepts s (not (is_alnum c)))
dash_runs-accepts (c ∷ s) false h = ground (arith, dash_runs-accepts s (not (is_alnum c)))

trim_dashes_right-slug : (s : Text) (due : Bool) → accepts due s ≡ true → trim_dashes_right s ≡ s
unfolding accepts is_alnum trim_dashes_right
trim_dashes_right-slug [] due h = refl
trim_dashes_right-slug (c ∷ []) due h = ground arith
trim_dashes_right-slug (c ∷ d ∷ s) due h =
    let ih = trim_dashes_right-slug (d ∷ s) (not (is_alnum c)) (ground arith) in
    rw (ih, trim_dashes_right)

starts_alnum :
    (c : ℕ) (s : Text)
    → accepts true (c ∷ s) ≡ true
    → (accepts false (c ∷ s) ≡ true) × ((c == b'-') ≡ false)
unfolding accepts is_alnum
starts_alnum c s h = (ground arith, ground arith)

slugify-slug : (s : Text) → is_slug s ≡ true → slugify s ≡ s
unfolding slugify is_slug trim_dashes_left
slugify-slug [] h = refl
slugify-slug (c ∷ s) h =
    let (h', letter) = starts_alnum c s h in
    rw (to_lower-accepts (c ∷ s) true h, dash_runs-accepts (c ∷ s) false h', letter)
      (trim_dashes_right-slug (c ∷ s) true h)

-- `slugify` makes a slug of every name, and leaves that slug as it is. A slug is empty, or letters
-- `a-z` and digits in groups with one dash between two of them.
pub slugify-is_slug :
    (name : Text) → (is_slug (slugify name) ≡ true) × (slugify (slugify name) ≡ slugify name)
unfolding slugify
slugify-is_slug name = let good = slug_of name in (good, slugify-slug (slugify name) good)

-- A limit that a request gives stays in its range.
pub clamp_limit_bounds :
    (atoi : Text → Option ℤ) (raw : Text) (fallback max : ℕ)
    → 1 ≤ fallback
    → fallback ≤ max
    → (1 ≤ clamp_limit atoi raw fallback max) × (clamp_limit atoi raw fallback max ≤ max)
unfolding clamp_limit
clamp_limit_bounds atoi raw fallback max low high = elim (Option-cases (atoi raw)) [
  | inl e ↦ rw (e, clamp_limit) (low, high)
  | inr (negsuc k, e) ↦ rw (e, clamp_limit) (low, high)
  | inr (pos n, e) ↦ rw (e, clamp_limit) (ground arith, ground arith)
]
