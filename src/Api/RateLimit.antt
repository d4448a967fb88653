-- ===== src/Api/RateLimit.antt =====
-- engine/internal/api/ratelimit.go: the limit on failed logins.
pub mod Sliding
use oarlock.Prelude.{
  ℕ, ◌-◌, ◌*◌, ◌≡◌, Text, text_eq, Bool, true, false, List, [], ◌∷◌, ◌++◌, ltb, if◌then◌else◌,
  length, select,
}

-- Times are nanoseconds. A key that the map does not have reads as the empty list.
pub record LoginLimiter : Type 0 where
  pub failures : Text → List ℕ
  pub window : ℕ
  pub max : ℕ

abbrev pub new_login_limiter : LoginLimiter
new_login_limiter = record { failures = λ key. []; window = 15 * 60 * 1_000_000_000; max = 10 }

-- A write to the map, or a `delete` where nothing is left.
unfoldable pub set_failures : Text → List ℕ → LoginLimiter → LoginLimiter
unfolding text_eq
set_failures key ts l = record l { failures = λ k. if text_eq k key then ts else l.failures k }

-- `now.Sub(t) < l.window`; a time that is later than `now` is inside the window.
abbrev pub within : ℕ → ℕ → ℕ → Bool
within window now t = ltb (now - t) window

unfoldable pub prune : Text → ℕ → LoginLimiter → List ℕ × LoginLimiter
unfolding set_failures
prune key now l =
    let kept = select (within l.window now) (l.failures key) in (kept, set_failures key kept l)

unfoldable pub allowed : Text → ℕ → LoginLimiter → Bool × LoginLimiter
unfolding prune
allowed key now l = let (kept, l') = prune key now l in (ltb (length kept) l.max, l')

unfoldable pub fail : Text → ℕ → LoginLimiter → LoginLimiter
unfolding prune
fail key now l = let (kept, l') = prune key now l in set_failures key (kept ++ now ∷ []) l'

unfoldable pub reset : Text → LoginLimiter → LoginLimiter
unfolding set_failures
reset key l = set_failures key [] l
