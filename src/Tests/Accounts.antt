-- ===== src/Tests/Accounts.antt =====
-- A workspace with two admins, and a login that fails.
use oarlock.Prelude.{
  ℕ, ◌≡◌, ◌≤◌, refl, ap, Text, codes, text_eq, none, some, List, [], ◌∷◌, Memᴰ, arith, ltb,
}
use oarlock.Api.Users.{
  Member, Accounts, admin_count, is_admin, is_admin_role, member_of, refuses_role, write_role,
}
use oarlock.Api.Users.Keeps.{IsKeyed}
use oarlock.Api.Users.Admins.{Request, updates, deletes, handle_all, handle_all-admin}
use oarlock.Api.RateLimit.{allowed}
use oarlock.Api.RateLimit.Sliding.{
  Call, fails, resets, after_calls, recent_failures, allowed-recent,
}

abbrev member : ℕ → Text → Member
member user role = record { workspace = 7; user = user; role = role }

abbrev two_admins : Accounts
two_admins = record {
  users = [];
  members = member 1 (codes "admin") ∷ member 2 (codes "owner") ∷ [];
  sessions = [];
  next_id = 3;
}

two_admins-IsKeyed : IsKeyed two_admins
unfolding member_of
two_admins-IsKeyed = record {
  single = λ w u. ground arith;
  drawn = λ m i. elim i [
    | Memᴰ.head e ↦ ground (arith, ap (λ (x : Member). x.user) e)
    | Memᴰ.tail j ↦ elim j [
      | Memᴰ.head e ↦ ground (arith, ap (λ (x : Member). x.user) e)
      | Memᴰ.tail k ↦ elim k [ ]
    ]
  ];
}

two_admins-some : 1 ≤ admin_count 7 two_admins
unfolding admin_count is_admin is_admin_role text_eq
two_admins-some = omega arith

abbrev demotions : List Request
demotions =
    updates 1 none (some (codes "viewer")) ∷ updates 2 none (some (codes "viewer")) ∷ deletes 2 ∷ []

handle_all-admin_example : 1 ≤ admin_count 7 (handle_all (λ p. some p) 7 demotions two_admins)
handle_all-admin_example =
    handle_all-admin (λ p. some p) 7 demotions two_admins two_admins-IsKeyed two_admins-some

-- Two demotions whose guards both read the state before either writes leave no admin.
both_pass :
    (refuses_role 7 (codes "admin") (codes "viewer") two_admins ≡ none)
    × (refuses_role 7 (codes "owner") (codes "viewer") two_admins ≡ none)
unfolding refuses_role text_eq admin_count is_admin is_admin_role
both_pass = (refl, refl)

none_left :
    admin_count 7 (write_role 7 2 (codes "viewer") (write_role 7 1 (codes "viewer") two_admins)) ≡ 0
unfolding write_role text_eq admin_count is_admin member_of is_admin_role
none_left = refl

abbrev calls : List Call
calls = fails (codes "ip|a") 20 ∷ resets (codes "ip|b") ∷ fails (codes "ip|a") 10 ∷ []

allowed-recent_example :
    (allowed (codes "ip|a") 30 (after_calls calls)).0
    ≡ ltb (recent_failures (codes "ip|a") 30 calls) 10
allowed-recent_example = allowed-recent calls (codes "ip|a") 30 (omega arith, (omega arith, tt))
