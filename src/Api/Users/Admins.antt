-- ===== src/Api/Users/Admins.antt =====
-- A workspace that has an admin keeps one, whatever its users' management does.
use oarlock.Prelude.{ℕ, ◌≤◌, Text, Option, List, [], ◌∷◌}
use oarlock.Api.Users.Keeps.{
  IsKeyed, Kept, create_user-Kept, update_user-Kept, delete_user-Kept, reset_user_password-Kept,
}
use oarlock.Api.Users.{
  Accounts, admin_count, update_user, delete_user, reset_user_password, create_user,
}

-- A request of the workspace's admins.
pub data Request : Type 0 where
  creates : Text → Text → Text → Text → Request
  updates : ℕ → Option Text → Option Text → Request
  deletes : ℕ → Request
  resets : ℕ → Text → Request

abbrev pub handle : (Text → Option Text) → ℕ → Request → Accounts → Accounts
handle hash w (creates email name password role) a =
    (create_user hash w email name password role a).0
handle hash w (updates id name role) a = (update_user w id name role a).0
handle hash w (deletes id) a = (delete_user w id a).0
handle hash w (resets id password) a = (reset_user_password hash w id password a).0

abbrev pub handle_all : (Text → Option Text) → ℕ → List Request → Accounts → Accounts
handle_all hash w [] a = a
handle_all hash w (r ∷ rs) a = handle_all hash w rs (handle hash w r a)

handle-Kept :
    (hash : Text → Option Text) (w : ℕ) (r : Request) (a : Accounts)
    → IsKeyed a
    → Kept w a (handle hash w r a)
handle-Kept hash w (creates email name password role) a k =
    create_user-Kept w a k hash email name password role
handle-Kept hash w (updates id name role) a k = update_user-Kept w a k id name role
handle-Kept hash w (deletes id) a k = delete_user-Kept w a k id
handle-Kept hash w (resets id password) a k = reset_user_password-Kept w a k hash id password

-- Where memberships are keyed by workspace and user, and the workspace has an owner or an admin, it
-- still has one after any requests of its admins that create, update, delete users or reset their
-- passwords, handled one after the other.
pub handle_all-admin :
    (hash : Text → Option Text) (w : ℕ) (rs : List Request) (a : Accounts)
    → IsKeyed a
    → 1 ≤ admin_count w a
    → 1 ≤ admin_count w (handle_all hash w rs a)
handle_all-admin hash w [] a k h = h
handle_all-admin hash w (r ∷ rs) a k h =
    let (k', keeps) = handle-Kept hash w r a k in
    handle_all-admin hash w rs (handle hash w r a) k' (keeps h)
