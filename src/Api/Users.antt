-- ===== src/Api/Users.antt =====
-- engine/internal/api/users.go: the management of a workspace's users by its admins.
pub mod Keeps
pub mod Admins
use oarlock.Prelude.{
  ℕ, suc, ◌≡◌, Text, text_eq, codes, Bool, true, false, not, ◌&&◌, ◌||◌, Option, none, some, List,
  [], ◌∷◌, ltb, leb, ◌==◌, if◌then◌else◌, length, count_if, trim_space,
}
use oarlock.Prelude.Tables.{find, update, delete, any_row}

pub record User : Type 0 where
  pub id : ℕ
  pub email : Text
  pub name : Text
  pub password_hash : Option Text
  pub must_change_password : Bool

pub record Member : Type 0 where
  pub workspace : ℕ
  pub user : ℕ
  pub role : Text

-- A row of `sessions`: the hash of its token, its user and when it expires.
pub record Session : Type 0 where
  pub token : Text
  pub user : ℕ
  pub expires_at : ℕ

-- The tables `users`, `workspace_members` and `sessions`. Rows stand with the newest first.
pub record Accounts : Type 0 where
  pub users : List User
  pub members : List Member
  pub sessions : List Session
  pub next_id : ℕ

-- The response: its status, with the id of the body or the message of the error. The message of
-- `email_taken` quotes the address.
pub data Reply : Type 0 where
  ok_id created_id : ℕ → Reply
  no_content internal_error : Reply
  email_taken : Text → Reply
  unprocessable not_found conflict : Text → Reply

abbrev pub min_password_len : ℕ
min_password_len = 8

unfoldable pub allowed_role : Text → Bool
unfolding text_eq
allowed_role role =
    text_eq role (codes "admin") || (text_eq role (codes "editor") || text_eq role (codes "viewer"))

unfoldable pub is_admin_role : Text → Bool
unfolding text_eq
is_admin_role role = text_eq role (codes "owner") || text_eq role (codes "admin")

-- `workspace_id = $1 and role in ('owner','admin')`.
unfoldable pub is_admin : ℕ → Member → Bool
is_admin workspace m = m.workspace == workspace && is_admin_role m.role

unfoldable pub admin_count : ℕ → Accounts → ℕ
admin_count workspace a = count_if (is_admin workspace) a.members

-- `workspace_id = $1 and user_id = $2`.
unfoldable pub member_of : ℕ → ℕ → Member → Bool
member_of workspace user m = m.workspace == workspace && m.user == user

unfoldable pub member_role : ℕ → ℕ → Accounts → Option Text
unfolding find
member_role workspace user a = elim (find (member_of workspace user) a.members) [
  | none ↦ none
  | some m ↦ some m.role
]

abbrev user_not_found : Reply
user_not_found = not_found (codes "user not found")

abbrev bad_role : Reply
bad_role = unprocessable (codes "role must be admin, editor, or viewer")

abbrev pub with_id : ℕ → User → Bool
with_id id u = u.id == id

abbrev pub has_email : Text → User → Bool
has_email email u = text_eq u.email email

abbrev pub session_of : ℕ → Session → Bool
session_of user s = s.user == user

-- `password must be at least … characters`.
abbrev pub short_password : Reply
short_password = unprocessable (codes "password must be at least 8 characters")

-- What the guards of the new role say: the reply of the one that refuses it.
unfoldable pub refuses_role : ℕ → Text → Text → Accounts → Option Reply
unfolding allowed_role
refuses_role workspace current role a =
    if not (allowed_role role)
    then some bad_role
    else if is_admin_role current && not (is_admin_role role) && leb (admin_count workspace a) 1
    then some (conflict (codes "cannot demote the last admin"))
    else none

abbrev pub set_role : Text → Member → Member
set_role role m = record m { role = role }

abbrev set_password : Text → User → User
set_password hashed u = record u { password_hash = some hashed; must_change_password = true }

abbrev rename : Text → User → User
rename name u = record u { name = name }

unfoldable pub write_role : ℕ → ℕ → Text → Accounts → Accounts
unfolding update
write_role workspace id role a = record a {
  members = update (member_of workspace id) (set_role role) a.members;
}

unfoldable pub write_name : ℕ → Option Text → Accounts → Accounts
unfolding update trim_space
write_name id none a = a
write_name id (some name) a = record a {
  users = update (with_id id) (rename (trim_space name)) a.users;
}

-- A role that is given and differs from the current one is guarded and written.
unfoldable pub change_role : ℕ → ℕ → Text → Option Text → Accounts → Option Reply × Accounts
unfolding refuses_role write_role text_eq
change_role workspace id current none a = (none, a)
change_role workspace id current (some role) a =
    if text_eq role current then (none, a) else elim (refuses_role workspace current role a) [
      | some reply ↦ (some reply, a)
      | none ↦ (none, write_role workspace id role a)
    ]

-- The request of an admin of the workspace.
unfoldable pub update_user : ℕ → ℕ → Option Text → Option Text → Accounts → Accounts × Reply
unfolding member_role change_role write_name
update_user workspace id name role a = elim (member_role workspace id a) [
  | none ↦ (a, user_not_found)
  | some current ↦
      let (refused, a') = change_role workspace id current role a in
      elim refused [ some reply ↦ (a', reply) | none ↦ (write_name id name a', ok_id id) ]
]

-- `delete from users`: sessions and memberships cascade.
unfoldable pub remove_user : ℕ → Accounts → Accounts
unfolding delete
remove_user id a = record a {
  users = delete (with_id id) a.users;
  members = delete (λ m. m.user == id) a.members;
  sessions = delete (session_of id) a.sessions;
}

unfoldable pub delete_user : ℕ → ℕ → Accounts → Accounts × Reply
unfolding member_role remove_user
delete_user workspace id a = elim (member_role workspace id a) [
  | none ↦ (a, user_not_found)
  | some role ↦
      if is_admin_role role && leb (admin_count workspace a) 1
      then (a, conflict (codes "cannot delete the last admin"))
      else (remove_user id a, no_content)
]

-- `hash` is `hashPassword`, which may fail.
unfoldable pub reset_user_password :
    (Text → Option Text) → ℕ → ℕ → Text → Accounts → Accounts × Reply
unfolding member_role update delete
reset_user_password hash workspace id password a =
    if ltb (length password) min_password_len
    then (a, short_password)
    else elim (member_role workspace id a) [
      | none ↦ (a, user_not_found)
      | some role ↦ elim (hash password) [
        | none ↦ (a, internal_error)
        | some hashed ↦ (
          record a {
            users = update (with_id id) (set_password hashed) a.users;
            sessions = delete (session_of id) a.sessions;
          },
          ok_id id,
        )
      ]
    ]

-- The insert of a user and its membership, in one transaction.
unfoldable pub insert_user : ℕ → Text → Text → Text → Text → Accounts → Accounts
unfolding trim_space
insert_user workspace email name hashed role a = record a {
  users =
      record {
        id = a.next_id;
        email = email;
        name = trim_space name;
        password_hash = some hashed;
        must_change_password = true;
      }
      ∷ a.users;
  members = record { workspace = workspace; user = a.next_id; role = role } ∷ a.members;
  next_id = suc a.next_id;
}

-- What the guards of the new user say: the reply of the first that refuses it.
unfoldable pub refuses_user : Text → Text → Text → Option Reply
unfolding allowed_role any_row text_eq
refuses_user email password role =
    if text_eq email [] || not (any_row (λ b. b == b'@') email)
    then some (unprocessable (codes "a valid email is required"))
    else if ltb (length password) min_password_len
    then some short_password
    else if not (allowed_role role)
    then some bad_role
    else none

-- The e-mail address is the one that is stored: trimmed and in lower case.
unfoldable pub create_user :
    (Text → Option Text) → ℕ → Text → Text → Text → Text → Accounts → Accounts × Reply
unfolding refuses_user any_row text_eq insert_user
create_user hash workspace email name password role a = elim (refuses_user email password role) [
  | some reply ↦ (a, reply)
  | none ↦ elim (hash password) [
    | none ↦ (a, internal_error)
    | some hashed ↦
        if any_row (has_email email) a.users
        then (a, email_taken email)
        else (insert_user workspace email name hashed role a, created_id a.next_id)
  ]
]
