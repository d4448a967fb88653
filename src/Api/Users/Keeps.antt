-- ===== src/Api/Users/Keeps.antt =====
-- What each operation on users keeps: the keys of the memberships, and an admin.
use mathlib.Core.List.Memᴰ
use oarlock.Prelude.{
  ℕ, ◌≤◌, ◌<◌, ◌≡◌, refl, ap, subst, inl, inr, Text, text_eq, false, ◌&&◌, Option, none, some, List,
  Memᴰ, arith, leb, ltb, ◌==◌, ==_iff, length, count_if, Bool-cases, Option-cases,
}
use oarlock.Prelude.Tables.{find, any_row, update-from}
use oarlock.Prelude.Counts.{
  count_if-update, count_if-delete, update-gains, count_if-update_same, count_if-delete_le,
  count_if-none, delete-Mem,
}
use oarlock.Api.Users.{
  User, Member, Session, Accounts, is_admin_role, is_admin, admin_count, member_of, member_role,
  refuses_role, set_role, write_role, write_name, change_role, update_user, remove_user,
  delete_user, reset_user_password, insert_user, refuses_user, has_email, create_user,
}

-- The primary key of the memberships, and ids of users that have been drawn.
pub record IsKeyed (a : Accounts) : Type 0 where
  pub single : (w u : ℕ) → count_if (member_of w u) a.members ≤ 1
  pub drawn : (m : Member) → Memᴰ m a.members → m.user < a.next_id

-- The state is keyed, and if the workspace had an admin, it has one.
abbrev pub Kept : ℕ → Accounts → Accounts → Type 0
Kept w a a' = IsKeyed a' × (1 ≤ admin_count w a → 1 ≤ admin_count w a')

module _ (w : ℕ) (a : Accounts) (keyed : IsKeyed a) where
  -- Only the users and the sessions change.
  users-Kept :
      (us : List User) (ss : List Session) → Kept w a (record a { users = us; sessions = ss })
  unfolding admin_count
  users-Kept us ss = (record { single = keyed.single; drawn = keyed.drawn }, λ h. h)

  same-Kept : Kept w a a
  same-Kept = (keyed, λ h. h)

  write_role-IsKeyed : (id : ℕ) (role : Text) → IsKeyed (write_role w id role a)
  unfolding write_role member_of
  write_role-IsKeyed id role = record {
    single = λ v u.
        let same =
          count_if-update_same (member_of v u) (member_of w id) (set_role role) a.members
            (λ x q. refl) in
        let bound = keyed.single v u in omega arith;
    drawn = λ m i.
        let (x, i', e) = update-from (member_of w id) (set_role role) a.members i in
        let bound = keyed.drawn x i' in ground (arith, ap (λ (y : Member). y.user) e);
  }

  remove_user-IsKeyed : (id : ℕ) → IsKeyed (remove_user id a)
  unfolding remove_user
  remove_user-IsKeyed id = record {
    single = λ v u.
        let fewer = count_if-delete_le (member_of v u) (λ m. m.user == id) a.members in
        let bound = keyed.single v u in omega arith;
    drawn = λ m i. keyed.drawn m (delete-Mem (λ (x : Member). x.user == id) a.members i);
  }

  unseen : (v : ℕ) → count_if (member_of v a.next_id) a.members ≡ 0
  unfolding member_of
  unseen v =
      count_if-none (member_of v a.next_id) a.members
        (λ m i. let bound = keyed.drawn m i in ground arith)

  insert_user-IsKeyed :
      (email name hashed role : Text) → IsKeyed (insert_user w email name hashed role a)
  unfolding insert_user member_of
  insert_user-IsKeyed email name hashed role = record {
    single = λ v u. elim (Bool-cases (a.next_id == u)) [
      | inl e ↦
          let same : a.next_id ≡ u = (==_iff a.next_id u).0 e in
          let none' = subst (λ n. count_if (member_of v n) a.members ≡ 0) same (unseen v) in
          ground arith
      | inr e ↦ let bound = keyed.single v u in ground arith
    ];
    drawn = λ m i. elim (Memᴰ.cases_cons i) [
      | inl e ↦ ground (arith, ap (λ (x : Member). x.user) e)
      | inr i' ↦ let bound = keyed.drawn m i' in omega arith
    ];
  }

  insert_user-Kept :
      (email name hashed role : Text) → Kept w a (insert_user w email name hashed role a)
  unfolding insert_user admin_count
  insert_user-Kept email name hashed role =
      (insert_user-IsKeyed email name hashed role, λ h. ground arith)

  -- The found member's role is the current one.
  member_role-found :
      (id : ℕ) {role : Text}
      → member_role w id a ≡ some role
      → (m : Member) × (find (member_of w id) a.members ≡ some m) × (m.role ≡ role)
  unfolding member_role
  member_role-found id e = elim (Option-cases (find (member_of w id) a.members)) [
    | inl q ↦ absurd (ground arith)
    | inr (m, q) ↦ (m, q, ground arith)
  ]

  one_left :
      (id : ℕ) (role : Text)
      → member_role w id a ≡ some role
      → (is_admin_role role && leb (admin_count w a) 1) ≡ false
      → 1 ≤ admin_count w a
      → 1 ≤ admin_count w (remove_user id a)
  unfolding admin_count remove_user is_admin member_of
  one_left id role e g h =
      let (m, q, r) = member_role-found id e in
      let loses =
        count_if-delete (is_admin w) (λ x. x.user == id) (member_of w id) a.members
          (λ x p d. ground arith) q (keyed.single w id) in
      ground (arith, ap is_admin_role r)

  pub delete_user-Kept : (id : ℕ) → Kept w a (delete_user w id a).0
  unfolding delete_user
  delete_user-Kept id = elim (Option-cases (member_role w id a)) [
    | inl e ↦ rw (e, delete_user) same-Kept
    | inr (role, e) ↦ elim (Bool-cases (is_admin_role role && leb (admin_count w a) 1)) [
      | inl g ↦ rw (e, g, delete_user) same-Kept
      | inr g ↦ rw (e, g, delete_user) (remove_user-IsKeyed id, λ h. one_left id role e g h)
    ]
  ]

  -- A role that the guards let pass leaves an admin.
  write_role-admin :
      (id : ℕ) (current role : Text)
      → member_role w id a ≡ some current
      → refuses_role w current role a ≡ none
      → 1 ≤ admin_count w a
      → 1 ≤ admin_count w (write_role w id role a)
  unfolding admin_count write_role is_admin member_of refuses_role
  write_role-admin id current role e passed h = elim (Bool-cases (is_admin_role role)) [
    | inl t ↦
        let gains =
          update-gains (is_admin w) (member_of w id) (set_role role) a.members
            (λ x q. ground arith) in
        omega arith
    | inr f ↦
        let (m, q, r) = member_role-found id e in
        let loses =
          count_if-update (is_admin w) (member_of w id) (set_role role) a.members q
            (keyed.single w id) in
        ground (arith, ap is_admin_role r)
  ]

  change_role-Kept :
      (id : ℕ) (current : Text) (role : Option Text)
      → member_role w id a ≡ some current
      → Kept w a (change_role w id current role a).1
  unfolding change_role
  change_role-Kept id current none e = same-Kept
  change_role-Kept id current (some role) e = elim (Bool-cases (text_eq role current)) [
    | inl t ↦ rw (t, change_role) same-Kept
    | inr t ↦ elim (Option-cases (refuses_role w current role a)) [
      | inr (reply, r) ↦ rw (t, r, change_role) same-Kept
      | inl r ↦
          rw (t, r, change_role)
            (write_role-IsKeyed id role, λ h. write_role-admin id current role e r h)
    ]
  ]

  write_name-Kept :
      (id : ℕ) (name : Option Text) (a' : Accounts) → Kept w a a' → Kept w a (write_name id name a')
  unfolding write_name admin_count
  write_name-Kept id none a' k = k
  write_name-Kept id (some name) a' (k, h) = (record { single = k.single; drawn = k.drawn }, h)

  pub update_user-Kept :
      (id : ℕ) (name role : Option Text) → Kept w a (update_user w id name role a).0
  unfolding update_user
  update_user-Kept id name role = elim (Option-cases (member_role w id a)) [
    | inl e ↦ rw (e, update_user) same-Kept
    | inr (current, e) ↦
        let kept = change_role-Kept id current role e in
        elim (Option-cases (change_role w id current role a).0) [
          | inl f ↦ rw (e, f, update_user) (write_name-Kept id name _ kept)
          | inr (reply, f) ↦ rw (e, f, update_user) kept
        ]
  ]

  pub reset_user_password-Kept :
      (hash : Text → Option Text) (id : ℕ) (password : Text)
      → Kept w a (reset_user_password hash w id password a).0
  unfolding reset_user_password
  reset_user_password-Kept hash id password = elim (Bool-cases (ltb (length password) 8)) [
    | inl e ↦ rw (e, reset_user_password) same-Kept
    | inr e ↦ elim (Option-cases (member_role w id a)) [
      | inl f ↦ rw (e, f, reset_user_password) same-Kept
      | inr (role, f) ↦ elim (Option-cases (hash password)) [
        | inl g ↦ rw (e, f, g, reset_user_password) same-Kept
        | inr (hashed, g) ↦ rw (e, f, g, reset_user_password) (users-Kept _ _)
      ]
    ]
  ]

  pub create_user-Kept :
      (hash : Text → Option Text) (email name password role : Text)
      → Kept w a (create_user hash w email name password role a).0
  unfolding create_user
  create_user-Kept hash email name password role =
      elim (Option-cases (refuses_user email password role)) [
        | inr (reply, e) ↦ rw (e, create_user) same-Kept
        | inl e ↦ elim (Option-cases (hash password)) [
          | inl f ↦ rw (e, f, create_user) same-Kept
          | inr (hashed, f) ↦ elim (Bool-cases (any_row (has_email email) a.users)) [
            | inl g ↦ rw (e, f, g, create_user) same-Kept
            | inr g ↦ rw (e, f, g, create_user) (insert_user-Kept email name hashed role)
          ]
        ]
      ]
