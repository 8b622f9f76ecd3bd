-- ===== src/Auth/Users.antt =====
-- The user management of src/lib/auth.ts. `hash` is `hashPassword` with the salt of the call, and
-- `verify` is `verifyPassword`: both rest on scrypt, which is not part of the program.
use omni_mission_control.Prelude.{
  ℕ, ◌+◌, ◌≡◌, ◌↔◌, ◌≢◌, inl, inr, Bool, true, false, not, Option, none, some, List, [], ◌∷◌, ◌++◌,
  String, arith, ltb, ◌==◌, str_eq, if◌then◌else◌, any, filter, find?, is_some, get_or,
  Option-cases, truthy, js_length, Result, ok, throw,
}
use omni_mission_control.Auth.{
  Role, Provider, local, google, User, UserRow, AuthDb, or_else, get_default_workspace_id,
  find_user, update_user_row, destroy_all_user_sessions, validate_session,
}
use omni_mission_control.Auth.Sessions.{validate_session-destroy_all}

pub record CreateUserOptions : Type 0 where
  pub provider : Option Provider
  pub email : Option String
  pub avatar_url : Option String
  pub is_approved : Option ℕ
  pub workspace_id : Option ℕ

-- A field that is absent is `undefined`; `null` is a value of the last two texts.
pub record UserUpdates : Type 0 where
  pub display_name : Option String
  pub role : Option Role
  pub password : Option String
  pub email : Option (Option String)
  pub avatar_url : Option (Option String)
  pub is_approved : Option ℕ

abbrev is_local : Provider → Bool
is_local local = true
is_local google = false

abbrev pub find_username : String → List UserRow → Option UserRow
find_username name = find? (λ u. str_eq u.username name)

-- `SELECT … WHERE id = ?` without the hash.
unfoldable pub get_user_by_id : ℕ → AuthDb → Option User
get_user_by_id id db = elim (find_user id db.users) [ none ↦ none | some u ↦ some u.user ]

unfoldable pub authenticate_user : (String → String → Bool) → String → String → AuthDb → Option User
unfolding get_default_workspace_id
authenticate_user verify username password db = elim (find_username username db.users) [
  | none ↦ none
  | some u ↦
      if not (is_local (get_or u.provider local))
      then none
      else if not (get_or u.is_approved 1 == 1)
      then none
      else if not (verify password u.password_hash)
      then none
      else some (record (u.user) {
        workspace_id = or_else u.workspace_id (get_default_workspace_id db);
        provider = some (get_or u.provider local);
        is_approved = some (get_or u.is_approved 1);
      })
]

-- The message of the constraint on the column `username`.
abbrev pub taken : String
taken = "UNIQUE constraint failed: users.username"

-- `role` is the argument with its default 'operator' put in; `now` is the default of the columns
-- `created_at` and `updated_at`.
unfoldable pub create_user :
    (String → String)
    → ℕ
    → String
    → String
    → String
    → Role
    → CreateUserOptions
    → AuthDb
    → Result (AuthDb × User)
unfolding get_default_workspace_id
create_user hash now username password display_name role o db =
    let u : User = record {
      id = db.next_user;
      username = username;
      display_name = display_name;
      role = role;
      workspace_id = or_else (get_or o.workspace_id 0) (get_default_workspace_id db);
      provider = some (get_or o.provider local);
      email = truthy o.email;
      avatar_url = truthy o.avatar_url;
      is_approved = some (get_or o.is_approved 1);
      created_at = now;
      updated_at = now;
      last_login_at = none;
    } in
    if ltb (js_length password) 12
    then throw "Password must be at least 12 characters"
    else if is_some (find_username username db.users)
    then throw taken
    else ok (
      record db {
        users = db.users ++ record { user = u; password_hash = hash password } ∷ [];
        next_user = db.next_user + 1;
      },
      u,
    )

abbrev no_updates : UserUpdates → Bool
no_updates x = not (
    any (λ b. b)
      (is_some x.display_name
        ∷ is_some x.role
        ∷ is_some x.password
        ∷ is_some x.email
        ∷ is_some x.avatar_url
        ∷ is_some x.is_approved
        ∷ []))

abbrev new_hash : (String → String) → Option String → String → String
new_hash hash none old = old
new_hash hash (some password) old = hash password

abbrev new_approval : Option ℕ → Option ℕ → Option ℕ
new_approval none old = old
new_approval (some n) old = some n

-- The row after the `UPDATE` with the given fields.
abbrev pub updated : (String → String) → ℕ → UserUpdates → UserRow → UserRow
updated hash now x u = record u {
  user = record (u.user) {
    display_name = get_or x.display_name u.display_name;
    role = get_or x.role u.role;
    email = get_or x.email u.email;
    avatar_url = get_or x.avatar_url u.avatar_url;
    is_approved = new_approval x.is_approved u.is_approved;
    updated_at = now;
  };
  password_hash = new_hash hash x.password u.password_hash;
}

unfoldable pub update_user : (String → String) → ℕ → ℕ → UserUpdates → AuthDb → AuthDb × Option User
unfolding get_user_by_id
update_user hash now id x db =
    let db' : AuthDb = record db { users = update_user_row id (updated hash now x) db.users } in
    if no_updates x then (db, get_user_by_id id db) else (db', get_user_by_id id db')

unfoldable pub delete_user : ℕ → AuthDb → AuthDb × Bool
unfolding destroy_all_user_sessions
delete_user id db =
    let db' = destroy_all_user_sessions id db in
    (
      record db' { users = filter (λ u. not (u.id == id)) db'.users },
      is_some (find_user id db.users),
    )

-- A user is authenticated exactly if the row of that name is a local account, is approved and has a
-- hash that the password verifies against.
pub authenticate_user-some_iff :
    (verify : String → String → Bool) (username password : String) (db : AuthDb)
    → (authenticate_user verify username password db ≢ none) ↔ (
        (row : UserRow) × (find_username username db.users ≡ some row)
        × (get_or row.provider local ≡ local)
        × (get_or row.is_approved 1 ≡ 1)
        × (verify password row.password_hash ≡ true))
unfolding authenticate_user
authenticate_user-some_iff verify username password db =
    elim (Option-cases (find_username username db.users)) [
      | inl e ↦ (λ h. absurd (h (ground arith)), λ r. ground arith)
      | inr (row, e) ↦ (λ h. (row, e, ground arith, ground arith, ground arith), λ r. ground arith)
    ]

-- After `deleteUser` no token shows the user, whatever sessions were open.
pub delete_user-no_session :
    (id : ℕ) (t : String) (now : ℕ) (db : AuthDb) (u : User) (sid : ℕ)
    → validate_session t now (delete_user id db).0 ≡ some (u, sid)
    → u.id ≢ id
unfolding delete_user destroy_all_user_sessions
delete_user-no_session id t now db u sid h =
    validate_session-destroy_all t id now
      (record db { users = filter (λ r. not (r.id == id)) db.users }) u sid h
