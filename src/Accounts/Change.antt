-- ===== src/Accounts/Change.antt =====
-- The handlers PUT and DELETE of src/app/api/auth/users/route.ts.
use omni_mission_control.Prelude.{
  ℕ, ◌==◌, Bool, true, false, not, ◌&&◌, ◌||◌, Option, none, some, String, str_eq, if◌then◌else◌,
  truthy, is_some, ℤ, pos, negsuc, parse_int,
}
use omni_mission_control.Auth.{Role, User, AuthDb, get_user_from_request}
use omni_mission_control.Auth.Users.{UserUpdates, get_user_by_id, update_user, delete_user}
use omni_mission_control.Accounts.{
  Site, Sender, Answer, fails, shows, success, for_admin, same_role, log_audit,
}
use omni_mission_control.Accounts.{answered}
use omni_mission_control.Auth.{nameless, viewer, operator, admin}
use omni_mission_control.Prelude.{get_or}

-- The value of `id` in a body: a number is an integer.
pub data JsonId : Type 0 where
  absent : JsonId
  number : ℤ → JsonId
  text : String → JsonId

abbrev pub is_zero : ℤ → Bool
is_zero (pos n) = n == 0
is_zero (negsuc n) = false

-- `!id`
abbrev pub is_falsy : JsonId → Bool
is_falsy absent = true
is_falsy (number n) = is_zero n
is_falsy (text s) = str_eq s ""

-- `parseInt`, where `none` is NaN.
unfoldable pub parsed_id : JsonId → Option ℤ
unfolding parse_int
parsed_id absent = none
parsed_id (number n) = some n
parsed_id (text s) = parse_int s

-- No row has an id below 0, and none has NaN.
abbrev pub as_row_id : Option ℤ → Option ℕ
as_row_id (some (pos n)) = some n
as_row_id _ = none

abbrev pub is_own : Option ℤ → User → Bool
is_own (some (pos n)) u = n == u.id
is_own _ u = false

-- `existing` of the handlers, if it is in the workspace.
unfoldable pub user_in_reach : Option ℤ → User → AuthDb → Option User
unfolding get_user_by_id
user_in_reach none u db = none
user_in_reach (some (negsuc n)) u db = none
user_in_reach (some (pos n)) u db = elim (get_user_by_id n db) [
  | none ↦ none
  | some v ↦ if v.workspace_id == u.workspace_id then some v else none
]

-- The role in a body: left out, `null`, or a text.
pub data RoleField : Type 0 where
  unsaid : RoleField
  null : RoleField
  written : String → RoleField

-- `['admin', 'operator', 'viewer'].includes(role)`, with the role that is meant.
abbrev pub role_named : String → Option Role
role_named s =
    if str_eq s "admin"
    then some admin
    else if str_eq s "operator"
    then some operator
    else if str_eq s "viewer"
    then some viewer
    else none

-- Only a role that is not empty is checked.
abbrev pub is_unknown : RoleField → Bool
is_unknown (written s) = not (str_eq s "") && not (is_some (role_named s))
is_unknown _ = false

abbrev pub same_as : Option Role → Role → Bool
same_as none role = false
same_as (some r) role = same_role r role

-- `role && role !== currentUser.role`
abbrev pub is_other : RoleField → Role → Bool
is_other (written s) role = not (str_eq s "") && not (same_as (role_named s) role)
is_other _ role = false

-- The role that is written, behind the checks.
abbrev pub written_role : RoleField → Option Role
written_role (written s) = some (get_or (role_named s) nameless)
written_role _ = none

abbrev pub is_emptied : RoleField → Bool
is_emptied (written s) = str_eq s ""
is_emptied _ = false

-- The column is NOT NULL, and SQLite refuses the update.
abbrev pub breaks_row : RoleField → Bool
breaks_row null = true
breaks_row _ = false

-- The fields of a PUT; `null` is a value of the last two.
pub record Changes : Type 0 where
  pub id : JsonId
  pub display_name : Option String
  pub role : RoleField
  pub password : Option String
  pub is_approved : Option ℕ
  pub email : Option (Option String)
  pub avatar_url : Option (Option String)

abbrev pub updates_of : Changes → UserUpdates
updates_of b = record {
  display_name = b.display_name;
  role = written_role b.role;
  password = truthy b.password;
  email = b.email;
  avatar_url = b.avatar_url;
  is_approved = b.is_approved;
}

abbrev pub after_update : ℕ → Sender → User → Site → AuthDb × Option User → Site × Answer
after_update id r u s (db, none) = (record s { auth = db }, fails 404 "User not found")
after_update id r u s (db, some v) =
    (log_audit "user_update" u id r (record s { auth = db }), shows 200 (answered v))

unfoldable pub change_found :
    (String → String) → Sender → ℕ → Changes → User → Site → Option User → Site × Answer
unfolding update_user
change_found hash r now b u s none = (s, fails 404 "User not found")
change_found hash r now b u s (some v) =
    let changed = after_update v.id r u s (update_user hash now v.id (updates_of b) s.auth) in
    if breaks_row b.role then (s, fails 500 "Failed to update user") else changed

unfoldable pub change_for : (String → String) → Sender → ℕ → Changes → User → Site → Site × Answer
unfolding user_in_reach change_found parsed_id
change_for hash r now b u s =
    let id = parsed_id b.id in
    let change = change_found hash r now b u s (user_in_reach id u s.auth) in
    if is_falsy b.id || not (is_some id)
    then (s, fails 400 "User ID is required")
    else if is_unknown b.role
    then (s, fails 400 "Invalid role")
    else if is_own id u && is_other b.role u.role
    then (s, fails 400 "Cannot change your own role")
    else change

unfoldable pub put_user :
    Option String → (String → String) → Sender → ℕ → Changes → Site → Site × Answer
unfolding get_user_from_request change_for
put_user env hash r now b s =
    for_admin (get_user_from_request env r.credentials now s.auth) (change_for hash r now b) s

abbrev pub after_delete : ℕ → Sender → User → Site → AuthDb × Bool → Site × Answer
after_delete id r u s (db, done) =
    if done
    then (log_audit "user_delete" u id r (record s { auth = db }), success)
    else (record s { auth = db }, fails 404 "User not found")

unfoldable pub delete_found : Sender → User → Site → Option User → Site × Answer
unfolding delete_user
delete_found r u s none = (s, fails 404 "User not found")
delete_found r u s (some v) = after_delete v.id r u s (delete_user v.id s.auth)

unfoldable pub delete_for : Sender → JsonId → User → Site → Site × Answer
unfolding user_in_reach delete_found parsed_id
delete_for r id u s =
    let gone = delete_found r u s (user_in_reach (parsed_id id) u s.auth) in
    if is_falsy id
    then (s, fails 400 "User ID is required")
    else if is_own (parsed_id id) u
    then (s, fails 400 "Cannot delete your own account")
    else gone

-- A body of `none` is one that is not JSON.
unfoldable pub delete_body : Sender → Option JsonId → User → Site → Site × Answer
unfolding delete_for
delete_body r none u s = (s, fails 400 "Request body required")
delete_body r (some id) u s = delete_for r id u s

unfoldable pub delete_account : Option String → Sender → ℕ → Option JsonId → Site → Site × Answer
unfolding get_user_from_request delete_body
delete_account env r now body s =
    for_admin (get_user_from_request env r.credentials now s.auth) (delete_body r body) s
