-- ===== src/Auth.antt =====
-- src/lib/auth.ts: users, sessions and the role check. A SQLite table is a list of rows in order of
-- insertion; `Math.floor(Date.now() / 1000)`, a random token and the environment are arguments.
pub mod Sessions
pub mod Users
pub mod Access
mod Tests
use Prim.Native.String.{len}
use omni_mission_control.Prelude.{
  ℕ, ◌+◌, ◌*◌, Bool, true, false, not, ◌&&◌, Option, none, some, List, [], ◌∷◌, ◌++◌, String, map,
  filter, find?, ltb, ◌==◌, str_eq, if◌then◌else◌, is_some, get_or, truthy, str_or,
}

-- `nameless` is a role that is the empty text, which a PUT of the users may write.
pub data Role : Type 0 where
  nameless viewer operator admin : Role

pub data Provider : Type 0 where
  local google : Provider

pub record User : Type 0 where
  pub id : ℕ
  pub username : String
  pub display_name : String
  pub role : Role
  pub workspace_id : ℕ
  pub provider : Option Provider
  pub email : Option String
  pub avatar_url : Option String
  pub is_approved : Option ℕ
  pub created_at : ℕ
  pub updated_at : ℕ
  pub last_login_at : Option ℕ

-- A row of `users`: the columns that `User` shows, and the hash.
pub record UserRow : Type 0 where
  pub user : User
  pub open user use *
  pub password_hash : String

pub record UserSession : Type 0 where
  pub id : ℕ
  pub token : String
  pub user_id : ℕ
  pub workspace_id : ℕ
  pub expires_at : ℕ
  pub ip_address : Option String
  pub user_agent : Option String

-- `default_workspace` is the id of the row of `workspaces` whose slug is 'default'.
pub record AuthDb : Type 0 where
  pub users : List UserRow
  pub user_sessions : List UserSession
  pub next_session : ℕ
  pub next_user : ℕ
  pub default_workspace : Option ℕ

-- `n || d` on numbers
abbrev pub or_else : ℕ → ℕ → ℕ
or_else n d = if n == 0 then d else n

unfoldable pub get_default_workspace_id : AuthDb → ℕ
get_default_workspace_id db = or_else (get_or db.default_workspace 0) 1

-- The comparison is of the bytes of UTF-8; its timing is not modelled.
unfoldable pub safe_compare : String → String → Bool
safe_compare a b = if len a == len b then str_eq a b else false

abbrev pub session_duration : ℕ
session_duration = 7 * 24 * 60 * 60

-- The first row with an id, as `WHERE id = ?` gives it.
abbrev pub find_user : ℕ → List UserRow → Option UserRow
find_user id = find? (λ u. u.id == id)

-- `UPDATE users SET … WHERE id = ?`
abbrev pub update_user_row : ℕ → (UserRow → UserRow) → List UserRow → List UserRow
update_user_row id f = map (λ u. if u.id == id then f u else u)

abbrev pub touch_login : ℕ → UserRow → UserRow
touch_login now u = record u {
  user = record (u.user) { last_login_at = some now; updated_at = now };
}

abbrev pub session_workspace : AuthDb → ℕ → Option ℕ → ℕ
session_workspace db user_id (some w) = w
session_workspace db user_id none = elim (find_user user_id db.users) [
  | none ↦ get_default_workspace_id db
  | some u ↦ or_else u.workspace_id (get_default_workspace_id db)
]

-- Inserts the session, stamps the login and deletes the sessions that have expired.
unfoldable pub create_session :
    String → ℕ → ℕ → Option String → Option String → Option ℕ → AuthDb → AuthDb × ℕ
unfolding get_default_workspace_id
create_session token now user_id ip agent workspace db =
    let expires_at = now + session_duration in
    let row : UserSession = record {
      id = db.next_session;
      token = token;
      user_id = user_id;
      workspace_id = session_workspace db user_id workspace;
      expires_at = expires_at;
      ip_address = truthy ip;
      user_agent = truthy agent;
    } in
    (
      record db {
        users = update_user_row user_id (touch_login now) db.users;
        user_sessions = filter (λ s. not (ltb s.expires_at now)) (db.user_sessions ++ row ∷ []);
        next_session = db.next_session + 1;
      },
      expires_at,
    )

-- The join of `validateSession`: the first session that matches, whose user exists.
unfoldable pub session_row :
    String → ℕ → List UserRow → List UserSession → Option (UserSession × UserRow)
session_row token now users [] = none
session_row token now users (s ∷ ss) =
    let rest = session_row token now users ss in
    if str_eq s.token token && ltb now s.expires_at
    then elim (find_user s.user_id users) [ none ↦ rest | some u ↦ some (s, u) ]
    else rest

-- The user that a session shows: the row, in the session's workspace, with the defaults filled in.
abbrev pub shown : AuthDb → ℕ → User → User
shown db workspace u = record u {
  workspace_id = or_else workspace (get_default_workspace_id db);
  provider = some (get_or u.provider local);
  is_approved = some (get_or u.is_approved 1);
}

-- The user and the session's id.
unfoldable pub validate_session : String → ℕ → AuthDb → Option (User × ℕ)
unfolding session_row get_default_workspace_id
validate_session token now db =
    if str_eq token "" then none else elim (session_row token now db.users db.user_sessions) [
      | none ↦ none
      | some (s, u) ↦ some (shown db s.workspace_id u.user, s.id)
    ]

unfoldable pub destroy_session : String → AuthDb → AuthDb
destroy_session token db = record db {
  user_sessions = filter (λ s. not (str_eq s.token token)) db.user_sessions;
}

unfoldable pub destroy_all_user_sessions : ℕ → AuthDb → AuthDb
destroy_all_user_sessions id db = record db {
  user_sessions = filter (λ s. not (s.user_id == id)) db.user_sessions;
}

-- What the role check reads of a request; `session_token` is the value of the mc-session cookie.
pub record Credentials : Type 0 where
  pub session_token : Option String
  pub x_api_key : Option String

abbrev pub api_user : AuthDb → User
api_user db = record {
  id = 0;
  username = "api";
  display_name = "API Access";
  role = admin;
  workspace_id = get_default_workspace_id db;
  provider = none;
  email = none;
  avatar_url = none;
  is_approved = none;
  created_at = 0;
  updated_at = 0;
  last_login_at = none;
}

abbrev pub by_session : Option String → ℕ → AuthDb → Option User
by_session none now db = none
by_session (some token) now db = elim (validate_session token now db) [
  | none ↦ none
  | some (u, sid) ↦ some u
]

abbrev pub by_api_key : Option String → Option String → AuthDb → Option User
by_api_key none env db = none
by_api_key (some key) env db = if safe_compare key (get_or env "") then some (api_user db) else none

-- `api_key_env` is `process.env.API_KEY`.
unfoldable pub get_user_from_request : Option String → Credentials → ℕ → AuthDb → Option User
unfolding validate_session safe_compare
get_user_from_request api_key_env c now db = elim (by_session (truthy c.session_token) now db) [
  | some u ↦ some u
  | none ↦ by_api_key (truthy c.x_api_key) api_key_env db
]

-- One more than in ROLE_LEVELS, so that the -1 of an unknown role is 0.
abbrev pub role_level : Role → ℕ
role_level nameless = 0
role_level viewer = 1
role_level operator = 2
role_level admin = 3

pub data RoleCheck : Type 0 where
  granted : User → RoleCheck
  refused : String → ℕ → RoleCheck

abbrev pub required : Role → String
required nameless = "Requires  role or higher"
required viewer = "Requires viewer role or higher"
required operator = "Requires operator role or higher"
required admin = "Requires admin role or higher"

unfoldable pub require_role : Option String → Credentials → Role → ℕ → AuthDb → RoleCheck
unfolding get_user_from_request
require_role api_key_env c min_role now db = elim (get_user_from_request api_key_env c now db) [
  | none ↦ refused "Authentication required" 401
  | some u ↦
      if ltb (role_level u.role) (role_level min_role)
      then refused (required min_role) 403
      else granted u
]
