-- ===== src/Accounts.antt =====
-- The account routes: src/app/api/auth/users/route.ts here, src/app/api/auth/login/route.ts in
-- Accounts.Login and src/app/api/auth/me/route.ts in Accounts.Profile. `env` is
-- `process.env.API_KEY`, `hash` is `hashPassword`, and `limited` is what the rate limiter says.
pub mod Change
pub mod Kept
pub mod Posted
pub mod Served
pub mod Profile
pub mod Proved
pub mod Login
mod Tests
use omni_mission_control.Prelude.{
  ℕ, ◌==◌, Bool, true, false, not, ◌&&◌, ◌||◌, Option, none, some, List, [], ◌∷◌, ◌++◌, String,
  filter, leb, str_eq, if◌then◌else◌, truthy, str_or, get_or, js_length, includes, Result, ok,
  throw, ℤ, pos, negsuc, parse_int,
}
use omni_mission_control.Auth.{
  Role, viewer, operator, admin, role_level, Provider, local, User, UserRow, AuthDb, Credentials,
  granted, refused, get_user_from_request, require_role,
}
use omni_mission_control.Auth.Users.{
  CreateUserOptions, UserUpdates, get_user_by_id, create_user, update_user, delete_user,
}
use omni_mission_control.Auth.{nameless}

-- An entry of the audit log, as `logAuditEvent` takes it, without its detail.
pub record Audit : Type 0 where
  pub action : String
  pub actor : String
  pub actor_id : Option ℕ
  pub target_id : Option ℕ
  pub ip_address : String

pub record Site : Type 0 where
  pub auth : AuthDb
  pub audit_log : List Audit

pub data Answer : Type 0 where
  fails : ℕ → String → Answer
  shows : ℕ → User → Answer
  lists : List User → Answer
  success : Answer
  -- The user, and the session's cookie: its token, its age and whether the request is secure.
  started : User → String → ℕ → Bool → Answer

-- The headers that the handlers read.
pub record Sender : Type 0 where
  pub credentials : Credentials
  pub x_forwarded_for : Option String
  pub x_real_ip : Option String

abbrev pub address : Sender → String
address r = str_or r.x_forwarded_for (str_or r.x_real_ip "unknown")

-- The user as an answer shows it; which of the fields an answer names is not modelled.
abbrev pub answered : User → User
answered u = record u {
  provider = some (get_or u.provider local);
  email = truthy u.email;
  avatar_url = truthy u.avatar_url;
  is_approved = some (get_or u.is_approved 1);
}

abbrev pub is_admin : Role → Bool
is_admin nameless = false
is_admin viewer = false
is_admin operator = false
is_admin admin = true

abbrev pub same_role : Role → Role → Bool
same_role a b = role_level a == role_level b

-- What the handler does for an admin; everybody else is refused.
abbrev pub for_admin : Option User → (User → Site → Site × Answer) → Site → Site × Answer
for_admin none act s = (s, fails 403 "Admin access required")
for_admin (some u) act s =
    if is_admin u.role then act u s else (s, fails 403 "Admin access required")

abbrev pub log_audit : String → User → ℕ → Sender → Site → Site
log_audit action u target r s = record s {
  audit_log =
      s.audit_log
      ++ record {
        action = action;
        actor = u.username;
        actor_id = some u.id;
        target_id = some target;
        ip_address = address r;
      }
        ∷ [];
}

-- `ORDER BY created_at`
abbrev pub insert_user : User → List User → List User
insert_user u [] = u ∷ []
insert_user u (v ∷ vs) =
    let rest = insert_user u vs in if leb u.created_at v.created_at then u ∷ v ∷ vs else v ∷ rest

unfoldable pub get_all_users : List UserRow → List User
get_all_users [] = []
get_all_users (row ∷ rows) = insert_user row.user (get_all_users rows)

unfoldable pub get_users : Option String → Sender → ℕ → Site → Site × Answer
unfolding require_role get_user_from_request get_all_users
get_users env r now s = elim (require_role env r.credentials viewer now s.auth) [
  | refused e status ↦ (s, fails status e)
  | granted v ↦
      for_admin (get_user_from_request env r.credentials now s.auth)
        (λ u t.
          (t, lists (filter (λ v. v.workspace_id == u.workspace_id) (get_all_users t.auth.users))))
        s
]

-- The body of a POST, whose fields have the types of `createUserSchema`.
pub record NewUser : Type 0 where
  pub username : String
  pub password : String
  pub display_name : Option String
  pub role : Option Role
  pub provider : Option Provider
  pub email : Option String

abbrev pub is_valid_body : NewUser → Bool
is_valid_body b = leb 1 (js_length b.username) && leb 12 (js_length b.password)

abbrev pub creation_failed : String → Answer
creation_failed message =
    if includes "UNIQUE constraint failed" message
    then fails 409 "Username already exists"
    else fails 500 "Failed to create user"

abbrev pub created : User → Sender → Site → Result (AuthDb × User) → Site × Answer
created u r s (throw message) = (s, creation_failed message)
created u r s (ok (db, v)) =
    (log_audit "user_create" u v.id r (record s { auth = db }), shows 201 (answered v))

abbrev pub create_for :
    (String → String) → Sender → ℕ → Bool → Option NewUser → User → Site → Site × Answer
create_for hash r now limited none u s = (
  s,
  if limited
      then fails 429 "Too many requests. Please try again later."
      else fails 400 "Validation failed",
)
create_for hash r now limited (some b) u s =
    let made = created u r s (
      create_user hash now b.username b.password (str_or b.display_name b.username)
        (get_or b.role operator)
        (record {
          provider = some (get_or b.provider local);
          email = truthy b.email;
          avatar_url = none;
          is_approved = none;
          workspace_id = some u.workspace_id;
        })
        s.auth) in
    if limited
    then (s, fails 429 "Too many requests. Please try again later.")
    else if not (is_valid_body b)
    then (s, fails 400 "Validation failed")
    else made

-- A body of `none` is one that does not have these fields.
unfoldable pub post_user :
    Option String → (String → String) → Sender → ℕ → Bool → Option NewUser → Site → Site × Answer
unfolding get_user_from_request create_user
post_user env hash r now limited body s =
    for_admin (get_user_from_request env r.credentials now s.auth)
      (create_for hash r now limited body) s
