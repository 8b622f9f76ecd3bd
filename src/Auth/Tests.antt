-- ===== src/Auth/Tests.antt =====
-- Runs of the account code, and instances of its theorems.
use omni_mission_control.Prelude.{
  ◌+◌, ◌≤◌, ◌<◌, ◌≡◌, refl, ◌⊎◌, true, none, some, [], ◌∷◌, String, arith, eq_iff, str_eq,
  if◌then◌else◌, throw, js_length, Bool, ltb,
}
use omni_mission_control.Auth.{
  viewer, operator, admin, User, UserRow, UserSession, AuthDb, Credentials, granted, refused,
  create_session, validate_session, destroy_session, require_role, shown, session_workspace,
  touch_login, role_level, required,
}
use omni_mission_control.Auth.Users.{CreateUserOptions, create_user, delete_user, taken}
use omni_mission_control.Auth.Sessions.{
  validate_session-destroy_session, validate_session-create_session,
}
use omni_mission_control.Auth.Access.{IsGenuine, require_role_lem}

abbrev ada : UserRow
ada = record {
  user = record {
    id = 3;
    username = "ada";
    display_name = "Ada";
    role = operator;
    workspace_id = 2;
    provider = none;
    email = none;
    avatar_url = none;
    is_approved = some 1;
    created_at = 1;
    updated_at = 1;
    last_login_at = none;
  };
  password_hash = "salt:hash";
}

abbrev old_session : UserSession
old_session = record {
  id = 4;
  token = "old";
  user_id = 3;
  workspace_id = 2;
  expires_at = 1000;
  ip_address = none;
  user_agent = none;
}

abbrev db : AuthDb
db = record {
  users = ada ∷ [];
  user_sessions = old_session ∷ [];
  next_session = 5;
  next_user = 4;
  default_workspace = some 1;
}

abbrev cookie : Credentials
cookie = record { session_token = some "old"; x_api_key = none }

operator_route : require_role none cookie admin 900 db ≡ refused "Requires admin role or higher" 403
unfolding require_role
operator_route = refl

expired_route : require_role none cookie viewer 1000 db ≡ refused "Authentication required" 401
unfolding require_role
expired_route = refl

-- Without API_KEY in the environment an empty key opens nothing.
empty_key :
    require_role none (record { session_token = none; x_api_key = some "" }) viewer 1 db
    ≡ refused "Authentication required" 401
unfolding require_role
empty_key = refl

no_options : CreateUserOptions
no_options = record {
  provider = none;
  email = none;
  avatar_url = none;
  is_approved = none;
  workspace_id = none;
}

short_password :
    create_user (λ p. p) 9 "bob" "elevenchars" "Bob" viewer no_options db
    ≡ throw "Password must be at least 12 characters"
unfolding create_user js_length
short_password = refl

name_taken : create_user (λ p. p) 9 "ada" "twelve chars" "Ada" viewer no_options db ≡ throw taken
unfolding create_user js_length
name_taken = refl

require_role_lem_example :
    ((u : User) × (require_role none cookie operator 900 db ≡ granted u)
      × IsGenuine none cookie 900 db u
      × (2 ≤ role_level u.role))
    ⊎ ((require_role none cookie operator 900 db ≡ refused "Authentication required" 401)
        × ¬ ((u : User) × IsGenuine none cookie 900 db u))
    ⊎ ((u : User) × (require_role none cookie operator 900 db ≡ refused (required operator) 403)
        × IsGenuine none cookie 900 db u
        × (role_level u.role < 2))
require_role_lem_example = require_role_lem none cookie operator 900 db

validate_session-destroy_session_example :
    validate_session "old" 900 (destroy_session "old" db)
    ≡ (if str_eq "old" "old" then none else validate_session "old" 900 db)
validate_session-destroy_session_example = validate_session-destroy_session "old" "old" 900 db

validate_session-create_session_example :
    let (db', expires_at) = create_session "new" 100 3 none none none db in
    (expires_at ≡ 100 + 604800)
    × (validate_session "new" 200 db' ≡ (
        if ltb 200 expires_at
        then some (shown db' (session_workspace db 3 none) (touch_login 100 ada).user, 5)
        else none))
validate_session-create_session_example =
    validate_session-create_session "new" 100 200 3 none none none db ada
      (ground (arith, eq_iff "new" "")) (ground (arith, eq_iff "old" "new"), tt) refl

accepts : String → String → Bool
accepts p h = true

abbrev two_users : AuthDb
two_users = record db { users = ada ∷ record ada { user = record (ada.user) { id = 5 } } ∷ [] }

still_valid : validate_session "old" 900 (delete_user 5 two_users).0 ≡ some (shown db 2 ada.user, 4)
unfolding delete_user validate_session
still_valid = refl
