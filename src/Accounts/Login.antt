-- ===== src/Accounts/Login.antt =====
-- The handler of src/app/api/auth/login/route.ts. `verify` is `verifyPassword`, and `token` is the
-- random token of the session.
use omni_mission_control.Prelude.{
  ℕ, ◌-◌, Bool, ◌||◌, Option, none, some, [], ◌∷◌, ◌++◌, String, str_eq, if◌then◌else◌, truthy,
  get_or,
}
use omni_mission_control.Auth.{User, AuthDb, create_session}
use omni_mission_control.Auth.Users.{authenticate_user}
use omni_mission_control.Accounts.{Site, Sender, Answer, fails, started, address}
use omni_mission_control.Accounts.{answered}

pub record LoginRequest : Type 0 where
  pub sender : Sender
  pub user_agent : Option String
  pub x_forwarded_proto : Option String
  pub is_https : Bool
  pub username : Option String
  pub password : Option String

abbrev is_secure : LoginRequest → Bool
is_secure q = str_eq (get_or q.x_forwarded_proto "") "https" || q.is_https

abbrev log_login : String → String → Option ℕ → LoginRequest → Site → Site
log_login action actor id q s = record s {
  audit_log =
      s.audit_log
      ++ record {
        action = action;
        actor = actor;
        actor_id = id;
        target_id = none;
        ip_address = address q.sender;
      }
        ∷ [];
}

abbrev opened : String → ℕ → LoginRequest → User → Site → AuthDb × ℕ → Site × Answer
opened token now q u s (db, expires_at) = (
  log_login "login" u.username (some u.id) q (record s { auth = db }),
  started (answered u) token (expires_at - now) (is_secure q),
)

unfoldable pub log_in :
    (String → String → Bool) → String → ℕ → LoginRequest → String → String → Site → Site × Answer
unfolding authenticate_user create_session
log_in verify token now q username password s =
    elim (authenticate_user verify username password s.auth) [
      | none ↦ (log_login "login_failed" username none q s, fails 401 "Invalid credentials")
      | some u ↦ opened token now q u s (
          create_session token now u.id (some (address q.sender)) q.user_agent (some u.workspace_id)
            s.auth)
    ]

unfoldable pub with_credentials :
    (String → String → Bool)
    → String
    → ℕ
    → LoginRequest
    → Option String
    → Option String
    → Site
    → Site × Answer
unfolding log_in
with_credentials verify token now q (some username) (some password) s =
    log_in verify token now q username password s
with_credentials verify token now q _ _ s = (s, fails 400 "Username and password are required")

unfoldable pub post_login :
    (String → String → Bool) → String → ℕ → Bool → LoginRequest → Site → Site × Answer
unfolding with_credentials
post_login verify token now limited q s =
    let served = with_credentials verify token now q (truthy q.username) (truthy q.password) s in
    if limited then (s, fails 429 "Too many login attempts. Try again in a minute.") else served
