-- ===== src/Auth/Access.antt =====
-- Who passes the role check, and on whose authority.

use text.Mathlib.TextLemmas.{cons-ne-nil}
use omni_mission_control.Prelude.{
  refl, ◌≡◌, ◌↔◌, ◌≤◌, ◌<◌, true, none, some, Option, String, arith, eq_iff, ◌⊎◌, ℕ, truthy,
  Option-cases, Bool-cases, ltb, inl, inr,
}
use omni_mission_control.Auth.{
  Role, User, UserRow, UserSession, AuthDb, Credentials, granted, refused, safe_compare,
  get_user_from_request, require_role, role_level, required, api_user, validate_session,
  session_row, find_user, shown, by_session, by_api_key,
}
use omni_mission_control.Auth.Sessions.{session_row-user}
use omni_mission_control.Prelude.{◌≢◌, List, [], ◌∷◌, false, str_eq}

-- The comparison in constant time decides equality.
pub safe_compare_iff : (a b : String) → (safe_compare a b ≡ true) ↔ (a ≡ b)
unfolding safe_compare
safe_compare_iff a b = ground (arith, eq_iff a b)

abbrev pub IsIn : UserSession → List UserSession → Type 0
IsIn s [] = ⊥
IsIn s (r ∷ ss) = (r ≡ s) ⊎ IsIn s ss

-- A session of the table that has not expired, of a user that exists, which shows the user `u`.
abbrev pub HasSession : String → ℕ → AuthDb → User → Type 0
HasSession token now db u =
    (s : UserSession) × (row : UserRow) × IsIn s db.user_sessions
    × (s.token ≡ token)
    × (now < s.expires_at)
    × (find_user s.user_id db.users ≡ some row)
    × (u ≡ shown db s.workspace_id row.user)

-- The request carries the token of a live session, or the configured API key.
abbrev pub IsGenuine : Option String → Credentials → ℕ → AuthDb → User → Type 0
IsGenuine env c now db u =
    ((token : String) × (truthy c.session_token ≡ some token) × HasSession token now db u)
    ⊎ ((key : String) × (truthy c.x_api_key ≡ some key) × (env ≡ some key) × (u ≡ api_user db))

session_row-IsIn :
    (t : String) (now : ℕ) (users : List UserRow) (ss : List UserSession) (s : UserSession)
    (u : UserRow)
    → session_row t now users ss ≡ some (s, u)
    → IsIn s ss
unfolding session_row
session_row-IsIn t now users [] s u h = cc
session_row-IsIn t now users (r ∷ ss) s u h = ground (arith, session_row-IsIn t now users ss s u)

-- A session of the table that has not expired, of a user that exists, is found or another before it.
session_row-finds :
    (t : String) (now : ℕ) (users : List UserRow) (ss : List UserSession) (s : UserSession)
    (u : UserRow)
    → IsIn s ss
    → s.token ≡ t
    → now < s.expires_at
    → find_user s.user_id users ≡ some u
    → session_row t now users ss ≢ none
unfolding session_row
session_row-finds t now users [] s u m e l f = elim m [ ]
session_row-finds t now users (r ∷ ss) s u (inl here) e l f = ground (arith, here, eq_iff r.token t)
session_row-finds t now users (r ∷ ss) s u (inr there) e l f =
    ground (arith, session_row-finds t now users ss s u there e l f)

validate_session-HasSession :
    (token : String) (now : ℕ) (db : AuthDb) (u : User) (sid : ℕ)
    → validate_session token now db ≡ some (u, sid)
    → HasSession token now db u
unfolding validate_session
validate_session-HasSession token now db u sid h =
    elim (Option-cases (session_row token now db.users db.user_sessions)) [
      | inl e ↦ absurd (ground arith)
      | inr ((s, row), e) ↦
          let (found, same, valid) = session_row-user token now db.users db.user_sessions s row e in
          (
            s,
            row,
            session_row-IsIn token now db.users db.user_sessions s row e,
            same,
            valid,
            found,
            ground arith,
          )
    ]

by_session-HasSession :
    (o : Option String) (now : ℕ) (db : AuthDb) (u : User)
    → by_session o now db ≡ some u
    → (token : String) × (o ≡ some token) × HasSession token now db u
by_session-HasSession none now db u h = cc
by_session-HasSession (some token) now db u h =
    elim (Option-cases (validate_session token now db)) [
      | inl e ↦ absurd (ground arith)
      | inr ((v, sid), e) ↦
          let same : v ≡ u = ground arith in
          (token, refl, validate_session-HasSession token now db u sid (rw (← same) e))
    ]

by_api_key-some :
    (o env : Option String) (db : AuthDb) (u : User)
    → by_api_key (truthy o) env db ≡ some u
    → (key : String) × (truthy o ≡ some key) × (env ≡ some key) × (u ≡ api_user db)
by_api_key-some none env db u h = cc
by_api_key-some (some String.[]) env db u h = cc
by_api_key-some (some (String.◌∷◌ c s)) none db u h =
    absurd (ground (arith, safe_compare_iff (String.◌∷◌ c s) "", cons-ne-nil c s))
by_api_key-some (some (String.◌∷◌ c s)) (some key) db u h =
    (String.◌∷◌ c s, refl, ground (arith, safe_compare_iff (String.◌∷◌ c s) key), ground arith)

get_user_from_request-IsGenuine :
    (env : Option String) (c : Credentials) (now : ℕ) (db : AuthDb) (u : User)
    → get_user_from_request env c now db ≡ some u
    → IsGenuine env c now db u
unfolding get_user_from_request
get_user_from_request-IsGenuine env c now db u h =
    elim (Option-cases (by_session (truthy c.session_token) now db)) [
      | inl e ↦ inr (by_api_key-some c.x_api_key env db u (ground arith))
      | inr (v, e) ↦
          let same : v ≡ u = ground arith in
          inl (by_session-HasSession (truthy c.session_token) now db u (rw (← same) e))
    ]

truthy-nonempty : (o : Option String) (t : String) → truthy o ≡ some t → str_eq t "" ≡ false
truthy-nonempty none t h = cc
truthy-nonempty (some String.[]) t h = cc
truthy-nonempty (some (String.◌∷◌ c s)) t h = ground (arith, eq_iff t "", cons-ne-nil c s)

by_session-finds :
    (t : String) (now : ℕ) (db : AuthDb) (u : User)
    → str_eq t "" ≡ false
    → HasSession t now db u
    → by_session (some t) now db ≢ none
unfolding validate_session
by_session-finds t now db u ne (s, row, m, e, l, f, shows) h =
    elim (Option-cases (session_row t now db.users db.user_sessions)) [
      | inl gone ↦ session_row-finds t now db.users db.user_sessions s row m e l f gone
      | inr (found, at) ↦ absurd (ground arith)
    ]

-- A request that has a genuine user has a user.
get_user_from_request-finds :
    (env : Option String) (c : Credentials) (now : ℕ) (db : AuthDb) (u : User)
    → IsGenuine env c now db u
    → get_user_from_request env c now db ≢ none
unfolding get_user_from_request
get_user_from_request-finds env c now db u (inl (token, e, held)) h =
    let ne = truthy-nonempty c.session_token token e in
    elim (Option-cases (by_session (some token) now db)) [
      | inl gone ↦ by_session-finds token now db u ne held gone
      | inr (v, at) ↦ absurd (ground arith)
    ]
get_user_from_request-finds env c now db u (inr (key, e, same, api)) h =
    elim (Option-cases (by_session (truthy c.session_token) now db)) [
      | inr (v, at) ↦ absurd (ground arith)
      | inl gone ↦ absurd (ground (arith, safe_compare_iff key key))
    ]

-- The check grants a genuine user of the request (the user of a live session whose token the request
-- carries, or the API user if it carries the configured key) whose role is at least the one required;
-- or it answers 401, and the request has no genuine user at all; or it answers 403, for a genuine user
-- of the request whose role is lower.
pub require_role_lem :
    (env : Option String) (c : Credentials) (min_role : Role) (now : ℕ) (db : AuthDb)
    → ((u : User) × (require_role env c min_role now db ≡ granted u)
        × IsGenuine env c now db u
        × (role_level min_role ≤ role_level u.role))
      ⊎ ((require_role env c min_role now db ≡ refused "Authentication required" 401)
          × ¬ ((u : User) × IsGenuine env c now db u))
      ⊎ ((u : User) × (require_role env c min_role now db ≡ refused (required min_role) 403)
          × IsGenuine env c now db u
          × (role_level u.role < role_level min_role))
unfolding require_role
require_role_lem env c min_role now db = elim (Option-cases (get_user_from_request env c now db)) [
  | inl e ↦
      inr (inl (ground arith, λ (u, genuine). get_user_from_request-finds env c now db u genuine e))
  | inr (u, e) ↦
      let genuine = get_user_from_request-IsGenuine env c now db u e in
      elim (Bool-cases (ltb (role_level u.role) (role_level min_role))) [
        | inl low ↦ inr (inr (u, ground arith, genuine, ground arith))
        | inr high ↦ inl (u, ground arith, genuine, ground arith)
      ]
]
