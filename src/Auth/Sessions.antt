-- ===== src/Auth/Sessions.antt =====
-- The life of a session: opened by `createSession`, read by `validateSession`, closed by
-- `destroySession` and `destroyAllUserSessions`.
use omni_mission_control.Prelude.{
  ℕ, ◌+◌, ◌<◌, ◌≤◌, ◌≡◌, refl, ◌≢◌, not, none, some, Option, truthy, List, [], ◌∷◌, ◌++◌, String,
  arith, eq_iff, str_eq, ltb, ◌==◌, if◌then◌else◌, filter, All, Option-cases, inl, inr,
}
use omni_mission_control.Auth.{
  User, UserRow, UserSession, AuthDb, session_duration, session_row, validate_session,
  create_session, destroy_session, destroy_all_user_sessions, find_user, update_user_row,
  touch_login, shown, session_workspace,
}

abbrev pub HasToken : String → UserSession → Type 0
HasToken token s = s.token ≡ token

-- Deleting the sessions with one token.
session_row-destroy :
    (t token : String) (now : ℕ) (users : List UserRow) (ss : List UserSession)
    → session_row t now users (filter (λ s. not (str_eq s.token token)) ss)
      ≡ (if str_eq t token then none else session_row t now users ss)
unfolding session_row
session_row-destroy t token now users [] = ground arith
session_row-destroy t token now users (s ∷ ss) = ground (
  arith,
  eq_iff s.token token,
  eq_iff s.token t,
  eq_iff t token,
  session_row-destroy t token now users ss,
)

-- After `destroySession(token)` that token is refused at all times, and every other token has the
-- verdict that it had.
pub validate_session-destroy_session :
    (t token : String) (now : ℕ) (db : AuthDb)
    → validate_session t now (destroy_session token db)
      ≡ (if str_eq t token then none else validate_session t now db)
unfolding validate_session destroy_session
validate_session-destroy_session t token now db =
    ground (arith, session_row-destroy t token now db.users db.user_sessions)

session_row-destroy_all :
    (t : String) (id now : ℕ) (users : List UserRow) (ss : List UserSession) (s : UserSession)
    (u : UserRow)
    → session_row t now users (filter (λ s. not (s.user_id == id)) ss) ≡ some (s, u)
    → s.user_id ≢ id
unfolding session_row
session_row-destroy_all t id now users [] s u h = cc
session_row-destroy_all t id now users (r ∷ ss) s u h =
    ground (arith, session_row-destroy_all t id now users ss s u)

pub session_row-user :
    (t : String) (now : ℕ) (users : List UserRow) (ss : List UserSession) (s : UserSession)
    (u : UserRow)
    → session_row t now users ss ≡ some (s, u)
    → (find_user s.user_id users ≡ some u) × (s.token ≡ t) × (now < s.expires_at)
unfolding session_row
session_row-user t now users [] s u h = cc
session_row-user t now users (r ∷ ss) s u h =
    ground (arith, eq_iff r.token t, session_row-user t now users ss s u)

find_user-id :
    (id : ℕ) (users : List UserRow) (u : UserRow) → find_user id users ≡ some u → u.id ≡ id
find_user-id id [] u h = cc
find_user-id id (r ∷ us) u h = ground (arith, find_user-id id us u)

-- Once all sessions of a user are destroyed, no token shows that user.
pub validate_session-destroy_all :
    (t : String) (id now : ℕ) (db : AuthDb) (u : User) (sid : ℕ)
    → validate_session t now (destroy_all_user_sessions id db) ≡ some (u, sid)
    → u.id ≢ id
unfolding validate_session destroy_all_user_sessions
validate_session-destroy_all t id now db u sid h =
    let left = filter (λ s. not (s.user_id == id)) db.user_sessions in
    elim (Option-cases (session_row t now db.users left)) [
      | inl e ↦ ground arith
      | inr ((s, r), e) ↦
          let other = session_row-destroy_all t id now db.users db.user_sessions s r e in
          let (found, same, valid) = session_row-user t now db.users left s r e in
          ground (arith, other, find_user-id s.user_id db.users r found)
    ]

find_user-touch_login :
    (id now : ℕ) (us : List UserRow) {u : UserRow}
    → find_user id us ≡ some u
    → find_user id (update_user_row id (touch_login now) us) ≡ some (touch_login now u)
find_user-touch_login id now [] h = cc
find_user-touch_login id now (r ∷ us) {u} h =
    ground (arith, find_user-touch_login id now us {u = u})

-- A session that is not the last of a list with its own token elsewhere.
session_row-last :
    (t : String) (now cut : ℕ) (users : List UserRow) (ss : List UserSession) (s : UserSession)
    → All (λ r. r.token ≢ t) ss
    → s.token ≡ t
    → cut ≤ s.expires_at
    → session_row t now users (filter (λ r. not (ltb r.expires_at cut)) (ss ++ s ∷ []))
      ≡ session_row t now users (s ∷ [])
unfolding session_row
session_row-last t now cut users [] s a e l = ground arith
session_row-last t now cut users (r ∷ ss) s (d, a) e l =
    ground (arith, eq_iff r.token t, session_row-last t now cut users ss s a e l)

-- For a token that is not empty and that no session has yet, and a user that exists: the session
-- that `createSession` opens shows the user, stamped with the login, in the session's workspace,
-- from then until it expires after seven days, and is refused after that.
pub validate_session-create_session :
    (token : String) (now later id : ℕ) (ip agent : Option String) (w : Option ℕ) (db : AuthDb)
    (u : UserRow)
    → token ≢ ""
    → All (λ s. s.token ≢ token) db.user_sessions
    → find_user id db.users ≡ some u
    → let (db', expires_at) = create_session token now id ip agent w db in
      (expires_at ≡ now + 604800)
      × (validate_session token later db' ≡ (
          if ltb later expires_at
          then some
              (shown db' (session_workspace db id w) (touch_login now u).user, db.next_session)
          else none))
unfolding validate_session create_session session_row
validate_session-create_session token now later id ip agent w db u ne fresh found =
    let row : UserSession = record {
      id = db.next_session;
      token = token;
      user_id = id;
      workspace_id = session_workspace db id w;
      expires_at = now + session_duration;
      ip_address = truthy ip;
      user_agent = truthy agent;
    } in
    let users : List UserRow = update_user_row id (touch_login now) db.users in
    (
      refl,
      ground (
        arith,
        eq_iff token "",
        eq_iff token token,
        session_row-last token later now users db.user_sessions row fresh refl (omega arith),
        find_user-touch_login id now db.users {u = u},
      ),
    )
