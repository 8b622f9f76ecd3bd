-- ===== src/Accounts/Profile.antt =====
-- The handlers of src/app/api/auth/me/route.ts. `verify` is `verifyPassword`.
use omni_mission_control.Prelude.{
  ℕ, ◌==◌, Bool, not, ◌&&◌, Option, none, some, [], ◌∷◌, ◌++◌, String, ltb, str_eq, if◌then◌else◌,
  truthy, is_some, js_length, trim,
}
use omni_mission_control.Auth.{
  User, UserRow, AuthDb, find_user, viewer, granted, refused, require_role, get_user_from_request,
}
use omni_mission_control.Auth.Users.{UserUpdates, update_user}
use omni_mission_control.Accounts.{Site, Sender, Answer, fails, shows, address}
use omni_mission_control.Accounts.{answered}

pub record ProfileBody : Type 0 where
  pub current_password : Option String
  pub new_password : Option String
  pub display_name : Option String

-- The update that a part of the body asks for, or its refusal.
pub data Checked : Type 0 where
  proceeds : Option String → Checked
  refuses : ℕ → String → Checked

abbrev checked_hash : (String → String → Bool) → String → String → Option UserRow → Checked
checked_hash verify current password none = refuses 403 "Current password is incorrect"
checked_hash verify current password (some row) =
    if verify current row.password_hash
    then proceeds (some password)
    else refuses 403 "Current password is incorrect"

-- The new password, and the current one.
abbrev pub checked_password :
    (String → String → Bool) → Option String → Option String → Option UserRow → Checked
checked_password verify none current row = proceeds none
checked_password verify (some password) none row = refuses 400 "Current password is required"
checked_password verify (some password) (some current) row =
    if ltb (js_length password) 8
    then refuses 400 "New password must be at least 8 characters"
    else checked_hash verify current password row

unfoldable pub checked_name : Option String → Checked
unfolding trim
checked_name none = proceeds none
checked_name (some name) =
    if str_eq (trim name) ""
    then refuses 400 "Display name cannot be empty"
    else proceeds (some (trim name))

abbrev pub profile_updates : Option String → Option String → UserUpdates
profile_updates password name = record {
  display_name = name;
  role = none;
  password = password;
  email = none;
  avatar_url = none;
  is_approved = none;
}

abbrev log_if : Option String → String → User → Sender → Site → Site
log_if none action u r s = s
log_if (some x) action u r s = record s {
  audit_log =
      s.audit_log
      ++ record {
        action = action;
        actor = u.username;
        actor_id = some u.id;
        target_id = none;
        ip_address = address r;
      }
        ∷ [];
}

abbrev pub saved :
    Option String → Option String → User → Sender → Site → AuthDb × Option User → Site × Answer
saved password name u r s (db, none) = (record s { auth = db }, fails 404 "User not found")
saved password name u r s (db, some v) = (
  log_if name "profile_update" u r (log_if password "password_change" u r (record s { auth = db })),
  shows 200 (answered v),
)

unfoldable pub save_profile :
    (String → String) → Sender → ℕ → User → Checked → Checked → Site → Site × Answer
unfolding update_user
save_profile hash r now u (refuses status e) name s = (s, fails status e)
save_profile hash r now u (proceeds password) (refuses status e) s = (s, fails status e)
save_profile hash r now u (proceeds password) (proceeds name) s =
    let done =
      saved password name u r s
        (update_user hash now u.id (profile_updates password name) s.auth) in
    if not (is_some password) && not (is_some name)
    then (s, fails 400 "No updates provided")
    else done

unfoldable pub patch_profile :
    (String → String → Bool)
    → (String → String)
    → Sender
    → ℕ
    → ProfileBody
    → User
    → Site
    → Site × Answer
unfolding save_profile checked_name
patch_profile verify hash r now b u s =
    let served =
      save_profile hash r now u
        (checked_password verify (truthy b.new_password) (truthy b.current_password)
          (find_user u.id s.auth.users))
        (checked_name b.display_name) s in
    if u.id == 0 then (s, fails 403 "API key users cannot change passwords") else served

unfoldable pub patch_me :
    Option String
    → (String → String → Bool)
    → (String → String)
    → Sender
    → ℕ
    → ProfileBody
    → Site
    → Site × Answer
unfolding get_user_from_request patch_profile
patch_me env verify hash r now b s = elim (get_user_from_request env r.credentials now s.auth) [
  | none ↦ (s, fails 401 "Not authenticated")
  | some u ↦ patch_profile verify hash r now b u s
]

-- The user of the role check is the user of the request.
unfoldable pub get_me : Option String → Sender → ℕ → Site → Site × Answer
unfolding require_role get_user_from_request
get_me env r now s = elim (require_role env r.credentials viewer now s.auth) [
  | refused e status ↦ (s, fails status e)
  | granted v ↦ elim (get_user_from_request env r.credentials now s.auth) [
    | none ↦ (s, fails 401 "Not authenticated")
    | some u ↦ (s, shows 200 (answered u))
  ]
]
