-- ===== src/Accounts/Tests.antt =====
-- Runs of the account routes, and instances of their theorems.
use omni_mission_control.Prelude.{◌≡◌, refl, true, none, some, [], ◌∷◌, String, ℕ, concat, pos}
use omni_mission_control.Auth.{Role, viewer, admin, User, UserRow, get_user_from_request}
use omni_mission_control.Accounts.{Site, Sender, Audit, fails, lists, get_users}
use omni_mission_control.Accounts.Change.{Changes, number, text, unsaid, written}
use omni_mission_control.Accounts.Served.{handle, put, delete}
use omni_mission_control.Auth.{local}
use omni_mission_control.Prelude.{Bool, false, map, str_eq, ◌⊎◌}
use omni_mission_control.Auth.{find_user, session_duration, validate_session}
use omni_mission_control.Accounts.{started}
use omni_mission_control.Accounts.Profile.{ProfileBody, patch_me}
use omni_mission_control.Accounts.Proved.{Proves, patch_me-Proves}
use omni_mission_control.Accounts.Login.{LoginRequest, post_login}
use omni_mission_control.Prelude.{js_length}
use omni_mission_control.Auth.{nameless}

abbrev account : ℕ → String → Role → ℕ → User
account id name role workspace = record {
  id = id;
  username = name;
  display_name = name;
  role = role;
  workspace_id = workspace;
  provider = none;
  email = none;
  avatar_url = none;
  is_approved = some 1;
  created_at = 10;
  updated_at = 10;
  last_login_at = none;
}

abbrev row_of : User → UserRow
row_of u = record { user = u; password_hash = "h" }

abbrev root : User
root = account 1 "root" admin 1

abbrev office : Site
office = record {
  auth = record {
    users =
        row_of root ∷ row_of (account 2 "away" viewer 2) ∷ row_of (account 3 "near" viewer 1) ∷ [];
    user_sessions =
        record {
          id = 1;
          token = "t";
          user_id = 1;
          workspace_id = 1;
          expires_at = 100;
          ip_address = none;
          user_agent = none;
        }
        ∷ [];
    next_session = 2;
    next_user = 4;
    default_workspace = some 1;
  };
  audit_log = [];
}

abbrev by_root : Sender
by_root = record {
  credentials = record { session_token = some "t"; x_api_key = none };
  x_forwarded_for = none;
  x_real_ip = some "10.0.0.1";
}

abbrev no_change : Changes
no_change = record {
  id = number (pos 3);
  display_name = none;
  role = unsaid;
  password = none;
  is_approved = none;
  email = none;
  avatar_url = none;
}

abbrev seen_root : User
seen_root = record root { provider = some local }

abbrev hashed : String → String
hashed p = concat "x" p

abbrev promote : Changes
promote = record no_change { id = text "3"; role = written "admin" }

away_is_hidden :
    (handle none hashed by_root 20 (put (record no_change { id = number (pos 2) })) office).1
    ≡ fails 404 "User not found"
unfolding handle
away_is_hidden = refl

own_account_stays :
    (handle none hashed by_root 20 (delete (some (text "1"))) office).1
    ≡ fails 400 "Cannot delete your own account"
unfolding handle
own_account_stays = refl

-- The text "abc" is not a number, and a DELETE finds no user for it.
not_a_number :
    (handle none hashed by_root 20 (delete (some (text "abc"))) office).1
    ≡ fails 404 "User not found"
unfolding handle
not_a_number = refl

only_near :
    (get_users none by_root 20
      (handle none hashed by_root 20 (delete (some (text "3"))) office).0).1
    ≡ lists (root ∷ [])
unfolding handle get_users
only_near = refl

-- The empty text passes both checks: an admin may lose his own role.
role_emptied :
    map
      (λ (x : UserRow). x.role)
      (handle none hashed by_root 20
        (put (record no_change { id = number (pos 1); role = written "" }))
        office).0.auth.users
    ≡ nameless ∷ viewer ∷ viewer ∷ []
unfolding handle
role_emptied = refl

demotion_refused :
    (handle none hashed by_root 20
      (put (record no_change { id = number (pos 1); role = written "viewer" }))
      office).1
    ≡ fails 400 "Cannot change your own role"
unfolding handle
demotion_refused = refl

abbrev matches : String → String → Bool
matches p h = str_eq (concat "x" p) h

abbrev root_row : UserRow
root_row = record { user = root; password_hash = "xold" }

abbrev desk : Site
desk = record office {
  auth = record (office.auth) { users = root_row ∷ row_of (account 2 "away" viewer 2) ∷ [] };
}

abbrev new_password : ProfileBody
new_password = record {
  current_password = some "old";
  new_password = some "longer than 8";
  display_name = some " Root ";
}

abbrev root_now : User
root_now = record root { display_name = "Root"; updated_at = 20 }

password_changed :
    (patch_me none matches hashed by_root 20 new_password desk).0.auth.users
    ≡ record { user = root_now; password_hash = "xlonger than 8" }
      ∷ row_of (account 2 "away" viewer 2)
      ∷ []
unfolding patch_me js_length
password_changed = refl

wrong_password :
    (patch_me none matches hashed by_root 20
      (record new_password { current_password = some "odd" })
      desk).1
    ≡ fails 403 "Current password is incorrect"
unfolding patch_me js_length
wrong_password = refl

root_at_desk : get_user_from_request none by_root.credentials 20 desk.auth ≡ some seen_root
unfolding get_user_from_request
root_at_desk = refl

patch_me-Proves_example :
    (row' : UserRow) × (find_user 1
        (patch_me none matches hashed by_root 20 new_password desk).0.auth.users
      ≡ some row')
    × ((row'.password_hash ≡ "xold") ⊎ ((◌≡◌ {A = ℕ} 1 1) × Proves matches (some "old") root_row))
patch_me-Proves_example =
    patch_me-Proves none matches hashed by_root 20 new_password desk seen_root 1 root_row
      root_at_desk refl

abbrev login : LoginRequest
login = record {
  sender = by_root;
  user_agent = none;
  x_forwarded_proto = some "https";
  is_https = false;
  username = some "root";
  password = some "old";
}

-- The cookie is for seven days, and its token shows the user from then on.
logged_in :
    (post_login matches "u" 20 false login desk).1
    ≡ started (record seen_root { is_approved = some 1 }) "u" session_duration true
unfolding post_login
logged_in = refl

token_shows :
    validate_session "u" 21 (post_login matches "u" 20 false login desk).0.auth
    ≡ some (record seen_root { updated_at = 20; last_login_at = some 20 }, 2)
unfolding post_login validate_session
token_shows = refl

refused_is_logged :
    map
      (λ (a : Audit). a.action)
      (post_login matches "u" 20 false (record login { password = some "odd" }) desk).0.audit_log
    ≡ "login_failed" ∷ []
unfolding post_login
refused_is_logged = refl
