-- ===== src/Accounts/Served.antt =====
-- The requests that src/app/api/auth/users/route.ts serves, over the users that are not theirs.
use omni_mission_control.Prelude.{
  ℕ, ◌≡◌, ◌⊎◌, inl, inr, refl, Bool, true, false, Option, String, if◌then◌else◌,
}
use omni_mission_control.Auth.{User, AuthDb, update_user_row}
use omni_mission_control.Auth.Users.{updated, UserUpdates, update_user}
use omni_mission_control.Accounts.{Site, Sender, NewUser, Answer, post_user}
use omni_mission_control.Accounts.Change.{
  JsonId, Changes, put_user, delete_account, written_role, written, null,
}
use omni_mission_control.Accounts.Change.{null, written, written_role, is_emptied}

pub data Request : Type 0 where
  post : Bool → Option NewUser → Request
  put : Changes → Request
  delete : Option JsonId → Request

unfoldable pub handle :
    Option String → (String → String) → Sender → ℕ → Request → Site → Site × Answer
unfolding post_user put_user delete_account
handle env hash r now (post limited body) s = post_user env hash r now limited body s
handle env hash r now (put b) s = put_user env hash r now b s
handle env hash r now (delete body) s = delete_account env r now body s

users_of_branches :
    (b : Bool) (p q : AuthDb × Option User)
    → ((if b then p else q).0.users ≡ p.0.users) ⊎ ((if b then p else q).0.users ≡ q.0.users)
users_of_branches true p q = inl refl
users_of_branches false p q = inr refl

pub update_user-users :
    (hash : String → String) (now id : ℕ) (x : UserUpdates) (db : AuthDb)
    → ((update_user hash now id x db).0.users ≡ db.users)
      ⊎ ((update_user hash now id x db).0.users ≡ update_user_row id (updated hash now x) db.users)
unfolding update_user
update_user-users hash now id x db = users_of_branches _ _ _

abbrev pub empties_role : Request → Bool
empties_role (put b) = is_emptied b.role
empties_role _ = false
