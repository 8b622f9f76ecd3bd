-- ===== src/Accounts/Posted.antt =====
-- What a request leaves of the users that are not its own, through the guards and the POST of
-- src/app/api/auth/users/route.ts.
use mathlib.Core.Path.{subst}
use omni_mission_control.Prelude.{
  ℕ, sym, ap, ◌≡◌, refl, Bool, true, false, not, Option, none, some, [], ◌∷◌, ◌++◌, String, is_some,
  Result, ok, throw, if◌then◌else◌,
}
use omni_mission_control.Auth.{Role, User, UserRow, AuthDb}
use omni_mission_control.Auth.Users.{CreateUserOptions, create_user}
use omni_mission_control.Accounts.{Site, Sender, NewUser, Answer, for_admin, create_for, created}
use omni_mission_control.Accounts.Kept.{Keeps, Keeps-refl, Keeps-append}
use omni_mission_control.Prelude.{ltb, js_length}
use omni_mission_control.Auth.Users.{find_username}
use omni_mission_control.Accounts.{is_valid_body}

pub record KeptBy (u : User) (s : Site) (r : Site × Answer) : Type 0 where
  pub kept : Keeps u s.auth.users r.0.auth.users

pub by_nobody : (u : User) (s : Site) (a : Answer) → KeptBy u s (s, a)
by_nobody u s a = record { kept = Keeps-refl u s.auth.users }

-- A branch that keeps, under a test that keeps otherwise.
pub if-Keeps :
    (u : User) (s : Site) (b : Bool) (r r' : Site × Answer)
    → KeptBy u s r
    → (b ≡ false → KeptBy u s r')
    → KeptBy u s (if b then r else r')
if-Keeps u s true r r' h k = h
if-Keeps u s false r r' h k = k refl

for_admin-some :
    (u : User) (act : User → Site → Site × Answer) (s : Site)
    → KeptBy u s (act u s)
    → KeptBy u s (for_admin (some u) act s)
for_admin-some u act s h = if-Keeps u s _ _ _ h λ _. by_nobody u s _

pub for_admin-Keeps :
    (u : User) (o : Option User) (act : User → Site → Site × Answer) (s : Site)
    → o ≡ some u
    → KeptBy u s (act u s)
    → KeptBy u s (for_admin o act s)
for_admin-Keeps u o act s e h =
    subst (λ z. KeptBy u s (for_admin z act s)) (sym e) (for_admin-some u act s h)

created-Keeps :
    (r : Sender) (u : User) (s : Site) (made : Result (AuthDb × User))
    → ((db : AuthDb) (v : User) → made ≡ ok (db, v) → Keeps u s.auth.users db.users)
    → KeptBy u s (created u r s made)
created-Keeps r u s (throw message) h = by_nobody u s _
created-Keeps r u s (ok (db, v)) h = record { kept = h db v refl }

ok_of_guards :
    {A : Type 0} (b c : Bool) (m m' : String) (x y : A)
    → (if b then throw m else if c then throw m' else ok x) ≡ ok y
    → x ≡ y
ok_of_guards true c m m' x y h = cc
ok_of_guards false true m m' x y h = cc
ok_of_guards false false m m' x y h = cc

create_user-ok :
    (hash : String → String) (now : ℕ) (name password display : String) (role : Role)
    (o : CreateUserOptions) (db db' : AuthDb) (v : User)
    → create_user hash now name password display role o db ≡ ok (db', v)
    → (x : UserRow) × (db'.users ≡ db.users ++ x ∷ [])
unfolding create_user
create_user-ok hash now name password display role o db db' v h =
    let same =
      ok_of_guards (ltb (js_length password) 12) (is_some (find_username name db.users)) _ _ _ _
        h in
    (_, sym (ap (λ (p : AuthDb × User). p.0.users) same))

create_user-Keeps :
    (hash : String → String) (now : ℕ) (name password display : String) (role : Role)
    (o : CreateUserOptions) (r : Sender) (u : User) (s : Site)
    → KeptBy u s (created u r s (create_user hash now name password display role o s.auth))
create_user-Keeps hash now name password display role o r u s = created-Keeps r u s _ λ db v e.
    let (x, same) = create_user-ok hash now name password display role o s.auth db v e in
    subst (Keeps u s.auth.users) (sym same) (Keeps-append u s.auth.users x)

pub create_for-Keeps :
    (hash : String → String) (r : Sender) (now : ℕ) (limited : Bool) (body : Option NewUser)
    (u : User) (s : Site)
    → KeptBy u s (create_for hash r now limited body u s)
create_for-Keeps hash r now limited none u s = by_nobody u s _
create_for-Keeps hash r now limited (some b) u s = if-Keeps u s (limited) _ _ (by_nobody u s _) λ _.
    if-Keeps u s (not (is_valid_body b)) _ _ (by_nobody u s _)
      λ _. create_user-Keeps hash now _ _ _ _ _ r u s
