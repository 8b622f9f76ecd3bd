-- ===== src/Accounts/Proved.antt =====
-- Whose password the PATCH of src/app/api/auth/me/route.ts changes, and on what proof.
use mathlib.Core.Path.{subst}
use omni_mission_control.Prelude.{
  ℕ, ◌∙◌, sym, ap, refl, ◌≡◌, ◌⊎◌, inl, inr, arith, ◌==◌, ==_iff, Bool, true, false, Option, none,
  some, List, String, if◌then◌else◌, truthy, Bool-cases, not, ◌&&◌, is_some,
}
use omni_mission_control.Auth.{
  User, UserRow, AuthDb, find_user, update_user_row, get_user_from_request,
}
use omni_mission_control.Auth.Users.{update_user, updated}
use omni_mission_control.Accounts.{Site, Sender, Answer}
use omni_mission_control.Accounts.Kept.{find_user-other, find_user-same}
use omni_mission_control.Accounts.Served.{update_user-users}
use omni_mission_control.Accounts.Profile.{
  ProfileBody, Checked, proceeds, refuses, checked_password, checked_name, profile_updates, saved,
  save_profile, patch_profile, patch_me,
}
use omni_mission_control.Prelude.{some_inj}

-- A password of the user that the row's hash verifies.
abbrev pub Proves : (String → String → Bool) → Option String → UserRow → Type 0
Proves verify current row = (p : String) × (current ≡ some p) × (verify p row.password_hash ≡ true)

-- Every row is found with its hash, but for the user's own row if `current` proves it.
record Guarded (verify : String → String → Bool) (current : Option String) (u : User) (s : Site)
    (r : Site × Answer) : Type 0 where
  pub guarded :
      (id : ℕ) (row : UserRow)
      → find_user id s.auth.users ≡ some row
      → (row' : UserRow) × (find_user id r.0.auth.users ≡ some row')
        × ((row'.password_hash ≡ row.password_hash) ⊎ ((id ≡ u.id) × Proves verify current row))

unchanged :
    (verify : String → String → Bool) (current : Option String) (u : User) (s : Site) (a : Answer)
    → Guarded verify current u s (s, a)
unchanged verify current u s a = record { guarded = λ id row h. (row, h, inl refl) }

saved-auth :
    (password name : Option String) (u : User) (r : Sender) (s : Site) (p : AuthDb × Option User)
    → (saved password name u r s p).0.auth ≡ p.0
saved-auth password name u r s (db, none) = refl
saved-auth none none u r s (db, some v) = refl
saved-auth none (some x) u r s (db, some v) = refl
saved-auth (some y) none u r s (db, some v) = refl
saved-auth (some y) (some x) u r s (db, some v) = refl

-- A password that may be set was asked for with a proof.
proceeds-Proves :
    (verify : String → String → Bool) (new current : Option String) (o : Option UserRow)
    (x : String)
    → checked_password verify new current o ≡ proceeds (some x)
    → (row : UserRow) × (o ≡ some row) × (Proves verify current row)
proceeds-Proves verify none current o x h = cc
proceeds-Proves verify (some p) none o x h = cc
proceeds-Proves verify (some p) (some q) none x h = absurd (ground arith)
proceeds-Proves verify (some p) (some q) (some row) x h = (row, refl, (q, refl, ground arith))

hash_kept_or_proved :
    (hash : String → String) (now : ℕ) (password name : Option String) (row : UserRow)
    → (updated hash now (profile_updates password name) row).password_hash ≡ row.password_hash
      ⊎ ((x : String) × (password ≡ some x))
hash_kept_or_proved hash now none name row = inl refl
hash_kept_or_proved hash now (some x) name row = inr (x, refl)

-- The password that is asked for, if there is one, is proved by the user's own row.
abbrev IsProved :
    (String → String → Bool) → Option String → User → List UserRow → Option String → Type 0
IsProved verify current u rows password =
    (x : String)
    → password ≡ some x
    → (row : UserRow) × (find_user u.id rows ≡ some row) × (Proves verify current row)

own_row :
    (verify : String → String → Bool) (current : Option String) (hash : String → String) (now : ℕ)
    (u : User) (password name : Option String) (rows : List UserRow) (row : UserRow)
    → IsProved verify current u rows password
    → find_user u.id rows ≡ some row
    → ((updated hash now (profile_updates password name) row).password_hash ≡ row.password_hash)
      ⊎ Proves verify current row
own_row verify current hash now u password name rows row proved h =
    elim (hash_kept_or_proved hash now password name row) [
      | inl kept ↦ inl kept
      | inr (x, e) ↦
          let (row0, found, proof) = proved x e in
          let same : row0 ≡ row = some_inj row0 row (sym found ∙ h) in
          inr (subst (Proves verify current) same proof)
    ]

guarded_update :
    (verify : String → String → Bool) (current : Option String) (hash : String → String) (now : ℕ)
    (u : User) (password name : Option String) (rows : List UserRow)
    → IsProved verify current u rows password
    → (id : ℕ) (row : UserRow) → find_user id rows ≡ some row
    → (row' : UserRow) × (find_user id
          (update_user_row u.id (updated hash now (profile_updates password name)) rows)
        ≡ some row')
      × ((row'.password_hash ≡ row.password_hash) ⊎ ((id ≡ u.id) × Proves verify current row))
guarded_update verify current hash now u password name rows proved id row h =
    let f = updated hash now (profile_updates password name) in
    elim (Bool-cases (id == u.id)) [
      | inl here ↦
          let at : id ≡ u.id = ground (arith, ==_iff id u.id) in
          let h' = subst (λ z. find_user z rows ≡ some row) at h in
          (
            f row,
            subst (λ z. find_user z (update_user_row u.id f rows) ≡ some (f row)) (sym at)
                (find_user-same u.id f rows row (λ x. refl) h'),
            elim (own_row verify current hash now u password name rows row proved h') [
              | inl kept ↦ inl kept
              | inr proof ↦ inr (at, proof)
            ],
          )
      | inr away ↦ (
        row,
        find_user-other u.id id f rows (λ x. refl) (λ at. ground (arith, ==_iff id u.id)) ∙ h,
        inl refl,
      )
    ]

saved-Guarded :
    (verify : String → String → Bool) (current : Option String) (hash : String → String) (now : ℕ)
    (r : Sender) (u : User) (password name : Option String) (s : Site)
    → IsProved verify current u s.auth.users password
    → Guarded verify current u s (
        saved password name u r s
          (update_user hash now u.id (profile_updates password name) s.auth))
saved-Guarded verify current hash now r u password name s proved = record {
  guarded = λ id row h.
      let p = update_user hash now u.id (profile_updates password name) s.auth in
      let R : List UserRow → Type 0 = λ rows.
        (row' : UserRow) × (find_user id rows ≡ some row')
        × ((row'.password_hash ≡ row.password_hash) ⊎ ((id ≡ u.id) × Proves verify current row)) in
      let stays : R s.auth.users = (row, h, inl refl) in
      let changes =
        guarded_update verify current hash now u password name s.auth.users proved id row h in
      let kept : R p.0.users =
        elim (update_user-users hash now u.id (profile_updates password name) s.auth) [
          | inl same ↦ subst R (sym same) stays
          | inr same ↦ subst R (sym same) changes
        ] in
      subst (λ (db : AuthDb). R db.users) (sym (saved-auth password name u r s p)) kept;
}

if-Guarded :
    (verify : String → String → Bool) (current : Option String) (u : User) (s : Site) (b : Bool)
    (a : Answer) (r : Site × Answer)
    → Guarded verify current u s r
    → Guarded verify current u s (if b then (s, a) else r)
if-Guarded verify current u s true a r h = unchanged verify current u s a
if-Guarded verify current u s false a r h = h

save_profile-Guarded :
    (verify : String → String → Bool) (current : Option String) (hash : String → String) (now : ℕ)
    (r : Sender) (u : User) (c c' : Checked) (s : Site)
    → ((x : String)
        → c ≡ proceeds (some x)
        → (row : UserRow) × (find_user u.id s.auth.users ≡ some row) × (Proves verify current row))
    → Guarded verify current u s (save_profile hash r now u c c' s)
unfolding save_profile
save_profile-Guarded verify current hash now r u (refuses status e) c' s proved =
    unchanged verify current u s _
save_profile-Guarded verify current hash now r u (proceeds p) (refuses status e) s proved =
    unchanged verify current u s _
save_profile-Guarded verify current hash now r u (proceeds p) (proceeds n) s proved =
    if-Guarded verify current u s (not (is_some p) && not (is_some n)) _ _
      (saved-Guarded verify current hash now r u p n s (λ x e. proved x (ap proceeds e)))

patch_profile-Guarded :
    (verify : String → String → Bool) (hash : String → String) (r : Sender) (now : ℕ)
    (b : ProfileBody) (u : User) (s : Site)
    → Guarded verify (truthy b.current_password) u s (patch_profile verify hash r now b u s)
unfolding patch_profile
patch_profile-Guarded verify hash r now b u s =
    let current = truthy b.current_password in
    let row = find_user u.id s.auth.users in
    let asked = checked_password verify (truthy b.new_password) current row in
    if-Guarded verify current u s (u.id == 0) _ _ (
      save_profile-Guarded verify current hash now r u asked (checked_name b.display_name) s
        (λ x e. proceeds-Proves verify (truthy b.new_password) current row x e))

patch_me-some :
    (env : Option String) (verify : String → String → Bool) (hash : String → String) (r : Sender)
    (now : ℕ) (b : ProfileBody) (s : Site) (u : User)
    → get_user_from_request env r.credentials now s.auth ≡ some u
    → patch_me env verify hash r now b s ≡ patch_profile verify hash r now b u s
unfolding patch_me
patch_me-some env verify hash r now b s u who = rw (patch_me, who) refl

-- After a PATCH of a profile every row is found with the hash that it had, but for the row of the user
-- who asks, whose hash is new only if the current password of the request verifies against the old one.
pub patch_me-Proves :
    (env : Option String) (verify : String → String → Bool) (hash : String → String) (r : Sender)
    (now : ℕ) (b : ProfileBody) (s : Site) (u : User) (id : ℕ) (row : UserRow)
    → get_user_from_request env r.credentials now s.auth ≡ some u
    → find_user id s.auth.users ≡ some row
    → (row' : UserRow) × (find_user id (patch_me env verify hash r now b s).0.auth.users
        ≡ some row')
      × ((row'.password_hash ≡ row.password_hash)
          ⊎ ((id ≡ u.id) × Proves verify (truthy b.current_password) row))
patch_me-Proves env verify hash r now b s u id row who h =
    let kept =
      subst (Guarded verify (truthy b.current_password) u s)
        (sym (patch_me-some env verify hash r now b s u who))
        (patch_profile-Guarded verify hash r now b u s) in
    kept.guarded id row h
