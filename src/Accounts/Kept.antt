-- ===== src/Accounts/Kept.antt =====
-- The changes of the rows of users that src/app/api/auth/users/route.ts makes, over the users of other
-- workspaces and the role of the admin who asks.
use mathlib.Core.Path.{subst}
use omni_mission_control.Prelude.{
  ℕ, sym, ◌∙◌, ◌≡◌, ◌≢◌, inl, inr, refl, arith, ◌==◌, ==_iff, not, some, List, [], ◌∷◌, ◌++◌,
  filter, Bool-cases,
}
use omni_mission_control.Auth.{User, UserRow, find_user, update_user_row}

-- The rows of other workspaces are the same, and the row of the user keeps the user's role.
abbrev pub Keeps : User → List UserRow → List UserRow → Type 0
Keeps u rows rows' =
    (id : ℕ) (row : UserRow)
    → find_user id rows ≡ some row
    → (row.workspace_id ≢ u.workspace_id → find_user id rows' ≡ some row)
      × (id ≡ u.id
          → row.role ≡ u.role
          → (row' : UserRow) × (find_user id rows' ≡ some row') × (row'.role ≡ u.role))

pub Keeps-refl : (u : User) (rows : List UserRow) → Keeps u rows rows
Keeps-refl u rows id row h = ((λ _. h), λ _ same. (row, h, same))

find_user-append :
    (id : ℕ) (rows : List UserRow) (x row : UserRow)
    → find_user id rows ≡ some row
    → find_user id (rows ++ x ∷ []) ≡ some row
find_user-append id [] x row h = cc
find_user-append id (y ∷ rows) x row h = ground (arith, find_user-append id rows x row)

pub Keeps-append : (u : User) (rows : List UserRow) (x : UserRow) → Keeps u rows (rows ++ x ∷ [])
Keeps-append u rows x id row h = (
  (λ _. find_user-append id rows x row h),
  λ _ same. (row, find_user-append id rows x row h, same),
)

find_user-remove :
    (k id : ℕ) (rows : List UserRow)
    → id ≢ k
    → find_user id (filter (λ v. not (v.id == k)) rows) ≡ find_user id rows
find_user-remove k id [] h = refl
find_user-remove k id (y ∷ rows) h =
    ground (arith, find_user-remove k id rows h, ==_iff y.id k, ==_iff y.id id)

pub find_user-other :
    (k id : ℕ) (f : UserRow → UserRow) (rows : List UserRow)
    → ((x : UserRow) → (f x).id ≡ x.id)
    → id ≢ k
    → find_user id (update_user_row k f rows) ≡ find_user id rows
find_user-other k id f [] same h = refl
find_user-other k id f (y ∷ rows) same h =
    ground (arith, find_user-other k id f rows same h, same y, ==_iff y.id k, ==_iff y.id id)

pub find_user-same :
    (id : ℕ) (f : UserRow → UserRow) (rows : List UserRow) (row : UserRow)
    → ((x : UserRow) → (f x).id ≡ x.id)
    → find_user id rows ≡ some row
    → find_user id (update_user_row id f rows) ≡ some (f row)
find_user-same id f [] row same h = cc
find_user-same id f (y ∷ rows) row same h =
    ground (arith, find_user-same id f rows row same, same y, ==_iff y.id id)

-- A row that is found in the workspace, under the number of a changed row.
not_elsewhere :
    (u : User) (rows : List UserRow) (id k : ℕ) (row row0 : UserRow)
    → find_user k rows ≡ some row0
    → row0.workspace_id ≡ u.workspace_id
    → find_user id rows ≡ some row
    → row.workspace_id ≢ u.workspace_id
    → id ≢ k
not_elsewhere u rows id k row row0 e w h other same =
    let e' : find_user id rows ≡ some row0 =
      subst (λ z. find_user z rows ≡ some row0) (sym same) e in
    other (ground arith)

pub Keeps-update :
    (u : User) (rows : List UserRow) (k : ℕ) (row0 : UserRow) (f : UserRow → UserRow)
    → find_user k rows ≡ some row0
    → row0.workspace_id ≡ u.workspace_id
    → ((x : UserRow) → (f x).id ≡ x.id)
    → (k ≡ u.id → (x : UserRow) → x.role ≡ u.role → (f x).role ≡ u.role)
    → Keeps u rows (update_user_row k f rows)
Keeps-update u rows k row0 f e w same role id row h = (
  (λ other. find_user-other k id f rows same (not_elsewhere u rows id k row row0 e w h other) ∙ h),
  λ own held. elim (Bool-cases (id == k)) [
    | inl here ↦
        let at : id ≡ k = ground (arith, ==_iff id k) in
        (
          f row,
          subst (λ z. find_user id (update_user_row z f rows) ≡ some (f row)) at
              (find_user-same id f rows row same h),
          role (sym at ∙ own) row held,
        )
    | inr away ↦
        (row, find_user-other k id f rows same (λ at. ground (arith, ==_iff id k)) ∙ h, held)
  ],
)

pub Keeps-remove :
    (u : User) (rows : List UserRow) (k : ℕ) (row0 : UserRow)
    → find_user k rows ≡ some row0
    → row0.workspace_id ≡ u.workspace_id
    → k ≢ u.id
    → Keeps u rows (filter (λ v. not (v.id == k)) rows)
Keeps-remove u rows k row0 e w apart id row h = (
  (λ other. find_user-remove k id rows (not_elsewhere u rows id k row row0 e w h other) ∙ h),
  λ own held. (row, find_user-remove k id rows (λ at. apart (sym at ∙ own)) ∙ h, held),
)
