-- ===== src/Tasks/Approval.antt =====
-- What `hasAegisApproval` of the task routes says.
use omni_mission_control.Prelude.{
  ℕ, ◌≤◌, ◌≡◌, refl, sym, ◌∙◌, ◌⊎◌, inl, inr, true, false, some, List, [], filter, All, Any,
  Any-imp, Any-filter, All-unfilter, Option-cases, Bool-cases, arith,
}
use mathlib.Core.Path.{subst}
use omni_mission_control.Tasks.{
  ReviewStatus, approved, rejected, is_approved, Review, TaskDb, Newest, by_aegis,
  has_aegis_approval,
}

-- No review of the task by 'aegis' is newer.
abbrev pub IsLatest : ℕ → ℕ → List Review → Review → Type 0
IsLatest id w rs r =
    (by_aegis id w r ≡ true) × All (λ x. by_aegis id w x ≡ true → x.created_at ≤ r.created_at) rs

-- Some review by 'aegis' approves the task.
abbrev pub HasApproval : ℕ → ℕ → List Review → Type 0
HasApproval id w = Any (λ r. (by_aegis id w r ≡ true) × (r.status ≡ approved))

newest-IsLatest :
    (order : Newest) (id w : ℕ) (rs : List Review) (r : Review)
    → order.newest (filter (by_aegis id w) rs) ≡ some r
    → Any (λ x. IsLatest id w rs x × (x.status ≡ r.status)) rs
newest-IsLatest order id w rs r e =
    let (there, newer) = order.newest_some (filter (by_aegis id w) rs) r e in
    let later : All (λ x. by_aegis id w x ≡ true → x.created_at ≤ r.created_at) rs =
      All-unfilter (λ x. x.created_at ≤ r.created_at) (by_aegis id w) rs newer in
    Any-imp (λ x. (x ≡ r) × (by_aegis id w x ≡ true))
      (λ x. IsLatest id w rs x × (x.status ≡ r.status)) rs
      (λ x h. ((h.1, rw h.0 later), rw h.0 refl)) (Any-filter (λ x. x ≡ r) (by_aegis id w) rs there)

status-approved : (s : ReviewStatus) → is_approved s ≡ true → s ≡ approved
status-approved s e = ground arith

status-rejected : (s : ReviewStatus) → is_approved s ≡ false → s ≡ rejected
status-rejected s e = ground arith

-- What each of the two answers says.
approval_answers :
    (order : Newest) (id w : ℕ) (db : TaskDb)
    → (has_aegis_approval order id w db ≡ true
        → Any (λ r. IsLatest id w db.reviews r × (r.status ≡ approved)) db.reviews)
      × (has_aegis_approval order id w db ≡ false
          → All (λ r. by_aegis id w r ≡ true → ⊥) db.reviews
            ⊎ Any (λ r. IsLatest id w db.reviews r × (r.status ≡ rejected)) db.reviews)
unfolding has_aegis_approval
approval_answers order id w db =
    let rs : List Review = filter (by_aegis id w) db.reviews in
    elim (Option-cases (order.newest rs)) [
      | inl e ↦
          let empty : rs ≡ [] = order.newest_none rs e in
          (
            rw e (λ h. absurd (cc)),
            λ _. inl (
                All-unfilter (λ _. ⊥) (by_aegis id w) db.reviews
                  (subst (All (λ _. ⊥)) (sym empty) tt)),
          )
      | inr (r, e) ↦ rw e (
        λ h.
            Any-imp (λ x. IsLatest id w db.reviews x × (x.status ≡ r.status))
              (λ x. IsLatest id w db.reviews x × (x.status ≡ approved)) db.reviews
              (λ x k. (k.0, k.1 ∙ status-approved r.status h))
              (newest-IsLatest order id w db.reviews r e),
        λ h. inr (
            Any-imp (λ x. IsLatest id w db.reviews x × (x.status ≡ r.status))
              (λ x. IsLatest id w db.reviews x × (x.status ≡ rejected)) db.reviews
              (λ x k. (k.0, k.1 ∙ status-rejected r.status h))
              (newest-IsLatest order id w db.reviews r e)),
      )
    ]

pub HasApproval-has_aegis_approval :
    (order : Newest) (id w : ℕ) (db : TaskDb)
    → has_aegis_approval order id w db ≡ true
    → HasApproval id w db.reviews
HasApproval-has_aegis_approval order id w db h =
    Any-imp (λ r. IsLatest id w db.reviews r × (r.status ≡ approved))
      (λ r. (by_aegis id w r ≡ true) × (r.status ≡ approved)) db.reviews (λ r k. (k.0.0, k.1))
      ((approval_answers order id w db).0 h)

-- Whichever row the database takes among several of the same second: if a task counts as approved,
-- some latest review of it by 'aegis' approves it; if it does not, there is no review of it by
-- 'aegis', or some latest one rejects it.
pub has_aegis_approval_lem :
    (order : Newest) (id w : ℕ) (db : TaskDb)
    → (has_aegis_approval order id w db ≡ true)
        × Any (λ r. IsLatest id w db.reviews r × (r.status ≡ approved)) db.reviews
      ⊎ (has_aegis_approval order id w db ≡ false)
        × (All (λ r. ¬ (by_aegis id w r ≡ true)) db.reviews
            ⊎ Any (λ r. IsLatest id w db.reviews r × (r.status ≡ rejected)) db.reviews)
has_aegis_approval_lem order id w db =
    let (when_true, when_false) = approval_answers order id w db in
    elim (Bool-cases (has_aegis_approval order id w db)) [
      | inl e ↦ inl (e, when_true e)
      | inr e ↦ inr (e, when_false e)
    ]
