-- ===== src/Tasks/Valid.antt =====
-- The gate as an invariant of the tables of tasks and reviews, kept by the statements that the
-- handlers are made of.
use omni_mission_control.Prelude.{
  ℕ, ◌+◌, ◌<◌, ◌≡◌, sym, ◌∙◌, ◌≢◌, ◌⊎◌, inl, inr, Bool, true, false, not, List, [], ◌∷◌, ◌++◌, ◌==◌,
  filter, arith, All, All-append, All-imp, All-filter, Any-append, Any-keep, Bool-cases, some,
  All-both, find?-All, find?-true,
}
use mathlib.Core.Path.{subst}
use omni_mission_control.Tasks.{
  is_done, Task, Review, is_task, find_task, update_tasks, by_aegis, approved,
}
use omni_mission_control.Tasks.Approval.{HasApproval}

-- A task that is done has been approved.
abbrev pub IsGated : List Review → Task → Type 0
IsGated rs t = is_done t.status ≡ true → HasApproval t.id t.workspace_id rs

abbrev pub HasUniqueIds : List Task → Type 0
HasUniqueIds [] = Unit
HasUniqueIds (t ∷ ts) = All (λ x. x.id ≢ t.id) ts × HasUniqueIds ts

pub record IsValid (ts : List Task) (rs : List Review) (n : ℕ) : Type 0 where
  pub gated : All (IsGated rs) ts
  pub unique : HasUniqueIds ts
  pub below : All (λ t. t.id < n) ts

abbrev pub Keeps : (Task → Task) → Type 0
Keeps f = (t : Task) → ((f t).id ≡ t.id) × ((f t).workspace_id ≡ t.workspace_id)

pub is_task-keys :
    (id w : ℕ) (t : Task) → is_task id w t ≡ true → (t.id ≡ id) × (t.workspace_id ≡ w)
is_task-keys id w t h = ground arith

update_tasks-All :
    (P : Task → Type 0) (id w : ℕ) (f : Task → Task) (ts : List Task)
    → ((t : Task) → is_task id w t ≡ true → P t → P (f t))
    → All P ts
    → All P (update_tasks id w f ts)
update_tasks-All P id w f [] g a = tt
update_tasks-All P id w f (t ∷ ts) g (h, a) = elim (Bool-cases (is_task id w t)) [
  | inl e ↦ rw e (g t e h, update_tasks-All P id w f ts g a)
  | inr e ↦ rw e (h, update_tasks-All P id w f ts g a)
]

update_tasks-HasUniqueIds :
    (id w : ℕ) (f : Task → Task) (ts : List Task)
    → Keeps f
    → HasUniqueIds ts
    → HasUniqueIds (update_tasks id w f ts)
update_tasks-HasUniqueIds id w f [] k u = tt
update_tasks-HasUniqueIds id w f (t ∷ ts) k (d, u) =
    let rest = update_tasks-HasUniqueIds id w f ts k u in
    let apart : All (λ x. x.id ≢ t.id) (update_tasks id w f ts) =
      update_tasks-All (λ x. x.id ≢ t.id) id w f ts (λ x _ n e. n (sym (k x).0 ∙ e)) d in
    elim (Bool-cases (is_task id w t)) [
      | inl e ↦ rw e (
        All-imp (λ x. x.id ≢ t.id) (λ x. x.id ≢ (f t).id) (update_tasks id w f ts)
            (λ x n e'. n (e' ∙ (k t).0)) apart,
        rest,
      )
      | inr e ↦ rw e (apart, rest)
    ]

-- An update that makes a task done only where it is approved.
pub update_tasks-IsValid :
    (id w : ℕ) (f : Task → Task) (ts : List Task) (rs : List Review) (n : ℕ)
    → Keeps f
    → ((t : Task) → is_done (f t).status ≡ true → (is_done t.status ≡ true) ⊎ HasApproval id w rs)
    → IsValid ts rs n
    → IsValid (update_tasks id w f ts) rs n
update_tasks-IsValid id w f ts rs n k g v = record {
  gated =
      update_tasks-All (IsGated rs) id w f ts
        (λ t e h d.
          let (i, o) = is_task-keys id w t e in
          subst (λ j. HasApproval j (f t).workspace_id rs) (sym (k t).0)
            (subst (λ v. HasApproval t.id v rs) (sym (k t).1)
              (elim (g t d) [
                | inl old ↦ h old
                | inr a ↦
                    subst (λ j. HasApproval j t.workspace_id rs) (sym i)
                      (subst (λ v. HasApproval id v rs) (sym o) a)
              ])))
        v.gated;
  unique = update_tasks-HasUniqueIds id w f ts k v.unique;
  below = update_tasks-All (λ t. t.id < n) id w f ts (λ t e h. omega (arith, (k t).0)) v.below;
}

HasUniqueIds-append :
    (ts : List Task) (t : Task)
    → HasUniqueIds ts
    → All (λ x. x.id ≢ t.id) ts
    → HasUniqueIds (ts ++ t ∷ [])
HasUniqueIds-append [] t u a = (tt, tt)
HasUniqueIds-append (x ∷ ts) t (d, u) (n, a) =
    (All-append (λ y. y.id ≢ x.id) ts (t ∷ []) d (λ e. n (sym e), tt), HasUniqueIds-append ts t u a)

-- A new task that is not done.
pub append-IsValid :
    (ts : List Task) (t : Task) (rs : List Review)
    → is_done t.status ≡ false
    → IsValid ts rs t.id
    → IsValid (ts ++ t ∷ []) rs (t.id + 1)
append-IsValid ts t rs e v = record {
  gated = All-append (IsGated rs) ts (t ∷ []) v.gated (λ h. absurd (cc), tt);
  unique =
      HasUniqueIds-append ts t v.unique
        (All-imp (λ x. x.id < t.id) (λ x. x.id ≢ t.id) ts (λ x l q. omega arith) v.below);
  below =
      All-append (λ x. x.id < t.id + 1) ts (t ∷ [])
        (All-imp (λ x. x.id < t.id) (λ x. x.id < t.id + 1) ts (λ x l. omega arith) v.below)
        (omega arith, tt);
}

-- A new review.
pub append_review-IsValid :
    (ts : List Task) (rs : List Review) (r : Review) (n : ℕ)
    → IsValid ts rs n
    → IsValid ts (rs ++ r ∷ []) n
append_review-IsValid ts rs r n v = record {
  gated =
      All-imp (IsGated rs) (IsGated (rs ++ r ∷ [])) ts
        (λ t g d.
          Any-append (λ x. (by_aegis t.id t.workspace_id x ≡ true) × (x.status ≡ approved)) rs
            (r ∷ []) (g d))
        v.gated;
  unique = v.unique;
  below = v.below;
}

-- Once a row is deleted, no row has its id.
others :
    (id w : ℕ) (ts : List Task) (t : Task)
    → find_task id w ts ≡ some t
    → HasUniqueIds ts
    → All (λ x. x.id ≢ id) (filter (λ x. not (is_task id w x)) ts)
others id w [] t h u = tt
others id w (x ∷ ts) t h (d, u) = elim (Bool-cases (is_task id w x)) [
  | inl e ↦ rw e (
      All-filter (λ y. y.id ≢ id) (λ y. not (is_task id w y)) ts
        (All-imp (λ y. y.id ≢ x.id) (λ y. y.id ≢ id) ts
          (λ y n q. n (q ∙ sym (is_task-keys id w x e).0)) d))
  | inr e ↦
      let deep : find_task id w ts ≡ some t = rw e at h in
      let at_t : t.id ≡ id = (is_task-keys id w t (find?-true (is_task id w) ts t deep)).0 in
      let apart : t.id ≢ x.id = find?-All (λ y. y.id ≢ x.id) (is_task id w) ts t d deep in
      rw e (λ q. apart (at_t ∙ sym q), others id w ts t deep u)
]

filter-HasUniqueIds :
    (p : Task → Bool) (ts : List Task) → HasUniqueIds ts → HasUniqueIds (filter p ts)
filter-HasUniqueIds p [] u = tt
filter-HasUniqueIds p (t ∷ ts) (d, u) = elim (Bool-cases (p t)) [
  | inl e ↦ rw e (All-filter (λ x. x.id ≢ t.id) p ts d, filter-HasUniqueIds p ts u)
  | inr e ↦ rw e (filter-HasUniqueIds p ts u)
]

-- Deleting a task that is there, with its reviews.
pub drop-IsValid :
    (id w : ℕ) (ts : List Task) (rs : List Review) (n : ℕ) (t : Task)
    → find_task id w ts ≡ some t
    → IsValid ts rs n
    → IsValid (filter (λ x. not (is_task id w x)) ts) (filter (λ r. not (r.task_id == id)) rs) n
drop-IsValid id w ts rs n t h v =
    let left : List Task = filter (λ x. not (is_task id w x)) ts in
    record {
      gated =
          All-imp (λ x. IsGated rs x × (x.id ≢ id))
            (IsGated (filter (λ r. not (r.task_id == id)) rs)) left
            (λ x k d.
              Any-keep (λ r. (by_aegis x.id x.workspace_id r ≡ true) × (r.status ≡ approved))
                (λ r. not (r.task_id == id)) rs (λ r b. ground arith) (k.0 d))
            (All-both (IsGated rs) (λ x. x.id ≢ id) left
              (All-filter (IsGated rs) (λ x. not (is_task id w x)) ts v.gated)
              (others id w ts t h v.unique));
      unique = filter-HasUniqueIds (λ x. not (is_task id w x)) ts v.unique;
      below = All-filter (λ x. x.id < n) (λ x. not (is_task id w x)) ts v.below;
    }
