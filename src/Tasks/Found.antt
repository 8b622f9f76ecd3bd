-- ===== src/Tasks/Found.antt =====
-- Finding a task by its id after a change.
use omni_mission_control.Prelude.{
  ℕ, ◌<◌, ◌≡◌, refl, ap, inl, inr, true, none, some, List, [], ◌∷◌, ◌++◌, arith, Bool-cases, All,
}
use omni_mission_control.Tasks.{Task, is_task, find_task, update_tasks, task}
use omni_mission_control.Tasks.Valid.{Keeps}

pub find_task-update :
    (id w : ℕ) (f : Task → Task) (ts : List Task) (t : Task)
    → Keeps f
    → find_task id w ts ≡ some t
    → find_task id w (update_tasks id w f ts) ≡ some (f t)
find_task-update id w f [] t k h = cc
find_task-update id w f (x ∷ ts) t k h = elim (Bool-cases (is_task id w x)) [
  | inl e ↦
      let same : x ≡ t = ground arith in
      let there : is_task id w (f x) ≡ true = ground (arith, (k x).0, (k x).1) in
      rw (e, there) (ap (λ y. some (f y)) same)
  | inr e ↦ rw (e, e) (find_task-update id w f ts t k (rw e at h))
]

pub find_task-absent :
    (id w : ℕ) (ts : List Task) → All (λ t. t.id < id) ts → find_task id w ts ≡ none
find_task-absent id w [] a = refl
find_task-absent id w (t ∷ ts) (l, a) = ground (arith, find_task-absent id w ts a)

pub find_task-append :
    (id w : ℕ) (ts : List Task) (t : Task)
    → find_task id w ts ≡ none
    → is_task id w t ≡ true
    → find_task id w (ts ++ t ∷ []) ≡ some t
find_task-append id w [] t h e = rw e refl
find_task-append id w (x ∷ ts) t h e = ground (arith, find_task-append id w ts t)

pub task_inj : (t t' : Task) (n : ℕ) → task t n ≡ task t' n → t ≡ t'
task_inj t t' n h = cc
