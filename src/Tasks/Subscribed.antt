-- ===== src/Tasks/Subscribed.antt =====
-- What subscribing and notifying change, in the comments' handler and src/lib/db.ts.
use mathlib.Core.Path.{subst}
use mathlib.Core.List.{append-nil, append_assoc}
use omni_mission_control.Prelude.{
  ℕ, ◌≡◌, inl, inr, refl, sym, ap, ◌∙◌, Bool, true, false, not, ◌||◌, List, [], ◌∷◌, ◌++◌, map,
  filter, any, String, str_eq, eq_iff, ◌==◌, ==_iff, is_some, is_empty, Bool-cases, arith,
}
use omni_mission_control.Tasks.{
  Task, TaskDb, find_task, create_notification, subscribes, ensure_task_subscription,
}
use omni_mission_control.Tasks.Comments.{
  Comment, member, subscribe_all, comment_notification, notify_all,
}

pub notify_all-notifications :
    (shorten : String → String) (c : Comment) (t : Task) (people names : List String) (db : TaskDb)
    → (notify_all shorten c t people names db).notifications
      ≡ db.notifications ++ map (λ s. comment_notification shorten c t s (member s people)) names
unfolding notify_all create_notification
notify_all-notifications shorten c t people [] db = sym (append-nil db.notifications)
notify_all-notifications shorten c t people (s ∷ ss) db =
    notify_all-notifications shorten c t people ss
      (create_notification (comment_notification shorten c t s (member s people)) db)
    ∙ append_assoc db.notifications (comment_notification shorten c t s (member s people) ∷ []) _

-- The tables that a subscription keeps.
unfoldable pub Keeps : TaskDb → TaskDb → Type 0
Keeps db db' = (db'.notifications ≡ db.notifications) × (db'.tasks ≡ db.tasks)

ensure-Keeps : (id w : ℕ) (n : String) (db : TaskDb) → Keeps db (ensure_task_subscription id n w db)
unfolding Keeps ensure_task_subscription
ensure-Keeps id w n db =
    elim (Bool-cases (
      is_empty n
      || not (is_some (find_task id w db.tasks))
      || any (subscribes id n) db.subscriptions)) [
        | inl e ↦ rw e (refl, refl)
        | inr e ↦ rw e (refl, refl)
      ]

pub subscribe_all-Keeps :
    (id w : ℕ) (ns : List String) (db : TaskDb) → Keeps db (subscribe_all id w ns db)
unfolding Keeps subscribe_all
subscribe_all-Keeps id w [] db = (refl, refl)
subscribe_all-Keeps id w (n ∷ ns) db =
    let one = ensure-Keeps id w n db in
    let rest = subscribe_all-Keeps id w ns (ensure_task_subscription id n w db) in
    (rest.0 ∙ one.0, rest.1 ∙ one.1)

-- Somebody is subscribed to a task.
abbrev pub IsSubscribed : ℕ → String → TaskDb → Type 0
IsSubscribed id m db = any (subscribes id m) db.subscriptions ≡ true

pub any-append :
    {A : Type 0} (p : A → Bool) (xs ys : List A) → any p (xs ++ ys) ≡ (any p xs || any p ys)
any-append p [] ys = refl
any-append p (x ∷ xs) ys = ground (arith, any-append p xs ys)

module _ (id w : ℕ) where
  ensure-IsSubscribed :
      (n m : String) (db : TaskDb)
      → IsSubscribed id m db
      → IsSubscribed id m (ensure_task_subscription id n w db)
  unfolding ensure_task_subscription
  ensure-IsSubscribed n m db h =
      elim (Bool-cases (
        is_empty n
        || not (is_some (find_task id w db.tasks))
        || any (subscribes id n) db.subscriptions)) [
          | inl e ↦ rw e h
          | inr e ↦ rw (e, any-append (subscribes id m) db.subscriptions ((id, n) ∷ []), h) refl
        ]

  subscribes_self : (n : String) → subscribes id n (id, n) ≡ true
  subscribes_self n = ground (arith, ==_iff id id, eq_iff n n)

  -- Where the task is there, everyone with a name is subscribed by it.
  ensure_subscribes :
      (n : String) (db : TaskDb)
      → is_empty n ≡ false
      → is_some (find_task id w db.tasks) ≡ true
      → IsSubscribed id n (ensure_task_subscription id n w db)
  unfolding ensure_task_subscription
  ensure_subscribes n db e f = elim (Bool-cases (any (subscribes id n) db.subscriptions)) [
    | inl s ↦ rw (e, f, s) s
    | inr s ↦
        rw
          (
            e,
            f,
            s,
            any-append (subscribes id n) db.subscriptions ((id, n) ∷ []),
            s,
            subscribes_self n,
          )
          refl
  ]

  pub subscribe_all-IsSubscribed :
      (ns : List String) (m : String) (db : TaskDb)
      → IsSubscribed id m db
      → IsSubscribed id m (subscribe_all id w ns db)
  unfolding subscribe_all
  subscribe_all-IsSubscribed [] m db h = h
  subscribe_all-IsSubscribed (n ∷ ns) m db h =
      subscribe_all-IsSubscribed ns m (ensure_task_subscription id n w db)
        (ensure-IsSubscribed n m db h)

  pub subscribe_all-member :
      (ns : List String) (m : String) (db : TaskDb)
      → member m ns ≡ true
      → is_empty m ≡ false
      → is_some (find_task id w db.tasks) ≡ true
      → IsSubscribed id m (subscribe_all id w ns db)
  unfolding subscribe_all Keeps
  subscribe_all-member [] m db h e f = cc
  subscribe_all-member (n ∷ ns) m db h e f = elim (Bool-cases (str_eq n m)) [
    | inl same ↦ subscribe_all-IsSubscribed ns m (ensure_task_subscription id n w db) (
        subst (λ k. IsSubscribed id m (ensure_task_subscription id k w db))
          (sym ((eq_iff n m).0 same)) (ensure_subscribes m db e f))
    | inr other ↦
        subscribe_all-member ns m (ensure_task_subscription id n w db) (ground (arith, h, other)) e
          (ap (λ ts. is_some (find_task id w ts)) (ensure-Keeps id w n db).1 ∙ f)
  ]

pub member-names :
    (id : ℕ) (m : String) (ss : List (ℕ × String))
    → any (subscribes id m) ss ≡ true
    → member m (map (λ s. s.1) (filter (λ s. s.0 == id) ss)) ≡ true
member-names id m [] h = cc
member-names id m (s ∷ ss) h = elim (Bool-cases (s.0 == id)) [
  | inl e ↦ ground (arith, e, member-names id m ss)
  | inr e ↦ rw e (member-names id m ss (ground (arith, h, e)))
]
