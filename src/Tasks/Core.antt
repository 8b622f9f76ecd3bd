-- ===== src/Tasks/Core.antt =====
-- What each handler of the task routes does to the tables that the gate reads.
use omni_mission_control.Prelude.{
  ℕ, ◌≡◌, refl, ap, ◌∙◌, ◌⊎◌, inl, inr, Bool, true, false, not, ◌&&◌, ◌||◌, Option, none, some,
  List, [], ◌∷◌, String, if◌then◌else◌, Bool-cases, Option-cases, truthy, is_some, any, is_empty,
  find?, str_eq, find?-true,
}
use omni_mission_control.Auth.{granted, User}
use omni_mission_control.Tasks.{
  is_task, status_name, Task, Review, TaskDb, Newest, find_task, update_tasks, log_activity,
  create_notification, ensure_task_subscription, subscribes, has_aegis_approval, is_approved,
}
use omni_mission_control.Tasks.Create.{
  CreateTask, new_task, insert_task, log_created, notify_assigned, create_task, same_title,
}
use omni_mission_control.Tasks.Update.{
  UpdateTask, apply_update, asks_done, notify_status, log_changes, put_found, put_task, delete_task,
  drop_task, changes, status_changes, differs, changes_nothing,
}
use omni_mission_control.Tasks.Bulk.{Move, log_move}
use omni_mission_control.Tasks.QualityReview.{
  CreateReview, post_review, new_review, insert_review, finish,
}
use omni_mission_control.Tasks.Valid.{is_task-keys}

-- What the gate reads of the tables.
abbrev pub core : TaskDb → List Task × List Review × ℕ
core db = (db.tasks, db.reviews, db.next_task)

pub same_rows :
    (i j v w : ℕ) (f : Task → Task) (ts : List Task)
    → i ≡ j
    → v ≡ w
    → update_tasks i v f ts ≡ update_tasks j w f ts
same_rows i j v w f ts e g = ap (λ k. update_tasks k v f ts) e ∙ ap (λ k. update_tasks j k f ts) g

pub core-ensure_task_subscription :
    (id : ℕ) (name : String) (w : ℕ) (db : TaskDb)
    → core (ensure_task_subscription id name w db) ≡ core db
unfolding ensure_task_subscription
core-ensure_task_subscription id name w db =
    elim (Bool-cases (
      is_empty name
      || not (is_some (find_task id w db.tasks))
      || any (subscribes id name) db.subscriptions)) [ inl e ↦ rw e refl | inr e ↦ rw e refl ]

pub core-notify_assigned :
    (o : Option String) (id : ℕ) (title : String) (now w : ℕ) (db : TaskDb)
    → core (notify_assigned o id title now w db) ≡ core db
unfolding notify_assigned create_notification
core-notify_assigned none id title now w db = refl
core-notify_assigned (some name) id title now w db = core-ensure_task_subscription id name w db

pub core-notify_status :
    (b : Bool) (o : Option String) (u : UpdateTask) (t : Task) (now : ℕ) (db : TaskDb)
    → core (notify_status b o u t now db) ≡ core db
unfolding notify_status create_notification
core-notify_status false o u t now db = refl
core-notify_status true none u t now db = refl
core-notify_status true (some name) u t now db = refl

pub core-log_changes :
    (u : User) (cs : List String) (b : UpdateTask) (t : Task) (now : ℕ) (db : TaskDb)
    → core (log_changes u cs b t now db) ≡ core db
unfolding log_changes log_activity
core-log_changes u [] b t now db = refl
core-log_changes u (c ∷ cs) b t now db = refl

pub core-log_move :
    (u : User) (now : ℕ) (m : Move) (old : Task) (db : TaskDb)
    → core (log_move u now m old db) ≡ core db
unfolding log_move log_activity
core-log_move u now m old db =
    elim (Bool-cases (str_eq (status_name old.status) (status_name m.status))) [
      | inl e ↦ rw e refl
      | inr e ↦ rw e refl
    ]

-- Creating a task inserts one row, if the title is new.
pub core-create_fresh :
    (u : User) (now : ℕ) (b : CreateTask) (db : TaskDb)
    → is_some (find? (same_title b.title u.workspace_id) db.tasks) ≡ false
    → core (create_task (granted u) now b db).0
      ≡ core (insert_task (new_task u db.next_task now b) db)
unfolding create_task log_activity
core-create_fresh u now b db e =
    let t : Task = new_task u db.next_task now b in
    let logged : TaskDb = log_created t (insert_task t db) in
    let subscribed : TaskDb = ensure_task_subscription t.id t.created_by t.workspace_id logged in
    rw e (
      core-notify_assigned (truthy b.assigned_to) t.id t.title now t.workspace_id subscribed
      ∙ core-ensure_task_subscription t.id t.created_by t.workspace_id logged)

pub core-create_task :
    (u : User) (now : ℕ) (b : CreateTask) (db : TaskDb)
    → (core (create_task (granted u) now b db).0 ≡ core db)
      ⊎ (core (create_task (granted u) now b db).0
          ≡ core (insert_task (new_task u db.next_task now b) db))
unfolding create_task
core-create_task u now b db =
    elim (Bool-cases (is_some (find? (same_title b.title u.workspace_id) db.tasks))) [
      | inl e ↦ inl (rw e refl)
      | inr e ↦ inr (core-create_fresh u now b db e)
    ]

pub core-put_found :
    (u : User) (now : ℕ) (b : UpdateTask) (t : Task) (db : TaskDb)
    → core (put_found u now b t db).0
      ≡ (update_tasks t.id t.workspace_id (apply_update b now) db.tasks, db.reviews, db.next_task)
unfolding put_found
core-put_found u now b t db =
    let written : TaskDb = record db {
      tasks = update_tasks t.id t.workspace_id (apply_update b now) db.tasks;
    } in
    let told : TaskDb = notify_status (status_changes b t) (truthy t.assigned_to) b t now written in
    let newcomer : Option String =
      if differs b.assigned_to t.assigned_to then truthy b.assigned_to else none in
    let assigned : TaskDb = notify_assigned newcomer t.id t.title now t.workspace_id told in
    core-log_changes u (changes b t) b t now assigned
    ∙ core-notify_assigned newcomer t.id t.title now t.workspace_id told
    ∙ core-notify_status (status_changes b t) (truthy t.assigned_to) b t now written

-- Updating a task rewrites one row, behind the gate.
pub core-put_task :
    (order : Newest) (u : User) (now : ℕ) (id : Option ℕ) (b : UpdateTask) (db : TaskDb)
    → (core (put_task order (granted u) now id b db).0 ≡ core db)
      ⊎ ((i : ℕ) × (asks_done b.status && not (has_aegis_approval order i u.workspace_id db)
            ≡ false)
          × (core (put_task order (granted u) now id b db).0 ≡ (
            update_tasks i u.workspace_id (apply_update b now) db.tasks,
            db.reviews,
            db.next_task,
          )))
unfolding put_task
core-put_task order u now none b db = inl refl
core-put_task order u now (some id) b db =
    let w : ℕ = u.workspace_id in
    elim (Option-cases (find_task id w db.tasks)) [
      | inl e ↦ inl (rw (e, put_task) refl)
      | inr (t, e) ↦
          elim (Bool-cases (asks_done b.status && not (has_aegis_approval order id w db))) [
            | inl g ↦ inl (rw (e, g, put_task) refl)
            | inr g ↦ elim (Bool-cases (changes_nothing b)) [
              | inl n ↦ inl (rw (e, g, n, put_task) refl)
              | inr n ↦
                  let (at_id, at_w) =
                    is_task-keys id w t (find?-true (is_task id w) db.tasks t e) in
                  inr (
                    id,
                    g,
                    rw (e, g, n, put_task)
                        (core-put_found u now b t db
                          ∙ ap (λ (ts : List Task). (ts, db.reviews, db.next_task))
                              (same_rows t.id id t.workspace_id w (apply_update b now) db.tasks
                                at_id at_w)),
                  )
            ]
          ]
    ]

-- Deleting a task drops its row and its reviews.
pub core-delete_task :
    (u : User) (now : ℕ) (id : Option ℕ) (db : TaskDb)
    → (core (delete_task (granted u) now id db).0 ≡ core db)
      ⊎ ((i : ℕ) × (t : Task) × (find_task i u.workspace_id db.tasks ≡ some t)
          × (core (delete_task (granted u) now id db).0 ≡ core (drop_task i u.workspace_id db)))
unfolding delete_task log_activity
core-delete_task u now none db = inl refl
core-delete_task u now (some id) db = elim (Option-cases (find_task id u.workspace_id db.tasks)) [
  | inl e ↦ inl (rw (e, delete_task) refl)
  | inr (t, e) ↦ inr (id, t, e, rw (e, delete_task) refl)
]

-- A review is added, and an approval by 'aegis' finishes its task.
pub core-post_review :
    (u : User) (now : ℕ) (b : CreateReview) (db : TaskDb)
    → (core (post_review (granted u) now b db).0 ≡ core db)
      ⊎ (core (post_review (granted u) now b db).0
          ≡ core (insert_review (new_review u db.next_review now b) db))
      ⊎ (is_approved b.status && str_eq b.reviewer "aegis" ≡ true)
        × (core (post_review (granted u) now b db).0
            ≡ core (finish u now b.task_id (insert_review (new_review u db.next_review now b) db)))
unfolding post_review log_activity
core-post_review u now b db = elim (Option-cases (find_task b.task_id u.workspace_id db.tasks)) [
  | inl e ↦ inl (rw (e, post_review) refl)
  | inr (t, e) ↦ elim (Bool-cases (is_approved b.status && str_eq b.reviewer "aegis")) [
    | inl g ↦ inr (inr (g, rw (e, g, post_review) refl))
    | inr g ↦ inr (inl (rw (e, g, post_review) refl))
  ]
]
