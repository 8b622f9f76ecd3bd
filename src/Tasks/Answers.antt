-- ===== src/Tasks/Answers.antt =====
-- The answers of the task routes: an error leaves the tables alone, a task that is shown is stored.
use omni_mission_control.Prelude.{
  ℕ, ◌≡◌, refl, ap, ◌∙◌, inl, inr, not, ◌&&◌, Option, none, some, List, String, arith, Bool-cases,
  Option-cases, is_some, find?, find?-true,
}
use mathlib.Core.Path.{subst}
use omni_mission_control.Auth.{granted, refused, User}
use omni_mission_control.Tasks.{
  Task, Review, TaskDb, Newest, is_task, find_task, has_aegis_approval, Response, error, task,
}
use omni_mission_control.Tasks.Create.{CreateTask, new_task, same_title, create_task}
use omni_mission_control.Tasks.Update.{
  UpdateTask, apply_update, asks_done, changes_nothing, put_found, put_task, delete_task,
}
use omni_mission_control.Tasks.Bulk.{Move, move_all, put_tasks}
use omni_mission_control.Tasks.QualityReview.{CreateReview, post_review}
use omni_mission_control.Tasks.Valid.{is_task-keys}
use omni_mission_control.Tasks.Core.{core-put_found, core-create_fresh, same_rows}
use omni_mission_control.Tasks.Gate.{
  Request, create, put, put_many, delete, review, handle, IsValidDb,
}
use omni_mission_control.Tasks.{aegis_required}
use omni_mission_control.Tasks.Updated.{IsUpdated, apply_update-IsUpdated}
use omni_mission_control.Tasks.Found.{
  find_task-update, find_task-absent, find_task-append, task_inj,
}

-- What an answer says of the tables: an error leaves them, and a refusal of the bulk PUT leaves all but
-- the events.
abbrev pub KeptBy : TaskDb → TaskDb → Response → Type 0
KeptBy db db' (error message status) = db' ≡ db
KeptBy db db' (aegis_required id) = record db' { events = db.events } ≡ db
KeptBy db db' _ = Unit

abbrev pub IsKept : TaskDb → TaskDb × Response → Type 0
IsKept db r = KeptBy db r.0 r.1

refused-IsKept : (db : TaskDb) (m : String) (s : ℕ) → IsKept db (db, error m s)
refused-IsKept db m s = refl

create_task-IsKept :
    (u : User) (now : ℕ) (b : CreateTask) (db : TaskDb)
    → IsKept db (create_task (granted u) now b db)
unfolding create_task
create_task-IsKept u now b db =
    elim (Bool-cases (is_some (find? (same_title b.title u.workspace_id) db.tasks))) [
      | inl e ↦ rw e refl
      | inr e ↦ rw e tt
    ]

put_task-IsKept :
    (order : Newest) (u : User) (now : ℕ) (id : Option ℕ) (b : UpdateTask) (db : TaskDb)
    → IsKept db (put_task order (granted u) now id b db)
unfolding put_task put_found
put_task-IsKept order u now none b db = refl
put_task-IsKept order u now (some id) b db =
    elim (Option-cases (find_task id u.workspace_id db.tasks)) [
      | inl e ↦ rw (e, put_task) refl
      | inr (t, e) ↦
          elim (Bool-cases
            (asks_done b.status && not (has_aegis_approval order id u.workspace_id db))) [
              | inl g ↦ rw (e, g, put_task) refl
              | inr g ↦ elim (Bool-cases (changes_nothing b)) [
                | inl n ↦ rw (e, g, n, put_task) refl
                | inr n ↦ rw (e, g, n, put_task) tt
              ]
            ]
    ]

put_tasks-IsKept :
    (order : Newest) (u : User) (now sent : ℕ) (ms : List Move) (db : TaskDb)
    → IsKept db (put_tasks order (granted u) now sent ms db)
unfolding put_tasks
put_tasks-IsKept order u now sent ms db = elim (Option-cases (move_all order u now ms db).1) [
  | inl e ↦ rw (e, put_tasks) tt
  | inr (id, e) ↦ rw (e, put_tasks) refl
]

delete_task-IsKept :
    (u : User) (now : ℕ) (id : Option ℕ) (db : TaskDb)
    → IsKept db (delete_task (granted u) now id db)
unfolding delete_task
delete_task-IsKept u now none db = refl
delete_task-IsKept u now (some id) db = elim (Option-cases (find_task id u.workspace_id db.tasks)) [
  | inl e ↦ rw (e, delete_task) refl
  | inr (t, e) ↦ rw (e, delete_task) tt
]

post_review-IsKept :
    (u : User) (now : ℕ) (b : CreateReview) (db : TaskDb)
    → IsKept db (post_review (granted u) now b db)
unfolding post_review
post_review-IsKept u now b db = elim (Option-cases (find_task b.task_id u.workspace_id db.tasks)) [
  | inl e ↦ rw (e, post_review) refl
  | inr (t, e) ↦ rw (e, post_review) tt
]

-- A request that is answered with an error, by the role check or by a guard of the handler, leaves
-- every table as it was. It broadcasts nothing either, unless the error is the bulk PUT's refusal for
-- a missing approval.
pub handle-error_kept :
    (order : Newest) (q : Request) (db : TaskDb)
    → KeptBy db (handle order q db).0 (handle order q db).1
unfolding handle
handle-error_kept order (create (granted u) now b) db = create_task-IsKept u now b db
handle-error_kept order (put (granted u) now id b) db = put_task-IsKept order u now id b db
handle-error_kept order (put_many (granted u) now sent ms) db =
    put_tasks-IsKept order u now sent ms db
handle-error_kept order (delete (granted u) now id) db = delete_task-IsKept u now id db
handle-error_kept order (review (granted u) now b) db = post_review-IsKept u now b db
handle-error_kept order (create (refused m s) now b) db =
    unfold create_task in refused-IsKept db m s
handle-error_kept order (put (refused m s) now id b) db = unfold put_task in refused-IsKept db m s
handle-error_kept order (put_many (refused m s) now sent ms) db =
    unfold put_tasks in refused-IsKept db m s
handle-error_kept order (delete (refused m s) now id) db =
    unfold delete_task in refused-IsKept db m s
handle-error_kept order (review (refused m s) now b) db =
    unfold post_review in refused-IsKept db m s

-- The task that a PUT answers is the one that its id finds afterwards. It is the task that was there
-- with the time of the request as `updated_at` and, column by column, the value that the body has
-- after the schema and its defaults, or the old value where that body has none.
pub put_task-stored :
    (order : Newest) (u : User) (now id : ℕ) (b : UpdateTask) (db : TaskDb) (t' : Task)
    → (put_task order (granted u) now (some id) b db).1 ≡ task t' 200
    → (find_task id u.workspace_id (put_task order (granted u) now (some id) b db).0.tasks
        ≡ some t')
      × ((t : Task) × (find_task id u.workspace_id db.tasks ≡ some t) × IsUpdated b now t t')
unfolding put_task put_found
put_task-stored order u now id b db t' =
    let w : ℕ = u.workspace_id in
    elim (Option-cases (find_task id w db.tasks)) [
      | inl e ↦ rw (e, put_task) (λ h. absurd (cc))
      | inr (t, e) ↦
          elim (Bool-cases (asks_done b.status && not (has_aegis_approval order id w db))) [
            | inl g ↦ rw (e, g, put_task) (λ h. absurd (cc))
            | inr g ↦ elim (Bool-cases (changes_nothing b)) [
              | inl n ↦ rw (e, g, n, put_task) (λ h. absurd (cc))
              | inr n ↦
                  let keys = is_task-keys id w t (find?-true (is_task id w) db.tasks t e) in
                  let f : Task → Task = apply_update b now in
                  let there : find_task id w (put_found u now b t db).0.tasks ≡ some (f t) =
                    ap (λ (c : List Task × List Review × ℕ). find_task id w c.0)
                      (core-put_found u now b t db)
                    ∙ ap (find_task id w)
                        (same_rows t.id id t.workspace_id w f db.tasks keys.0 keys.1)
                    ∙ find_task-update id w f db.tasks t (λ x. (refl, refl)) e in
                  rw (e, g, n, put_task)
                    (λ h.
                      let same : f t ≡ t' = task_inj (f t) t' 200 h in
                      (
                        there ∙ ap some same,
                        (t, refl, subst (IsUpdated b now t) same (apply_update-IsUpdated b now t)),
                      ))
            ]
          ]
    ]

-- In valid tables, the task that a POST answers has an id and a title that no task of the workspace
-- had, and its id finds it afterwards.
pub create_task-stored :
    (u : User) (now : ℕ) (b : CreateTask) (db : TaskDb) (t : Task)
    → IsValidDb db
    → (create_task (granted u) now b db).1 ≡ task t 201
    → (find_task t.id u.workspace_id (create_task (granted u) now b db).0.tasks ≡ some t)
      × (find_task t.id u.workspace_id db.tasks ≡ none)
      × (find? (same_title t.title u.workspace_id) db.tasks ≡ none)
unfolding create_task
create_task-stored u now b db t v =
    let w : ℕ = u.workspace_id in
    let made : Task = new_task u db.next_task now b in
    elim (Bool-cases (is_some (find? (same_title b.title w) db.tasks))) [
      | inl e ↦ rw e (λ h. absurd (cc))
      | inr e ↦
          let fresh : find_task db.next_task w db.tasks ≡ none =
            find_task-absent db.next_task w db.tasks v.below in
          let there : find_task db.next_task w (create_task (granted u) now b db).0.tasks
              ≡ some made =
            ap (λ (c : List Task × List Review × ℕ). find_task db.next_task w c.0)
              (core-create_fresh u now b db e)
            ∙ find_task-append db.next_task w db.tasks made fresh (ground arith) in
          λ h.
            let same : made ≡ t = task_inj made t 201 (rw e at h) in
            subst
              (λ (x : Task).
                (find_task x.id w (create_task (granted u) now b db).0.tasks ≡ some x)
                × (find_task x.id w db.tasks ≡ none)
                × (find? (same_title x.title w) db.tasks ≡ none))
              same (there, fresh, ground arith)
    ]
