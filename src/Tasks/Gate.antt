-- ===== src/Tasks/Gate.antt =====
-- The requests to the task routes, and the gate that they keep: no task is done without an approval.
use omni_mission_control.Prelude.{
  ℕ, ◌≡◌, refl, sym, ◌⊎◌, inl, inr, true, false, not, ◌&&◌, Option, none, some, List, [], ◌∷◌, ◌++◌,
  arith, Bool-cases, Option-cases, All, str_eq, get_or, Any-append_last,
}
use mathlib.Core.Path.{subst}
use omni_mission_control.Auth.{RoleCheck, granted, refused, User}
use omni_mission_control.Tasks.{
  TaskStatus, is_done, Task, Review, TaskDb, Newest, Response, find_task, update_tasks,
  has_aegis_approval, by_aegis, is_approved, approved,
}
use omni_mission_control.Tasks.Create.{CreateTask, new_task, insert_task, create_task}
use omni_mission_control.Tasks.Update.{
  UpdateTask, apply_update, asks_done, put_task, delete_task, drop_task,
}
use omni_mission_control.Tasks.Bulk.{Move, set_status, log_move, move_row, move_all, put_tasks}
use omni_mission_control.Tasks.QualityReview.{
  CreateReview, post_review, new_review, insert_review, finish,
}
use omni_mission_control.Tasks.Approval.{HasApproval, HasApproval-has_aegis_approval}
use omni_mission_control.Tasks.Valid.{
  IsValid, update_tasks-IsValid, append-IsValid, append_review-IsValid, drop-IsValid,
}
use omni_mission_control.Tasks.Core.{
  core, core-put_task, core-create_task, core-log_move, core-delete_task, core-post_review,
}

-- A request that the rate limiter lets pass, with the clock at which it is served.
pub data Request : Type 0 where
  create : RoleCheck → ℕ → CreateTask → Request
  put : RoleCheck → ℕ → Option ℕ → UpdateTask → Request
  put_many : RoleCheck → ℕ → ℕ → List Move → Request
  delete : RoleCheck → ℕ → Option ℕ → Request
  review : RoleCheck → ℕ → CreateReview → Request

unfoldable pub handle : Newest → Request → TaskDb → TaskDb × Response
handle order (create auth now b) db = create_task auth now b db
handle order (put auth now id b) db = put_task order auth now id b db
handle order (put_many auth now sent ms) db = put_tasks order auth now sent ms db
handle order (delete auth now id) db = delete_task auth now id db
handle order (review auth now b) db = post_review auth now b db

unfoldable pub serve : Newest → List Request → TaskDb → TaskDb
serve order [] db = db
serve order (q ∷ qs) db = serve order qs (handle order q db).0

abbrev pub IsValidDb : TaskDb → Type 0
IsValidDb db = IsValid db.tasks db.reviews db.next_task

core-IsValidDb :
    (c : List Task × List Review × ℕ) (db : TaskDb)
    → core db ≡ c
    → IsValid c.0 c.1 c.2
    → IsValidDb db
core-IsValidDb c db e v = subst (λ (c : List Task × List Review × ℕ). IsValid c.0 c.1 c.2) (sym e) v

-- Where the fields leave the status out or the approval is there, only an approved task gets done.
done-apply_update :
    (order : Newest) (id w now : ℕ) (b : UpdateTask) (db : TaskDb) (t : Task)
    → asks_done b.status && not (has_aegis_approval order id w db) ≡ false
    → is_done (apply_update b now t).status ≡ true
    → (is_done t.status ≡ true) ⊎ HasApproval id w db.reviews
done-apply_update order id w now b db t g d = elim (Option-cases (b.status)) [
  | inl e ↦ inl (rw e at d)
  | inr (s, e) ↦ inr (HasApproval-has_aegis_approval order id w db (ground arith))
]

put_task-IsValidDb :
    (order : Newest) (u : User) (now : ℕ) (id : Option ℕ) (b : UpdateTask) (db : TaskDb)
    → IsValidDb db
    → IsValidDb (put_task order (granted u) now id b db).0
put_task-IsValidDb order u now id b db v = elim (core-put_task order u now id b db) [
  | inl e ↦ core-IsValidDb (core db) (put_task order (granted u) now id b db).0 e v
  | inr (i, g, e) ↦
      core-IsValidDb
        (update_tasks i u.workspace_id (apply_update b now) db.tasks, db.reviews, db.next_task)
        (put_task order (granted u) now id b db).0 e
        (update_tasks-IsValid i u.workspace_id (apply_update b now) db.tasks db.reviews db.next_task
          (λ t. (refl, refl)) (λ t d. done-apply_update order i u.workspace_id now b db t g d) v)
]

-- A task that is made done in a move has been approved.
done-set_status :
    (order : Newest) (id w now : ℕ) (s : TaskStatus) (db : TaskDb) (t : Task)
    → is_done s && not (has_aegis_approval order id w db) ≡ false
    → is_done (set_status s now t).status ≡ true
    → (is_done t.status ≡ true) ⊎ HasApproval id w db.reviews
done-set_status order id w now s db t g d =
    inr (HasApproval-has_aegis_approval order id w db (ground arith))

move_all-IsValidDb :
    (order : Newest) (u : User) (now : ℕ) (ms : List Move) (db : TaskDb)
    → IsValidDb db
    → IsValidDb (move_all order u now ms db).0
unfolding move_all
move_all-IsValidDb order u now [] db v = v
move_all-IsValidDb order u now (m ∷ ms) db v =
    let w : ℕ = u.workspace_id in
    elim (Option-cases (find_task m.id w db.tasks)) [
      | inl e ↦ rw (e, move_all) (move_all-IsValidDb order u now ms db v)
      | inr (t, e) ↦
          elim (Bool-cases (is_done m.status && not (has_aegis_approval order m.id w db))) [
            | inl g ↦ rw (e, g, move_all) v
            | inr g ↦
                let written : TaskDb = move_row u now m db in
                let v' : IsValidDb written =
                  update_tasks-IsValid m.id w (set_status m.status now) db.tasks db.reviews
                    db.next_task (λ x. (refl, refl))
                    (λ x d. done-set_status order m.id w now m.status db x g d) v in
                rw (e, g, move_all)
                  (move_all-IsValidDb order u now ms (log_move u now m t written) (
                    core-IsValidDb (core written) (log_move u now m t written)
                      (core-log_move u now m t written) v'))
          ]
    ]

put_tasks-IsValidDb :
    (order : Newest) (u : User) (now sent : ℕ) (ms : List Move) (db : TaskDb)
    → IsValidDb db
    → IsValidDb (put_tasks order (granted u) now sent ms db).0
unfolding put_tasks
put_tasks-IsValidDb order u now sent ms db v = elim (Option-cases (move_all order u now ms db).1) [
  | inl e ↦ rw (e, put_tasks) (move_all-IsValidDb order u now ms db v)
  | inr (id, e) ↦ rw (e, put_tasks) v
]

delete_task-IsValidDb :
    (u : User) (now : ℕ) (id : Option ℕ) (db : TaskDb)
    → IsValidDb db
    → IsValidDb (delete_task (granted u) now id db).0
delete_task-IsValidDb u now id db v = elim (core-delete_task u now id db) [
  | inl e ↦ core-IsValidDb (core db) (delete_task (granted u) now id db).0 e v
  | inr (i, t, f, e) ↦
      core-IsValidDb (core (drop_task i u.workspace_id db)) (delete_task (granted u) now id db).0 e
        (drop-IsValid i u.workspace_id db.tasks db.reviews db.next_task t f v)
]

-- The review that was just added is the approval.
approval-new_review :
    (u : User) (id now : ℕ) (b : CreateReview) (rs : List Review)
    → is_approved b.status && str_eq b.reviewer "aegis" ≡ true
    → HasApproval b.task_id u.workspace_id (rs ++ new_review u id now b ∷ [])
approval-new_review u id now b rs g =
    Any-append_last (λ r. (by_aegis b.task_id u.workspace_id r ≡ true) × (r.status ≡ approved)) rs
      (new_review u id now b) (ground arith, ground arith)

post_review-IsValidDb :
    (u : User) (now : ℕ) (b : CreateReview) (db : TaskDb)
    → IsValidDb db
    → IsValidDb (post_review (granted u) now b db).0
post_review-IsValidDb u now b db v =
    let r : Review = new_review u db.next_review now b in
    let grown : IsValid db.tasks (db.reviews ++ r ∷ []) db.next_task =
      append_review-IsValid db.tasks db.reviews r db.next_task v in
    elim (core-post_review u now b db) [
      | inl e ↦ core-IsValidDb (core db) (post_review (granted u) now b db).0 e v
      | inr (inl e) ↦
          core-IsValidDb (core (insert_review r db)) (post_review (granted u) now b db).0 e grown
      | inr (inr (g, e)) ↦
          core-IsValidDb (core (finish u now b.task_id (insert_review r db)))
            (post_review (granted u) now b db).0 e
            (update_tasks-IsValid b.task_id u.workspace_id (set_status TaskStatus.done now) db.tasks
              (db.reviews ++ r ∷ []) db.next_task (λ t. (refl, refl))
              (λ t d. inr (approval-new_review u db.next_review now b db.reviews g)) grown)
    ]

-- A request that does not create a task as done.
abbrev pub CreatesNoDone : Request → Type 0
CreatesNoDone (create auth now b) = asks_done b.status ≡ false
CreatesNoDone _ = Unit

new_task_open :
    (s : Option TaskStatus) → asks_done s ≡ false → is_done (get_or s TaskStatus.inbox) ≡ false
new_task_open none h = refl
new_task_open (some s) h = h

create_task-IsValidDb :
    (u : User) (now : ℕ) (b : CreateTask) (db : TaskDb)
    → asks_done b.status ≡ false
    → IsValidDb db
    → IsValidDb (create_task (granted u) now b db).0
create_task-IsValidDb u now b db h v =
    let t : Task = new_task u db.next_task now b in
    elim (core-create_task u now b db) [
      | inl e ↦ core-IsValidDb (core db) (create_task (granted u) now b db).0 e v
      | inr e ↦
          core-IsValidDb (core (insert_task t db)) (create_task (granted u) now b db).0 e
            (append-IsValid db.tasks t db.reviews (new_task_open b.status h) v)
    ]

handle-IsValidDb :
    (order : Newest) (q : Request) (db : TaskDb)
    → CreatesNoDone q
    → IsValidDb db
    → IsValidDb (handle order q db).0
unfolding handle
handle-IsValidDb order (create (granted u) now b) db h v = create_task-IsValidDb u now b db h v
handle-IsValidDb order (put (granted u) now id b) db h v = put_task-IsValidDb order u now id b db v
handle-IsValidDb order (put_many (granted u) now sent ms) db h v =
    put_tasks-IsValidDb order u now sent ms db v
handle-IsValidDb order (delete (granted u) now id) db h v = delete_task-IsValidDb u now id db v
handle-IsValidDb order (review (granted u) now b) db h v = post_review-IsValidDb u now b db v
handle-IsValidDb order (create (refused m s) now b) db h v = unfold create_task in v
handle-IsValidDb order (put (refused m s) now id b) db h v = unfold put_task in v
handle-IsValidDb order (put_many (refused m s) now sent ms) db h v = unfold put_tasks in v
handle-IsValidDb order (delete (refused m s) now id) db h v = unfold delete_task in v
handle-IsValidDb order (review (refused m s) now b) db h v = unfold post_review in v

-- Whatever requests are served, from tables where this holds, and if none of them creates a task as
-- done: a task that is done has a review by 'aegis' in its workspace that approves it, and the ids of
-- tasks are unique and below the next one.
pub serve-IsValidDb :
    (order : Newest) (qs : List Request) (db : TaskDb)
    → All CreatesNoDone qs
    → IsValidDb db
    → IsValidDb (serve order qs db)
unfolding serve
serve-IsValidDb order [] db h v = v
serve-IsValidDb order (q ∷ qs) db (h, a) v =
    serve-IsValidDb order qs (handle order q db).0 a (handle-IsValidDb order q db h v)
