-- ===== src/Tasks/Isolation.antt =====
-- The tasks of other workspaces are out of a request's reach.
use omni_mission_control.Prelude.{
  ℕ, ◌≡◌, refl, ap, ◌∙◌, inl, inr, not, ◌&&◌, List, [], ◌∷◌, ◌++◌, ◌==◌, filter, arith, Bool-cases,
  Option-cases,
}
use omni_mission_control.Auth.{RoleCheck, granted, User}
use omni_mission_control.Tasks.{
  TaskStatus, is_done, Task, Review, TaskDb, Newest, is_task, find_task, update_tasks,
  has_aegis_approval,
}
use omni_mission_control.Tasks.Create.{new_task}
use omni_mission_control.Tasks.Update.{apply_update}
use omni_mission_control.Tasks.Bulk.{Move, set_status, log_move, move_row, move_all, put_tasks}
use omni_mission_control.Tasks.Valid.{Keeps}
use omni_mission_control.Tasks.Core.{
  core, core-create_task, core-put_task, core-log_move, core-delete_task, core-post_review,
}
use omni_mission_control.Tasks.Gate.{Request, create, put, put_many, delete, review, handle}

-- The rows of the other workspaces.
abbrev pub elsewhere : ℕ → List Task → List Task
elsewhere w = filter (λ t. not (t.workspace_id == w))

abbrev pub auth_of : Request → RoleCheck
auth_of (create auth now b) = auth
auth_of (put auth now id b) = auth
auth_of (put_many auth now sent ms) = auth
auth_of (delete auth now id) = auth
auth_of (review auth now b) = auth

elsewhere-update :
    (id w : ℕ) (f : Task → Task) (ts : List Task)
    → Keeps f
    → elsewhere w (update_tasks id w f ts) ≡ elsewhere w ts
elsewhere-update id w f [] k = refl
elsewhere-update id w f (t ∷ ts) k = ground (arith, elsewhere-update id w f ts k, (k t).1)

elsewhere-append :
    (w : ℕ) (t : Task) (ts : List Task)
    → t.workspace_id ≡ w
    → elsewhere w (ts ++ t ∷ []) ≡ elsewhere w ts
elsewhere-append w t [] e = ground arith
elsewhere-append w t (x ∷ ts) e = ground (arith, elsewhere-append w t ts e)

elsewhere-drop :
    (id w : ℕ) (ts : List Task)
    → elsewhere w (filter (λ t. not (is_task id w t)) ts) ≡ elsewhere w ts
elsewhere-drop id w [] = refl
elsewhere-drop id w (t ∷ ts) = ground (arith, elsewhere-drop id w ts)

elsewhere-core :
    (w : ℕ) (c c' : List Task × List Review × ℕ) → c ≡ c' → elsewhere w c.0 ≡ elsewhere w c'.0
elsewhere-core w c c' e = ap (λ (x : List Task × List Review × ℕ). elsewhere w x.0) e

move_all-elsewhere :
    (order : Newest) (u : User) (now : ℕ) (ms : List Move) (db : TaskDb)
    → elsewhere u.workspace_id (move_all order u now ms db).0.tasks
      ≡ elsewhere u.workspace_id db.tasks
unfolding move_all
move_all-elsewhere order u now [] db = refl
move_all-elsewhere order u now (m ∷ ms) db =
    let w : ℕ = u.workspace_id in
    elim (Option-cases (find_task m.id w db.tasks)) [
      | inl e ↦ rw (e, move_all) (move_all-elsewhere order u now ms db)
      | inr (t, e) ↦
          elim (Bool-cases (is_done m.status && not (has_aegis_approval order m.id w db))) [
            | inl g ↦ rw (e, g, move_all) refl
            | inr g ↦
                let written : TaskDb = move_row u now m db in
                rw (e, g, move_all)
                  (move_all-elsewhere order u now ms (log_move u now m t written)
                    ∙ elsewhere-core w (core (log_move u now m t written)) (core written)
                        (core-log_move u now m t written)
                    ∙ elsewhere-update m.id w (set_status m.status now) db.tasks
                        (λ x. (refl, refl)))
          ]
    ]

put_tasks-elsewhere :
    (order : Newest) (u : User) (now sent : ℕ) (ms : List Move) (db : TaskDb)
    → elsewhere u.workspace_id (put_tasks order (granted u) now sent ms db).0.tasks
      ≡ elsewhere u.workspace_id db.tasks
unfolding put_tasks
put_tasks-elsewhere order u now sent ms db = elim (Option-cases (move_all order u now ms db).1) [
  | inl e ↦ rw (e, put_tasks) (move_all-elsewhere order u now ms db)
  | inr (id, e) ↦ rw (e, put_tasks) refl
]

-- A request of a user leaves the tasks of other workspaces as they are.
pub handle-elsewhere :
    (order : Newest) (u : User) (q : Request) (db : TaskDb)
    → auth_of q ≡ granted u
    → elsewhere u.workspace_id (handle order q db).0.tasks ≡ elsewhere u.workspace_id db.tasks
unfolding handle
handle-elsewhere order u (create auth now b) db a = rw a (elim (core-create_task u now b db) [
  | inl e ↦ elsewhere-core u.workspace_id _ _ e
  | inr e ↦
      elsewhere-core u.workspace_id _ _ e
      ∙ elsewhere-append u.workspace_id (new_task u db.next_task now b) db.tasks refl
])
handle-elsewhere order u (put auth now id b) db a = rw a (elim (core-put_task order u now id b db) [
  | inl e ↦ elsewhere-core u.workspace_id _ _ e
  | inr (i, g, e) ↦
      elsewhere-core u.workspace_id _ _ e
      ∙ elsewhere-update i u.workspace_id (apply_update b now) db.tasks (λ t. (refl, refl))
])
handle-elsewhere order u (put_many auth now sent ms) db a =
    rw a (put_tasks-elsewhere order u now sent ms db)
handle-elsewhere order u (delete auth now id) db a = rw a (elim (core-delete_task u now id db) [
  | inl e ↦ elsewhere-core u.workspace_id _ _ e
  | inr (i, t, f, e) ↦
      elsewhere-core u.workspace_id _ _ e ∙ elsewhere-drop i u.workspace_id db.tasks
])
handle-elsewhere order u (review auth now b) db a = rw a (elim (core-post_review u now b db) [
  | inl e ↦ elsewhere-core u.workspace_id _ _ e
  | inr (inl e) ↦ elsewhere-core u.workspace_id _ _ e
  | inr (inr (g, e)) ↦
      elsewhere-core u.workspace_id _ _ e
      ∙ elsewhere-update b.task_id u.workspace_id (set_status TaskStatus.done now) db.tasks
          (λ t. (refl, refl))
])
