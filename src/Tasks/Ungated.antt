-- ===== src/Tasks/Ungated.antt =====
-- The POST handler of src/app/api/tasks/route.ts takes the status that the body names, 'done' too.
use omni_mission_control.Prelude.{
  ℕ, ◌<◌, ◌≡◌, refl, ap, ◌∙◌, false, some, List, [], ◌∷◌, is_some, find?, arith, All, inl, inr,
}
use omni_mission_control.Auth.{granted, User}
use omni_mission_control.Tasks.{TaskStatus, Task, Review, TaskDb, find_task}
use omni_mission_control.Tasks.Create.{CreateTask, new_task, same_title, create_task}
use omni_mission_control.Tasks.Approval.{HasApproval}
use omni_mission_control.Tasks.Core.{core-create_fresh}
use omni_mission_control.Tasks.Gate.{IsValidDb}
use omni_mission_control.Tasks.Found.{find_task-absent, find_task-append}

-- No review is of a task to come.
abbrev pub HasOldReviews : TaskDb → Type 0
HasOldReviews db = All (λ r. r.task_id < db.next_task) db.reviews

no_approval : (id w : ℕ) (rs : List Review) → All (λ r. r.task_id < id) rs → HasApproval id w rs → ⊥
no_approval id w [] a h = h
no_approval id w (r ∷ rs) (l, a) (inl h) = ground (arith, h.0)
no_approval id w (r ∷ rs) (l, a) (inr h) = no_approval id w rs a h

-- In valid tables, whose reviews are of tasks with smaller ids than the next: where the title is new, a
-- POST with the status 'done' stores a task that is done, and no review approves it.
pub create_task-ungated :
    (u : User) (now : ℕ) (b : CreateTask) (db : TaskDb)
    → IsValidDb db
    → HasOldReviews db
    → is_some (find? (same_title b.title u.workspace_id) db.tasks) ≡ false
    → b.status ≡ some TaskStatus.done
    → (t : Task) × (find_task db.next_task u.workspace_id (create_task (granted u) now b db).0.tasks
        ≡ some t)
      × (t.status ≡ TaskStatus.done)
      × (¬ HasApproval t.id t.workspace_id (create_task (granted u) now b db).0.reviews)
create_task-ungated u now b db v old fresh d =
    let w : ℕ = u.workspace_id in
    let t : Task = new_task u db.next_task now b in
    let e = core-create_fresh u now b db fresh in
    (
      t,
      ap (λ (c : List Task × List Review × ℕ). find_task db.next_task w c.0) e
          ∙ find_task-append db.next_task w db.tasks t
              (find_task-absent db.next_task w db.tasks v.below) (ground arith),
      rw d refl,
      rw (ap (λ (c : List Task × List Review × ℕ). c.1) e)
          (no_approval db.next_task w db.reviews old),
    )
