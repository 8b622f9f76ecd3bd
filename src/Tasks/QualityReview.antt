-- ===== src/Tasks/QualityReview.antt =====
-- The POST handler of src/app/api/quality-review/route.ts.
use omni_mission_control.Prelude.{
  ℕ, ◌+◌, ◌&&◌, none, some, [], ◌∷◌, ◌++◌, String, str_eq, if◌then◌else◌, concat,
}
use omni_mission_control.Auth.{RoleCheck, granted, refused, User}
use omni_mission_control.Tasks.{
  TaskStatus, Task, ReviewStatus, approved, rejected, is_approved, Review, reviewed, TaskDb,
  task_status_changed, broadcast, find_task, update_tasks, log_activity, Response, error,
  review_added,
}
use omni_mission_control.Tasks.Bulk.{set_status}

pub record CreateReview : Type 0 where
  pub task_id : ℕ
  pub reviewer : String
  pub status : ReviewStatus
  pub notes : String

abbrev pub review_name : ReviewStatus → String
review_name approved = "approved"
review_name rejected = "rejected"

abbrev pub new_review : User → ℕ → ℕ → CreateReview → Review
new_review u id now b = record {
  id = id;
  workspace_id = u.workspace_id;
  task_id = b.task_id;
  reviewer = b.reviewer;
  status = b.status;
  notes = b.notes;
  created_at = now;
}

abbrev pub insert_review : Review → TaskDb → TaskDb
insert_review r db = record db { reviews = db.reviews ++ r ∷ []; next_review = db.next_review + 1 }

abbrev pub log_review : User → ℕ → CreateReview → Task → TaskDb → TaskDb
log_review u now b t = log_activity (record {
  kind = "quality_review";
  entity_id = b.task_id;
  actor = b.reviewer;
  description =
      concat "Quality review " (concat (review_name b.status) (concat " for task: " t.title));
  details = reviewed b.status b.notes;
  created_at = now;
  workspace_id = u.workspace_id;
})

-- An approval by 'aegis' moves the task to 'done'.
abbrev pub finish : User → ℕ → ℕ → TaskDb → TaskDb
finish u now id db =
    broadcast (task_status_changed id TaskStatus.done now) (record db {
      tasks = update_tasks id u.workspace_id (set_status TaskStatus.done now) db.tasks;
    })

unfoldable pub post_review : RoleCheck → ℕ → CreateReview → TaskDb → TaskDb × Response
unfolding log_activity
post_review (refused message status) now b db = (db, error message status)
post_review (granted u) now b db = elim (find_task b.task_id u.workspace_id db.tasks) [
  | none ↦ (db, error "Task not found" 404)
  | some t ↦
      let logged = log_review u now b t (insert_review (new_review u db.next_review now b) db) in
      (
        if is_approved b.status && str_eq b.reviewer "aegis"
            then finish u now b.task_id logged
            else logged,
        review_added db.next_review,
      )
]
