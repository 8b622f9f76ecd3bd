-- ===== src/Tasks/Create.antt =====
-- The POST handler of src/app/api/tasks/route.ts. The rate limiter has let the request pass; `auth` is
-- what `requireRole(request, 'operator')` answers and `body` what the schema accepted.
use omni_mission_control.Prelude.{
  ℕ, ◌+◌, Bool, ◌&&◌, Option, none, some, List, [], ◌∷◌, ◌++◌, String, find?, ◌==◌, str_eq, get_or,
  truthy, concat, if◌then◌else◌, is_some,
}
use omni_mission_control.Auth.{RoleCheck, granted, refused, User}
use omni_mission_control.Tasks.{
  TaskStatus, Priority, Task, created, TaskDb, task_created, broadcast, log_activity,
  create_notification, ensure_task_subscription, Response, error, task,
}

pub record CreateTask : Type 0 where
  pub title : String
  pub description : Option String
  pub status : Option TaskStatus
  pub priority : Option Priority
  pub assigned_to : Option String
  pub created_by : Option String
  pub due_date : Option ℕ
  pub estimated_hours : Option ℕ
  pub tags : Option (List String)
  pub metadata : Option String

-- The row that is inserted.
abbrev pub new_task : User → ℕ → ℕ → CreateTask → Task
new_task u id now b = record {
  id = id;
  workspace_id = u.workspace_id;
  title = b.title;
  description = b.description;
  status = get_or b.status TaskStatus.inbox;
  priority = get_or b.priority Priority.medium;
  assigned_to = b.assigned_to;
  created_by = get_or b.created_by u.username;
  created_at = now;
  updated_at = now;
  due_date = b.due_date;
  estimated_hours = b.estimated_hours;
  actual_hours = none;
  tags = get_or b.tags [];
  metadata = get_or b.metadata "{}";
}

abbrev pub same_title : String → ℕ → Task → Bool
same_title title w t = str_eq t.title title && t.workspace_id == w

abbrev pub insert_task : Task → TaskDb → TaskDb
insert_task t db = record db { tasks = db.tasks ++ t ∷ []; next_task = db.next_task + 1 }

abbrev pub log_created : Task → TaskDb → TaskDb
log_created t = log_activity (record {
  kind = "task_created";
  entity_id = t.id;
  actor = t.created_by;
  description = concat "Created task: " t.title;
  details = created t.title t.status t.priority t.assigned_to;
  created_at = t.created_at;
  workspace_id = t.workspace_id;
})

-- The subscription and the notification of the one who is assigned, where there is one.
unfoldable pub notify_assigned : Option String → ℕ → String → ℕ → ℕ → TaskDb → TaskDb
unfolding ensure_task_subscription create_notification
notify_assigned none id title now w db = db
notify_assigned (some name) id title now w db =
    create_notification
      (record {
        recipient = name;
        kind = "assignment";
        title = "Task Assigned";
        message = concat "You have been assigned to task: " title;
        source_id = id;
        created_at = now;
        workspace_id = w;
      })
      (ensure_task_subscription id name w db)

unfoldable pub create_task : RoleCheck → ℕ → CreateTask → TaskDb → TaskDb × Response
unfolding log_activity notify_assigned ensure_task_subscription
create_task (refused message status) now body db = (db, error message status)
create_task (granted u) now body db =
    let t = new_task u db.next_task now body in
    let logged = log_created t (insert_task t db) in
    let subscribed = ensure_task_subscription t.id t.created_by t.workspace_id logged in
    let notified =
      notify_assigned (truthy body.assigned_to) t.id t.title now t.workspace_id subscribed in
    if is_some (find? (same_title body.title u.workspace_id) db.tasks)
    then (db, error "Task with this title already exists" 409)
    else (broadcast (task_created t) notified, task t 201)
