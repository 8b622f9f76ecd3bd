-- ===== src/Tasks/Update.antt =====
-- The PUT and DELETE handlers of src/app/api/tasks/[id]/route.ts. `id` is `none` where the path holds no
-- number; the rate limiter has let the request pass and the schema has accepted the body.
use omni_mission_control.Prelude.{
  ℕ, Bool, true, false, not, ◌&&◌, ◌||◌, Option, none, some, List, [], ◌∷◌, ◌++◌, String, filter,
  ◌==◌, str_eq, if◌then◌else◌, get_or, truthy, str_or, concat, is_some,
}
use omni_mission_control.Auth.{RoleCheck, granted, refused, User}
use omni_mission_control.Tasks.{
  TaskStatus, status_name, is_done, Priority, priority_name, Task, changed, removed, TaskDb,
  task_updated, task_deleted, broadcast, is_task, find_task, update_tasks, log_activity,
  create_notification, Newest, has_aegis_approval, Response, error, task, success,
}
use omni_mission_control.Tasks.Create.{notify_assigned}

-- The body as the schema leaves it: a field that the request leaves out is there all the same if
-- `updateTaskSchema` has a default for it.
pub record UpdateTask : Type 0 where
  pub title : Option String
  pub description : Option String
  pub status : Option TaskStatus
  pub priority : Option Priority
  pub assigned_to : Option String
  pub due_date : Option ℕ
  pub estimated_hours : Option ℕ
  pub actual_hours : Option ℕ
  pub tags : Option (List String)
  pub metadata : Option String

-- A column for which the body has a value is overwritten, and null before it may stay null.
abbrev pub set_or {ℓ} : {A : Type ℓ} → Option A → Option A → Option A
set_or none old = old
set_or (some a) old = some a

-- The `UPDATE` that the fields make up.
abbrev pub apply_update : UpdateTask → ℕ → Task → Task
apply_update b now t = record t {
  title = get_or b.title t.title;
  description = set_or b.description t.description;
  status = get_or b.status t.status;
  priority = get_or b.priority t.priority;
  assigned_to = set_or b.assigned_to t.assigned_to;
  due_date = set_or b.due_date t.due_date;
  estimated_hours = set_or b.estimated_hours t.estimated_hours;
  actual_hours = set_or b.actual_hours t.actual_hours;
  tags = get_or b.tags t.tags;
  metadata = get_or b.metadata t.metadata;
  updated_at = now;
}

-- `fieldsToUpdate.length === 1`
abbrev pub changes_nothing : UpdateTask → Bool
changes_nothing b = not (
    is_some b.title
    || is_some b.description
    || is_some b.status
    || is_some b.priority
    || is_some b.assigned_to
    || is_some b.due_date
    || is_some b.estimated_hours
    || is_some b.actual_hours
    || is_some b.tags
    || is_some b.metadata)

abbrev pub asks_done : Option TaskStatus → Bool
asks_done none = false
asks_done (some s) = is_done s

-- Whether a value is given and differs from the one before.
abbrev pub differs : Option String → Option String → Bool
differs none old = false
differs (some s) none = true
differs (some s) (some t) = not (str_eq s t)

abbrev pub status_text : Option TaskStatus → Option String
status_text none = none
status_text (some s) = some (status_name s)

abbrev pub priority_text : Option Priority → Option String
priority_text none = none
priority_text (some p) = some (priority_name p)

abbrev pub if_changed : Bool → String → List String
if_changed b text = if b then text ∷ [] else []

abbrev pub from_to : String → String → String → String
from_to label old new = concat label (concat old (concat " → " new))

abbrev pub status_changes : UpdateTask → Task → Bool
status_changes b t = differs (status_text b.status) (some (status_name t.status))

abbrev pub changes : UpdateTask → Task → List String
changes b t =
    if_changed (status_changes b t)
      (from_to "status: " (status_name t.status) (get_or (status_text b.status) ""))
    ++ if_changed (differs b.assigned_to t.assigned_to) (
        from_to "assigned: " (str_or t.assigned_to "unassigned")
          (str_or b.assigned_to "unassigned"))
    ++ if_changed (differs (truthy b.title) (some t.title)) "title updated"
    ++ if_changed (differs (priority_text b.priority) (some (priority_name t.priority)))
        (from_to "priority: " (priority_name t.priority) (get_or (priority_text b.priority) ""))

-- `texts.join(', ')`
abbrev pub join : List String → String
join [] = ""
join (s ∷ []) = s
join (s ∷ t ∷ ts) = concat s (concat ", " (join (t ∷ ts)))

unfoldable pub notify_status : Bool → Option String → UpdateTask → Task → ℕ → TaskDb → TaskDb
unfolding create_notification
notify_status false name b t now db = db
notify_status true none b t now db = db
notify_status true (some name) b t now db =
    create_notification
      (record {
        recipient = name;
        kind = "status_change";
        title = "Task Status Updated";
        message =
            concat "Task \""
              (concat t.title (concat "\" status changed to " (get_or (status_text b.status) "")));
        source_id = t.id;
        created_at = now;
        workspace_id = t.workspace_id;
      })
      db

unfoldable pub log_changes : User → List String → UpdateTask → Task → ℕ → TaskDb → TaskDb
unfolding log_activity
log_changes u [] b t now db = db
log_changes u (c ∷ cs) b t now db =
    log_activity
      (record {
        kind = "task_updated";
        entity_id = t.id;
        actor = u.username;
        description = concat "Task updated: " (join (c ∷ cs));
        details = changed (c ∷ cs) t b.title b.status b.priority b.assigned_to;
        created_at = now;
        workspace_id = t.workspace_id;
      })
      db

-- The part of PUT behind its guards, for the row `t` that was found.
unfoldable pub put_found : User → ℕ → UpdateTask → Task → TaskDb → TaskDb × Response
unfolding notify_status notify_assigned log_changes
put_found u now b t db =
    let written : TaskDb = record db {
      tasks = update_tasks t.id t.workspace_id (apply_update b now) db.tasks;
    } in
    let told = notify_status (status_changes b t) (truthy t.assigned_to) b t now written in
    let newcomer = if differs b.assigned_to t.assigned_to then truthy b.assigned_to else none in
    let assigned = notify_assigned newcomer t.id t.title now t.workspace_id told in
    let logged = log_changes u (changes b t) b t now assigned in
    let updated = apply_update b now t in
    (broadcast (task_updated updated) logged, task updated 200)

unfoldable pub put_task :
    Newest → RoleCheck → ℕ → Option ℕ → UpdateTask → TaskDb → TaskDb × Response
unfolding has_aegis_approval put_found
put_task order (refused message status) now id b db = (db, error message status)
put_task order (granted u) now none b db = (db, error "Invalid task ID" 400)
put_task order (granted u) now (some id) b db = elim (find_task id u.workspace_id db.tasks) [
  | none ↦ (db, error "Task not found" 404)
  | some t ↦
      if asks_done b.status && not (has_aegis_approval order id u.workspace_id db)
      then (db, error "Aegis approval is required to move task to done." 403)
      else if changes_nothing b
      then (db, error "No fields to update" 400)
      else put_found u now b t db
]

-- The row goes, and with it, by the foreign keys, its reviews and subscriptions.
abbrev pub drop_task : ℕ → ℕ → TaskDb → TaskDb
drop_task id w db = record db {
  tasks = filter (λ t. not (is_task id w t)) db.tasks;
  reviews = filter (λ r. not (r.task_id == id)) db.reviews;
  subscriptions = filter (λ s. not (s.0 == id)) db.subscriptions;
}

unfoldable pub delete_task : RoleCheck → ℕ → Option ℕ → TaskDb → TaskDb × Response
unfolding log_activity
delete_task (refused message status) now id db = (db, error message status)
delete_task (granted u) now none db = (db, error "Invalid task ID" 400)
delete_task (granted u) now (some id) db = elim (find_task id u.workspace_id db.tasks) [
  | none ↦ (db, error "Task not found" 404)
  | some t ↦ (
    broadcast (task_deleted id t.title) (
        log_activity
          (record {
            kind = "task_deleted";
            entity_id = id;
            actor = u.username;
            description = concat "Deleted task: " t.title;
            details = removed t.title t.status t.assigned_to;
            created_at = now;
            workspace_id = u.workspace_id;
          })
          (drop_task id u.workspace_id db)),
    success,
  )
]
