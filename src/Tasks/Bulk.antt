-- ===== src/Tasks/Bulk.antt =====
-- The PUT handler of src/app/api/tasks/route.ts: it moves several tasks in one transaction. Rolling back
-- restores the tables, and not the events that the loop has broadcast.
use omni_mission_control.Prelude.{
  ℕ, not, ◌&&◌, Option, none, some, List, [], ◌∷◌, ◌++◌, str_eq, if◌then◌else◌, concat, map, length,
}
use omni_mission_control.Auth.{RoleCheck, granted, refused, User}
use omni_mission_control.Tasks.{
  TaskStatus, status_name, is_done, Task, moved, TaskDb, Event, task_status_changed, find_task,
  update_tasks, log_activity, Newest, has_aegis_approval, Response, aegis_required, updated, error,
}

-- An element of the request's `tasks`.
pub record Move : Type 0 where
  pub id : ℕ
  pub status : TaskStatus

abbrev pub set_status : TaskStatus → ℕ → Task → Task
set_status s now t = record t { status = s; updated_at = now }

unfoldable pub log_move : User → ℕ → Move → Task → TaskDb → TaskDb
unfolding log_activity
log_move u now m old db =
    if str_eq (status_name old.status) (status_name m.status)
    then db
    else log_activity
        (record {
          kind = "task_updated";
          entity_id = m.id;
          actor = u.username;
          description =
              concat "Task moved from "
                (concat (status_name old.status) (concat " to " (status_name m.status)));
          details = moved old.status m.status;
          created_at = now;
          workspace_id = u.workspace_id;
        })
        db

abbrev pub move_row : User → ℕ → Move → TaskDb → TaskDb
move_row u now m db = record db {
  tasks = update_tasks m.id u.workspace_id (set_status m.status now) db.tasks;
}

-- The loop of the transaction, and the id of the task at which it throws, if it does.
unfoldable pub move_all : Newest → User → ℕ → List Move → TaskDb → TaskDb × Option ℕ
unfolding has_aegis_approval log_move
move_all order u now [] db = (db, none)
move_all order u now (m ∷ ms) db = elim (find_task m.id u.workspace_id db.tasks) [
  | none ↦ move_all order u now ms db
  | some old ↦
      if is_done m.status && not (has_aegis_approval order m.id u.workspace_id db)
      then (db, some m.id)
      else move_all order u now ms (log_move u now m old (move_row u now m db))
]

-- `db.transaction`: the tables of `db` if the loop throws.
abbrev pub rolled_back : TaskDb → TaskDb → TaskDb
rolled_back db after = record db { events = after.events }

abbrev pub status_event : ℕ → Move → Event
status_event sent m = task_status_changed m.id m.status sent

abbrev pub broadcast_all : ℕ → List Move → TaskDb → TaskDb
broadcast_all sent ms db = record db { events = db.events ++ map (status_event sent) ms }

-- `sent` is the clock after the transaction.
unfoldable pub put_tasks : Newest → RoleCheck → ℕ → ℕ → List Move → TaskDb → TaskDb × Response
unfolding move_all
put_tasks order (refused message status) now sent ms db = (db, error message status)
put_tasks order (granted u) now sent ms db =
    let (after, thrown) = move_all order u now ms db in
    elim thrown [
      | some id ↦ (rolled_back db after, aegis_required id)
      | none ↦ (broadcast_all sent ms after, updated (length ms))
    ]
