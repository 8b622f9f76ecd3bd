-- ===== src/Tasks/Tests.antt =====
-- Runs of the task routes, and instances of their theorems.
use omni_mission_control.Prelude.{
  ℕ, ◌≡◌, refl, none, some, List, [], ◌∷◌, find?, length, arith, Any, true, ◌⊎◌, map, false, All,
}
use omni_mission_control.Auth.{operator, User, granted}
use omni_mission_control.Tasks.{
  TaskStatus, Priority, Task, approved, Review, Event, TaskDb, find_task, has_aegis_approval,
  aegis_required, log_activity, updated, by_aegis, rejected,
}
use omni_mission_control.Tasks.Create.{CreateTask, new_task, create_task, same_title}
use omni_mission_control.Tasks.Update.{UpdateTask, put_task, put_found}
use omni_mission_control.Tasks.Bulk.{Move, log_move, move_all, put_tasks}
use omni_mission_control.Tasks.QualityReview.{CreateReview}
use omni_mission_control.Tasks.Approval.{IsLatest, HasApproval, has_aegis_approval_lem}
use omni_mission_control.Tasks.Gate.{
  create, put, delete, review, handle, serve, IsValidDb, serve-IsValidDb,
}
use omni_mission_control.Tasks.Transaction.{put_tasks_lem, is_refused, move_each}
use omni_mission_control.Tasks.Updated.{IsUpdated}
use omni_mission_control.Tasks.Answers.{handle-error_kept, put_task-stored, create_task-stored}
use omni_mission_control.Tasks.Isolation.{elsewhere, handle-elsewhere}
use omni_mission_control.Tasks.Ungated.{create_task-ungated}
use omni_mission_control.Tasks.Order.{insertion_order}
use omni_mission_control.Tasks.Core.{core}
use omni_mission_control.Tasks.Answers.{IsKept}
use omni_mission_control.Tasks.Gate.{put_many}

abbrev ada : User
ada = record {
  id = 3;
  username = "ada";
  display_name = "Ada";
  role = operator;
  workspace_id = 2;
  provider = none;
  email = none;
  avatar_url = none;
  is_approved = some 1;
  created_at = 1;
  updated_at = 1;
  last_login_at = none;
}

abbrev draft : Task
draft = record {
  id = 7;
  workspace_id = 2;
  title = "Write docs";
  description = none;
  status = TaskStatus.quality_review;
  priority = Priority.high;
  assigned_to = some "bee";
  created_by = "ada";
  created_at = 10;
  updated_at = 10;
  due_date = none;
  estimated_hours = none;
  actual_hours = none;
  tags = [];
  metadata = "{}";
}

abbrev other_draft : Task
other_draft = record draft { id = 8; title = "Fix build" }

abbrev foreign : Task
foreign = record draft { id = 9; workspace_id = 5 }

abbrev approval : Review
approval = record {
  id = 1;
  workspace_id = 2;
  task_id = 7;
  reviewer = "aegis";
  status = approved;
  notes = "fine";
  created_at = 20;
}

abbrev db : TaskDb
db = record {
  tasks = draft ∷ other_draft ∷ foreign ∷ [];
  next_task = 10;
  reviews = approval ∷ [];
  next_review = 2;
  subscriptions = [];
  activities = [];
  notifications = [];
  events = [];
}

abbrev to_done : ℕ → Move
to_done id = record { id = id; status = TaskStatus.done }

abbrev finish_update : UpdateTask
finish_update = record {
  title = none;
  description = none;
  status = some TaskStatus.done;
  priority = none;
  assigned_to = none;
  due_date = none;
  estimated_hours = none;
  actual_hours = none;
  tags = none;
  metadata = none;
}

abbrev fresh_task : CreateTask
fresh_task = record {
  title = "Deploy";
  description = none;
  status = none;
  priority = none;
  assigned_to = some "bee";
  created_by = none;
  due_date = none;
  estimated_hours = none;
  tags = none;
  metadata = none;
}

abbrev sign_off : CreateReview
sign_off = record { task_id = 8; reviewer = "aegis"; status = approved; notes = "good" }

db-IsValidDb : IsValidDb db
db-IsValidDb = record {
  gated = (λ e. absurd (cc), (λ e. absurd (cc), (λ e. absurd (cc), tt)));
  unique = (((λ e. omega arith), ((λ e. omega arith), tt)), (((λ e. omega arith), tt), (tt, tt)));
  below = (omega arith, (omega arith, (omega arith, tt)));
}

-- The unapproved task is refused and the approved one before it is rolled back.
one_refused :
    (put_tasks insertion_order (granted ada) 100 101 (to_done 7 ∷ to_done 8 ∷ []) db).1
    ≡ aegis_required 8
unfolding put_tasks move_all log_move log_activity has_aegis_approval
one_refused = refl

rolled-back :
    (put_tasks insertion_order (granted ada) 100 101 (to_done 7 ∷ to_done 8 ∷ []) db).0.tasks
    ≡ db.tasks
unfolding put_tasks move_all log_move log_activity has_aegis_approval
rolled-back = refl

-- The activity of the move that was rolled back has been broadcast.
still-broadcast :
    length
      (put_tasks insertion_order (granted ada) 100 101 (to_done 7 ∷ to_done 8 ∷ []) db).0.events
    ≡ 1
unfolding put_tasks move_all log_move log_activity has_aegis_approval
still-broadcast = refl

put_tasks_lem_example :
    let ms : List Move = to_done 7 ∷ to_done 8 ∷ [] in
    ((m : Move) × (find? (is_refused insertion_order 2 db) ms ≡ some m)
      × ((put_tasks insertion_order (granted ada) 100 101 ms db).1 ≡ aegis_required m.id)
      × ((es : List Event) × ((put_tasks insertion_order (granted ada) 100 101 ms db).0
            ≡ record db { events = es })))
    ⊎ (find? (is_refused insertion_order 2 db) ms ≡ none)
      × ((put_tasks insertion_order (granted ada) 100 101 ms db).1 ≡ updated 2)
      × (core (put_tasks insertion_order (granted ada) 100 101 ms db).0
          ≡ (map (move_each 2 100 ms) db.tasks, db.reviews, db.next_task))
put_tasks_lem_example = put_tasks_lem insertion_order ada 100 101 (to_done 7 ∷ to_done 8 ∷ []) db

has_aegis_approval_lem_example :
    (has_aegis_approval insertion_order 7 2 db ≡ true)
      × Any (λ r. IsLatest 7 2 db.reviews r × (r.status ≡ approved)) db.reviews
    ⊎ (has_aegis_approval insertion_order 7 2 db ≡ false)
      × (All (λ r. ¬ (by_aegis 7 2 r ≡ true)) db.reviews
          ⊎ Any (λ r. IsLatest 7 2 db.reviews r × (r.status ≡ rejected)) db.reviews)
has_aegis_approval_lem_example = has_aegis_approval_lem insertion_order 7 2 db

serve-IsValidDb_example : IsValidDb (
    serve insertion_order
      (create (granted ada) 100 fresh_task
        ∷ review (granted ada) 101 sign_off
        ∷ put (granted ada) 102 (some 7) finish_update
        ∷ delete (granted ada) 103 (some 8)
        ∷ [])
      db)
serve-IsValidDb_example =
    serve-IsValidDb insertion_order
      (create (granted ada) 100 fresh_task
        ∷ review (granted ada) 101 sign_off
        ∷ put (granted ada) 102 (some 7) finish_update
        ∷ delete (granted ada) 103 (some 8)
        ∷ [])
      db (refl, (tt, (tt, (tt, tt)))) db-IsValidDb

-- The second move is refused: the tables are as before, and the first has been told.
handle-error_kept_example : IsKept db (
    handle insertion_order
      (put_many (granted ada) 100 101 (
        record { id = 7; status = TaskStatus.review }
        ∷ record { id = 8; status = TaskStatus.done }
        ∷ []))
      db)
handle-error_kept_example =
    handle-error_kept insertion_order
      (put_many (granted ada) 100 101 (
        record { id = 7; status = TaskStatus.review }
        ∷ record { id = 8; status = TaskStatus.done }
        ∷ []))
      db

put_task-stored_example :
    (find_task 7 2 (put_task insertion_order (granted ada) 100 (some 7) finish_update db).0.tasks
      ≡ some (record draft { status = TaskStatus.done; updated_at = 100 }))
    × ((t : Task) × (find_task 7 2 db.tasks ≡ some t)
        × IsUpdated finish_update 100 t
            (record draft { status = TaskStatus.done; updated_at = 100 }))
unfolding put_task put_found has_aegis_approval
put_task-stored_example =
    put_task-stored insertion_order ada 100 7 finish_update db
      (record draft { status = TaskStatus.done; updated_at = 100 }) refl

handle-elsewhere_example :
    elsewhere 2 (handle insertion_order (delete (granted ada) 100 (some 7)) db).0.tasks
    ≡ foreign ∷ []
handle-elsewhere_example =
    handle-elsewhere insertion_order ada (delete (granted ada) 100 (some 7)) db refl

create_task-stored_example :
    let t : Task = new_task ada 10 100 fresh_task in
    (find_task 10 2 (create_task (granted ada) 100 fresh_task db).0.tasks ≡ some t)
    × (find_task 10 2 db.tasks ≡ none)
    × (find? (same_title "Deploy" 2) db.tasks ≡ none)
unfolding create_task
create_task-stored_example =
    create_task-stored ada 100 fresh_task db (new_task ada 10 100 fresh_task) db-IsValidDb refl

create_task-ungated_example :
    let b : CreateTask = record fresh_task { status = some TaskStatus.done } in
    (t : Task) × (find_task 10 2 (create_task (granted ada) 100 b db).0.tasks ≡ some t)
    × (t.status ≡ TaskStatus.done)
    × (¬ HasApproval t.id t.workspace_id (create_task (granted ada) 100 b db).0.reviews)
create_task-ungated_example =
    create_task-ungated ada 100 (record fresh_task { status = some TaskStatus.done }) db
      db-IsValidDb (omega arith, tt) refl refl
