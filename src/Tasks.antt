-- ===== src/Tasks.antt =====
-- The tables and events that the routes under src/app/api/tasks and src/app/api/quality-review share,
-- and the helpers of src/lib/db.ts that they call. One list of events stands for the event bus.
pub mod Create
pub mod Update
pub mod Bulk
pub mod QualityReview
pub mod Approval
pub mod Comments
pub mod Mentions
pub mod Subscribed
pub mod Told
pub mod Notified
mod CommentTests
pub mod Valid
pub mod Core
pub mod Gate
pub mod Transaction
pub mod Updated
pub mod Found
pub mod Answers
pub mod Isolation
pub mod Ungated
pub mod Order
mod Tests
use omni_mission_control.Prelude.{
  ℕ, ◌+◌, ◌≤◌, ◌≡◌, Bool, true, false, not, ◌&&◌, ◌||◌, Option, none, some, List, [], ◌∷◌, ◌++◌,
  String, map, find?, filter, any, ◌==◌, str_eq, if◌then◌else◌, is_some, is_empty, Any, All,
}

pub data TaskStatus : Type 0 where
  inbox assigned in_progress review quality_review done : TaskStatus

abbrev pub status_name : TaskStatus → String
status_name inbox = "inbox"
status_name assigned = "assigned"
status_name in_progress = "in_progress"
status_name review = "review"
status_name quality_review = "quality_review"
status_name done = "done"

abbrev pub is_done : TaskStatus → Bool
is_done done = true
is_done _ = false

pub data Priority : Type 0 where
  critical high medium low : Priority

abbrev pub priority_name : Priority → String
priority_name critical = "critical"
priority_name high = "high"
priority_name medium = "medium"
priority_name low = "low"

-- A row of `tasks`. `metadata` is the text of its JSON object.
pub record Task : Type 0 where
  pub id : ℕ
  pub workspace_id : ℕ
  pub title : String
  pub description : Option String
  pub status : TaskStatus
  pub priority : Priority
  pub assigned_to : Option String
  pub created_by : String
  pub created_at : ℕ
  pub updated_at : ℕ
  pub due_date : Option ℕ
  pub estimated_hours : Option ℕ
  pub actual_hours : Option ℕ
  pub tags : List String
  pub metadata : String

pub data ReviewStatus : Type 0 where
  approved rejected : ReviewStatus

abbrev pub is_approved : ReviewStatus → Bool
is_approved approved = true
is_approved rejected = false

-- A row of `quality_reviews`.
pub record Review : Type 0 where
  pub id : ℕ
  pub workspace_id : ℕ
  pub task_id : ℕ
  pub reviewer : String
  pub status : ReviewStatus
  pub notes : String
  pub created_at : ℕ

-- The `data` of an activity, by the code that logs it.
pub data ActivityData : Type 0 where
  created : String → TaskStatus → Priority → Option String → ActivityData
  moved : TaskStatus → TaskStatus → ActivityData
  changed :
      List String
      → Task
      → Option String
      → Option TaskStatus
      → Option Priority
      → Option String
      → ActivityData
  removed : String → TaskStatus → Option String → ActivityData
  reviewed : ReviewStatus → String → ActivityData
  commented : ℕ → String → Option ℕ → List String → String → ActivityData

pub record Activity : Type 0 where
  pub kind : String
  pub entity_id : ℕ
  pub actor : String
  pub description : String
  pub details : ActivityData
  pub created_at : ℕ
  pub workspace_id : ℕ

pub record Notification : Type 0 where
  pub recipient : String
  pub kind : String
  pub title : String
  pub message : String
  pub source_id : ℕ
  pub created_at : ℕ
  pub workspace_id : ℕ

pub data Event : Type 0 where
  task_created : Task → Event
  task_updated : Task → Event
  task_deleted : ℕ → String → Event
  task_status_changed : ℕ → TaskStatus → ℕ → Event
  activity_created : Activity → Event
  notification_created : Notification → Event

-- The tables, and the events broadcast so far.
pub record TaskDb : Type 0 where
  pub tasks : List Task
  pub next_task : ℕ
  pub reviews : List Review
  pub next_review : ℕ
  pub subscriptions : List (ℕ × String)
  pub activities : List Activity
  pub notifications : List Notification
  pub events : List Event

abbrev pub broadcast : Event → TaskDb → TaskDb
broadcast e db = record db { events = db.events ++ e ∷ [] }

-- `WHERE id = ? AND workspace_id = ?`
abbrev pub is_task : ℕ → ℕ → Task → Bool
is_task id w t = t.id == id && t.workspace_id == w

abbrev pub find_task : ℕ → ℕ → List Task → Option Task
find_task id w = find? (is_task id w)

abbrev pub update_tasks : ℕ → ℕ → (Task → Task) → List Task → List Task
update_tasks id w f = map (λ t. if is_task id w t then f t else t)

unfoldable pub log_activity : Activity → TaskDb → TaskDb
log_activity a db =
    broadcast (activity_created a) (record db { activities = db.activities ++ a ∷ [] })

unfoldable pub create_notification : Notification → TaskDb → TaskDb
create_notification n db =
    broadcast (notification_created n) (record db { notifications = db.notifications ++ n ∷ [] })

abbrev pub subscribes : ℕ → String → ℕ × String → Bool
subscribes id name s = s.0 == id && str_eq s.1 name

-- `INSERT OR IGNORE … SELECT`: the task must be there, and the pair is unique.
unfoldable pub ensure_task_subscription : ℕ → String → ℕ → TaskDb → TaskDb
ensure_task_subscription id name w db =
    if is_empty name
      || not (is_some (find_task id w db.tasks))
      || any (subscribes id name) db.subscriptions
    then db
    else record db { subscriptions = db.subscriptions ++ (id, name) ∷ [] }

-- `ORDER BY created_at DESC LIMIT 1`. Which of two rows of the same second comes first is left to the
-- database.
pub record Newest : Type 0 where
  pub newest : List Review → Option Review
  pub newest_some :
      (rs : List Review) (r : Review)
      → newest rs ≡ some r
      → Any (λ x. x ≡ r) rs × All (λ x. x.created_at ≤ r.created_at) rs
  pub newest_none : (rs : List Review) → newest rs ≡ none → rs ≡ []

-- The reviews of a task by the reviewer 'aegis'.
abbrev pub by_aegis : ℕ → ℕ → Review → Bool
by_aegis id w r = r.task_id == id && str_eq r.reviewer "aegis" && r.workspace_id == w

abbrev pub approves : Option Review → Bool
approves none = false
approves (some r) = is_approved r.status

unfoldable pub has_aegis_approval : Newest → ℕ → ℕ → TaskDb → Bool
has_aegis_approval order id w db = approves (order.newest (filter (by_aegis id w) db.reviews))

-- The answers of the handlers. `aegis_required` is the message with the task's id, and 403.
pub data Response : Type 0 where
  error : String → ℕ → Response
  aegis_required : ℕ → Response
  task : Task → ℕ → Response
  updated : ℕ → Response
  success : Response
  review_added : ℕ → Response
