-- ===== src/Tasks/Updated.antt =====
-- What the UPDATE of a PUT makes of a row.
use omni_mission_control.Prelude.{ℕ, ◌≡◌, refl, Option, none, some}
use omni_mission_control.Tasks.{Task}
use omni_mission_control.Tasks.Update.{UpdateTask, apply_update}
use omni_mission_control.Prelude.{get_or}
use omni_mission_control.Tasks.Update.{set_or}

-- A column of the new row: the value that the body gives, or else the old one.
abbrev pub Takes {ℓ} : {A : Type ℓ} → Option A → A → A → Type ℓ
Takes none old new = new ≡ old
Takes (some a) old new = new ≡ a

-- The same for a column that may be null.
abbrev pub TakesSome {ℓ} : {A : Type ℓ} → Option A → Option A → Option A → Type ℓ
TakesSome none old new = new ≡ old
TakesSome (some a) old new = new ≡ some a

-- What a PUT makes of a row, column by column.
pub record IsUpdated (b : UpdateTask) (now : ℕ) (t t' : Task) : Type 0 where
  pub id : t'.id ≡ t.id
  pub workspace_id : t'.workspace_id ≡ t.workspace_id
  pub created_by : t'.created_by ≡ t.created_by
  pub created_at : t'.created_at ≡ t.created_at
  pub updated_at : t'.updated_at ≡ now
  pub title : Takes b.title t.title t'.title
  pub description : TakesSome b.description t.description t'.description
  pub status : Takes b.status t.status t'.status
  pub priority : Takes b.priority t.priority t'.priority
  pub assigned_to : TakesSome b.assigned_to t.assigned_to t'.assigned_to
  pub due_date : TakesSome b.due_date t.due_date t'.due_date
  pub estimated_hours : TakesSome b.estimated_hours t.estimated_hours t'.estimated_hours
  pub actual_hours : TakesSome b.actual_hours t.actual_hours t'.actual_hours
  pub tags : Takes b.tags t.tags t'.tags
  pub metadata : Takes b.metadata t.metadata t'.metadata

get_or-Takes : {A : Type 0} (given : Option A) (old : A) → Takes given old (get_or given old)
get_or-Takes none old = refl
get_or-Takes (some b) old = refl

set_or-TakesSome : {A : Type 0} (given old : Option A) → TakesSome given old (set_or given old)
set_or-TakesSome none old = refl
set_or-TakesSome (some b) old = refl

pub apply_update-IsUpdated :
    (b : UpdateTask) (now : ℕ) (t : Task) → IsUpdated b now t (apply_update b now t)
apply_update-IsUpdated b now t = record {
  id = refl;
  workspace_id = refl;
  created_by = refl;
  created_at = refl;
  updated_at = refl;
  title = get_or-Takes b.title t.title;
  description = set_or-TakesSome b.description t.description;
  status = get_or-Takes b.status t.status;
  priority = get_or-Takes b.priority t.priority;
  assigned_to = set_or-TakesSome b.assigned_to t.assigned_to;
  due_date = set_or-TakesSome b.due_date t.due_date;
  estimated_hours = set_or-TakesSome b.estimated_hours t.estimated_hours;
  actual_hours = set_or-TakesSome b.actual_hours t.actual_hours;
  tags = get_or-Takes b.tags t.tags;
  metadata = get_or-Takes b.metadata t.metadata;
}
