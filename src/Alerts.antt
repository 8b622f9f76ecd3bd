-- ===== src/Alerts.antt =====
-- src/app/api/alerts/route.ts: alert rules, and when their conditions hold. What SQLite and JavaScript's
-- floating-point numbers decide about a text is an argument; a JSON column is the value that it holds.
pub mod Conditions
pub mod Rules
pub mod Evaluate
pub mod Cooldown
pub mod Counting
mod Tests
use omni_mission_control.Prelude.{
  ℕ, Bool, true, false, Option, none, some, List, String, str_eq, if◌then◌else◌, ℤ,
}

-- A row of `alert_rules`. `recipient` is what the code reads of `action_config`.
pub record AlertRule : Type 0 where
  pub id : ℕ
  pub workspace_id : ℕ
  pub name : String
  pub description : Option String
  pub enabled : Bool
  pub entity_type : String
  pub condition_field : String
  pub condition_operator : String
  pub condition_value : String
  pub action_type : String
  pub recipient : Option String
  pub cooldown_minutes : ℕ
  pub last_triggered_at : Option ℕ
  pub trigger_count : ℕ
  pub created_by : String
  pub updated_at : ℕ

-- The columns of the tables that rules read.
pub record AgentRow : Type 0 where
  pub id : ℕ
  pub workspace_id : ℕ
  pub status : String
  pub role : String
  pub name : String
  pub last_seen : Option ℕ
  pub last_activity : Option String

pub record TaskRow : Type 0 where
  pub id : ℕ
  pub workspace_id : ℕ
  pub status : String
  pub priority : String
  pub assigned_to : Option String
  pub title : String

pub record ActivityRow : Type 0 where
  pub id : ℕ
  pub workspace_id : ℕ
  pub kind : String
  pub actor : String
  pub entity_type : String
  pub created_at : ℕ

pub record AlertNotification : Type 0 where
  pub recipient : String
  pub title : String
  pub message : String
  pub source_id : ℕ
  pub workspace_id : ℕ

-- `audit_log`: an action, who did it, and its text.
pub record AuditRow : Type 0 where
  pub action : String
  pub actor : String
  pub detail : String

pub record AlertDb : Type 0 where
  pub rules : List AlertRule
  pub next_rule : ℕ
  pub agents : List AgentRow
  pub tasks : List TaskRow
  pub activities : List ActivityRow
  pub notifications : List AlertNotification
  pub audit_log : List AuditRow

-- The value of a column.
pub data Cell : Type 0 where
  null : Cell
  integer : ℕ → Cell
  text : String → Cell

-- A text as an integer column compares it, a text column compared with a number, and
-- `Number(a) > Number(b)` on two texts.
pub record Values : Type 0 where
  pub as_integer : String → Option ℕ
  pub text_below : String → ℤ → Bool
  pub above : String → String → Bool
