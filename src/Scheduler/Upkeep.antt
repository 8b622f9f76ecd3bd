-- ===== src/Scheduler/Upkeep.antt =====
-- The tables that the upkeep tasks of src/lib/scheduler.ts work on, and the tasks themselves in the
-- children. Times in the tables are seconds.
pub mod Cleanup
pub mod Heartbeat
pub mod Backup
use omni_mission_control.Prelude.{ℕ, ◌+◌, Option, List, ◌∷◌, [], ◌++◌, String, ℤ}
use omni_mission_control.Scheduler.Config.{Settings}

pub data AgentStatus : Type 0 where
  offline idle busy error : AgentStatus

-- A row of `agents`, without its session, prompt and configuration.
pub record Agent : Type 0 where
  pub id : ℕ
  pub name : String
  pub role : String
  pub status : AgentStatus
  pub last_seen : Option ℕ
  pub last_activity : Option String
  pub workspace_id : ℕ
  pub updated_at : ℕ

pub record ActivityRow : Type 0 where
  pub kind : String
  pub entity_type : String
  pub entity_id : ℕ
  pub actor : String
  pub description : String
  pub created_at : ℕ
  pub workspace_id : ℕ

pub record NotificationRow : Type 0 where
  pub recipient : String
  pub kind : String
  pub title : String
  pub message : String
  pub source_type : String
  pub source_id : ℕ
  pub created_at : ℕ
  pub workspace_id : ℕ

-- The `detail` of an audit row, by the task that writes it.
pub data AuditDetail : Type 0 where
  backed_up : String → ℕ → AuditDetail
  total_deleted : ℕ → AuditDetail
  marked_offline : List String → AuditDetail

pub record AuditRow : Type 0 where
  pub action : String
  pub actor : String
  pub detail : AuditDetail
  pub created_at : ℕ

pub record RunRow : Type 0 where
  pub id : ℕ
  pub created_at : ℕ

-- A record of the file of token usage, in milliseconds.
pub record UsageRow : Type 0 where
  pub model : String
  pub timestamp : ℕ

-- A file of the folder of backups.
pub record BackupFile : Type 0 where
  pub name : String
  pub mtime : ℕ

-- What the tasks read and write. `usage` is `none` where the file does not hold a list.
pub record Office : Type 0 where
  pub settings : Settings
  pub agents : List Agent
  pub activities : List ActivityRow
  pub audit_log : List AuditRow
  pub notifications : List NotificationRow
  pub pipeline_runs : List RunRow
  pub usage : Option (List UsageRow)
  pub backups : List BackupFile

-- `logAuditEvent` for an action that is not a security event.
unfoldable pub log_audit : String → AuditDetail → ℕ → Office → Office
log_audit action detail now o = record o {
  audit_log =
      o.audit_log
      ++ record { action = action; actor = "scheduler"; detail = detail; created_at = now } ∷ [];
}
