-- ===== src/Provision.antt =====
-- src/lib/super-admin.ts: the tenants and the jobs that provision them. A JSON column is the value that
-- it holds; `now` is `unixepoch()`.
pub mod Plan
pub mod Decommission
pub mod Fields
pub mod Bootstrap
pub mod Accepted
pub mod Transition
pub mod Steps
pub mod Execute
pub mod Refusals
pub mod TwoPerson
pub mod Kept
pub mod Final
pub mod Tenants
pub mod Fresh
mod Tests
use omni_mission_control.Prelude.{
  ℕ, ◌+◌, Bool, true, false, not, ◌&&◌, Option, none, some, List, [], ◌∷◌, ◌++◌, String, map, find?,
  ◌==◌, str_eq, if◌then◌else◌, concat, trim, is_some,
}

pub data TenantStatus : Type 0 where
  pending provisioning decommissioning active suspended error : TenantStatus

-- A row of `tenants`; `config` is the text of its JSON object.
pub record Tenant : Type 0 where
  pub id : ℕ
  pub slug : String
  pub display_name : String
  pub linux_user : String
  pub plan_tier : String
  pub status : TenantStatus
  pub openclaw_home : String
  pub workspace_root : String
  pub gateway_port : Option ℕ
  pub dashboard_port : Option ℕ
  pub config : String
  pub created_by : String
  pub owner_gateway : Option String
  pub created_at : ℕ
  pub updated_at : ℕ

pub data JobType : Type 0 where
  bootstrap update decommission : JobType

pub data JobStatus : Type 0 where
  queued approved running completed failed rejected cancelled : JobStatus

abbrev pub job_status_name : JobStatus → String
job_status_name queued = "queued"
job_status_name approved = "approved"
job_status_name running = "running"
job_status_name completed = "completed"
job_status_name failed = "failed"
job_status_name rejected = "rejected"
job_status_name cancelled = "cancelled"

pub record ProvisionStep : Type 0 where
  pub key : String
  pub title : String
  pub command : List String
  pub requires_root : Bool
  pub timeout_ms : Option ℕ

-- What the code reads of a job's `request_json`.
pub record JobRequest : Type 0 where
  pub slug : Option String
  pub gateway_port : Option ℕ
  pub dry_run : Option Bool

pub record StepResult : Type 0 where
  pub key : String
  pub ok : Bool
  pub skipped : Bool
  pub stdout : String
  pub stderr : String

pub record ProvisionJob : Type 0 where
  pub id : ℕ
  pub tenant_id : ℕ
  pub job_type : JobType
  pub status : JobStatus
  pub dry_run : Bool
  pub requested_by : String
  pub approved_by : Option String
  pub runner_host : Option String
  pub request : JobRequest
  pub plan : List ProvisionStep
  pub result : Option (List StepResult)
  pub error_text : Option String
  pub started_at : Option ℕ
  pub completed_at : Option ℕ
  pub created_at : ℕ
  pub updated_at : ℕ

pub data Level : Type 0 where
  info warn error : Level

pub record ProvisionEvent : Type 0 where
  pub job_id : ℕ
  pub level : Level
  pub step_key : String
  pub message : String

pub record AuditEvent : Type 0 where
  pub action : String
  pub actor : String
  pub target_id : ℕ
  pub job_id : Option ℕ

-- A file openclaw-gateway.env, by the values that it is made of.
pub record Artifact : Type 0 where
  pub slug : String
  pub linux_user : String
  pub openclaw_home : String
  pub gateway_port : ℕ

-- What a step hands to the outside: itself to the provisioner daemon, with its dry-run flag, or a
-- command to the host.
pub data Handed : Type 0 where
  to_daemon : ProvisionStep → Bool → Handed
  to_host : List String → Handed

-- The tables, the artifacts written, and what was handed to the outside.
pub record ProvisionDb : Type 0 where
  pub tenants : List Tenant
  pub next_tenant : ℕ
  pub jobs : List ProvisionJob
  pub next_job : ℕ
  pub provision_events : List ProvisionEvent
  pub audit_log : List AuditEvent
  pub artifacts : List Artifact
  pub calls : List Handed

abbrev pub find_tenant : ℕ → List Tenant → Option Tenant
find_tenant id = find? (λ t. t.id == id)

abbrev pub find_job : ℕ → List ProvisionJob → Option ProvisionJob
find_job id = find? (λ j. j.id == id)

-- `getProvisionJob`: the job joined with its tenant.
unfoldable pub get_provision_job : ℕ → ProvisionDb → Option (ProvisionJob × Tenant)
get_provision_job id db = elim (find_job id db.jobs) [
  | none ↦ none
  | some j ↦ elim (find_tenant j.tenant_id db.tenants) [ none ↦ none | some t ↦ some (j, t) ]
]

-- `UPDATE provision_jobs SET … WHERE id = ?`
abbrev pub update_job : ℕ → (ProvisionJob → ProvisionJob) → ProvisionDb → ProvisionDb
update_job id f db = record db { jobs = map (λ j. if j.id == id then f j else j) db.jobs }

abbrev pub set_tenant_status : ℕ → TenantStatus → ℕ → ProvisionDb → ProvisionDb
set_tenant_status id s now db = record db {
  tenants =
      map (λ t. if t.id == id then record t { status = s; updated_at = now } else t) db.tenants;
}

unfoldable pub append_provision_event : ℕ → Level → String → String → ProvisionDb → ProvisionDb
append_provision_event job_id level key message db = record db {
  provision_events =
      db.provision_events
      ++ record { job_id = job_id; level = level; step_key = key; message = message } ∷ [];
}

unfoldable pub log_audit_event : String → String → ℕ → ℕ → ProvisionDb → ProvisionDb
log_audit_event action actor target job_id db = record db {
  audit_log =
      db.audit_log
      ++ record { action = action; actor = actor; target_id = target; job_id = some job_id } ∷ [];
}
