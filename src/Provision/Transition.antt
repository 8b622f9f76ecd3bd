-- ===== src/Provision/Transition.antt =====
-- `transitionProvisionJobStatus` of src/lib/super-admin.ts.
use omni_mission_control.Prelude.{
  ℕ, Bool, true, false, Option, none, some, String, if◌then◌else◌, concat, trim, get_or, is_empty,
  Result, ok, throw,
}
use omni_mission_control.Provision.{
  JobStatus, queued, approved, running, completed, failed, rejected, cancelled, job_status_name,
  ProvisionJob, Level, ProvisionDb, get_provision_job, update_job, append_provision_event,
  log_audit_event,
}

pub data JobAction : Type 0 where
  approve reject cancel : JobAction

abbrev pub is_immutable : JobStatus → Bool
is_immutable running = true
is_immutable completed = true
is_immutable cancelled = true
is_immutable _ = false

-- The statuses that an action may start from.
abbrev pub allows : JobAction → JobStatus → Bool
allows approve queued = true
allows approve rejected = true
allows approve failed = true
allows approve _ = false
allows reject queued = true
allows reject approved = true
allows reject failed = true
allows reject _ = false
allows cancel queued = true
allows cancel approved = true
allows cancel failed = true
allows cancel rejected = true
allows cancel _ = false

abbrev pub action_name : JobAction → String
action_name approve = "approve"
action_name reject = "reject"
action_name cancel = "cancel"

abbrev pub apply_action : JobAction → String → ℕ → ProvisionJob → ProvisionJob
apply_action approve actor now j = record j {
  status = approved;
  approved_by = some actor;
  error_text = none;
  updated_at = now;
}
apply_action reject actor now j = record j { status = rejected; updated_at = now }
apply_action cancel actor now j = record j {
  status = cancelled;
  completed_at = some now;
  updated_at = now;
}

abbrev pub with_reason : String → String → String
with_reason text reason = if is_empty reason then text else concat text (concat ": " reason)

abbrev pub note_action : JobAction → ℕ → String → String → ProvisionDb → ProvisionDb
note_action approve id actor reason =
    append_provision_event id Level.info "approval"
      (with_reason (concat "Approved by " actor) reason)
note_action reject id actor reason =
    append_provision_event id Level.warn "approval"
      (with_reason (concat "Rejected by " actor) reason)
note_action cancel id actor reason =
    append_provision_event id Level.warn "cancel"
      (with_reason (concat "Cancelled by " actor) reason)

abbrev pub audit_action : JobAction → String
audit_action approve = "provision_job_approved"
audit_action reject = "provision_job_rejected"
audit_action cancel = "provision_job_cancelled"

abbrev pub transition_found :
    ℕ → String → JobAction → String → ProvisionJob → ℕ → ProvisionDb → Result ProvisionDb
transition_found id actor action reason j now db =
    let status = job_status_name j.status in
    if is_immutable j.status
    then throw (concat "Job status " (concat status " is immutable"))
    else if allows action j.status
    then ok (
        log_audit_event (audit_action action) actor j.tenant_id id
          (note_action action id actor reason (update_job id (apply_action action actor now) db)))
    else throw (concat "Cannot " (concat (action_name action) (concat " job from status " status)))

unfoldable pub transition_provision_job_status :
    ℕ → String → JobAction → Option String → ℕ → ProvisionDb → Result ProvisionDb
unfolding get_provision_job append_provision_event log_audit_event
transition_provision_job_status id actor action reason now db = elim (get_provision_job id db) [
  | none ↦ throw "Job not found"
  | some (j, t) ↦ transition_found id actor action (trim (get_or reason "")) j now db
]
