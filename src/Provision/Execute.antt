-- ===== src/Provision/Execute.antt =====
-- `executeProvisionJob` of src/lib/super-admin.ts. The ways to run a command are arguments.
use omni_mission_control.Prelude.{
  ℕ, Bool, true, false, not, ◌&&◌, ◌||◌, Option, none, some, List, [], ◌∷◌, ◌++◌, String, ltb,
  str_eq, if◌then◌else◌, concat, trim, get_or, is_empty, str_or, Result, ok, throw,
}
use omni_mission_control.Provision.{
  TenantStatus, Tenant, JobType, JobStatus, job_status_name, ProvisionStep, StepResult,
  ProvisionJob, Level, Artifact, ProvisionDb, get_provision_job, update_job, set_tenant_status,
  append_provision_event, log_audit_event,
}
use omni_mission_control.Provision.Steps.{ProvisionEnv, run_plan}

-- `ensureProvisionArtifacts`: the file, or the message of the error.
abbrev pub artifact_of : ProvisionJob → Tenant → Result Artifact
artifact_of j t =
    let slug = trim (str_or j.request.slug t.slug) in
    let user = trim t.linux_user in
    let home = trim t.openclaw_home in
    let port = get_or j.request.gateway_port 0 in
    if is_empty slug
    then throw "Missing tenant slug for artifact generation"
    else if is_empty user
    then throw "Missing linux_user for artifact generation"
    else if is_empty home
    then throw "Missing openclaw_home for artifact generation"
    else if ltb port 1024 || ltb 65535 port
    then throw "Missing/invalid gateway_port for gateway unit provisioning"
    else ok (record { slug = slug; linux_user = user; openclaw_home = home; gateway_port = port })

abbrev pub add_artifact : Artifact → ProvisionDb → ProvisionDb
add_artifact a db = record db { artifacts = db.artifacts ++ a ∷ [] }

abbrev pub is_bootstrap : JobType → Bool
is_bootstrap JobType.bootstrap = true
is_bootstrap _ = false

abbrev pub written : Result Artifact → ProvisionDb → Result ProvisionDb
written (throw message) db = throw message
written (ok a) db = ok (add_artifact a db)

unfoldable pub ensure_artifacts : ProvisionJob → Tenant → ProvisionDb → Result ProvisionDb
ensure_artifacts j t db = if is_bootstrap j.job_type then written (artifact_of j t) db else ok db

abbrev pub is_decommission : JobType → Bool
is_decommission JobType.decommission = true
is_decommission _ = false

abbrev pub is_nil : List ProvisionStep → Bool
is_nil [] = true
is_nil (s ∷ ss) = false

abbrev pub is_approved : JobStatus → Bool
is_approved JobStatus.approved = true
is_approved _ = false

abbrev pub same_bool : Bool → Bool → Bool
same_bool true b = b
same_bool false b = not b

abbrev pub job_type_name : JobType → String
job_type_name JobType.bootstrap = "bootstrap"
job_type_name JobType.update = "update"
job_type_name JobType.decommission = "decommission"

-- The message of the first test that holds.
abbrev pub first_holding : List (Bool × String) → Option String
first_holding [] = none
first_holding (g ∷ gs) = let rest = first_holding gs in if g.0 then some g.1 else rest

-- The guards before anything is written, in order.
abbrev pub guards : ProvisionJob → String → List (Bool × String)
guards j actor =
    let by = get_or j.approved_by "" in
    (
      not (is_approved j.status),
      concat "Job must be approved before execution. Current status: " (job_status_name j.status),
    )
    ∷ (is_nil j.plan, "Job plan is empty")
    ∷ (
      not (same_bool (get_or j.request.dry_run true) j.dry_run),
      "Job dry_run metadata mismatch detected",
    )
    ∷ (is_empty by, "Missing approver. Approve the job before run.")
    ∷ (
      not j.dry_run && str_eq by j.requested_by,
      "Two-person rule violation: live jobs require an approver different from the requester.",
    )
    ∷ (
      not j.dry_run && str_eq by actor,
      "Two-person rule violation: approver cannot be the execution runner for live jobs.",
    )
    ∷ []

abbrev pub refusal : ProvisionJob → String → Option String
refusal j actor = first_holding (guards j actor)

abbrev pub start_job : String → ℕ → ProvisionJob → ProvisionJob
start_job host now j = record j {
  status = JobStatus.running;
  started_at = some now;
  updated_at = now;
  runner_host = some host;
}

abbrev pub finish_job : ℕ → List StepResult → ProvisionJob → ProvisionJob
finish_job now results j = record j {
  status = JobStatus.completed;
  completed_at = some now;
  result = some results;
  error_text = none;
  updated_at = now;
}

abbrev pub fail_job : ℕ → String → List StepResult → ProvisionJob → ProvisionJob
fail_job now message results j = record j {
  status = JobStatus.failed;
  completed_at = some now;
  error_text = some message;
  result = some results;
  updated_at = now;
}

abbrev pub started_status : ProvisionJob → TenantStatus → TenantStatus
started_status j previous =
    if j.dry_run
    then previous
    else if is_decommission j.job_type
    then TenantStatus.decommissioning
    else TenantStatus.provisioning

abbrev pub completed_status : ProvisionJob → TenantStatus → TenantStatus
completed_status j previous =
    if j.dry_run
    then previous
    else if is_decommission j.job_type
    then TenantStatus.suspended
    else TenantStatus.active

-- The run behind the guards: the new tables, and the message of the error that is thrown again.
unfoldable pub run_job :
    ProvisionEnv
    → String
    → ℕ
    → ℕ
    → ProvisionJob
    → Tenant
    → ProvisionDb
    → ProvisionDb × Option String
unfolding run_plan append_provision_event log_audit_event
run_job env actor now later j t db =
    let running =
      set_tenant_status j.tenant_id (started_status j t.status) now
        (update_job j.id (start_job env.host now) db) in
    let begun =
      append_provision_event j.id Level.info "start"
        (concat "Execution started by " (concat actor (if j.dry_run then " (dry-run)" else "")))
        running in
    let (ran, results, error) = run_plan env j.id j.dry_run j.plan [] begun in
    elim error [
      | none ↦ (
        log_audit_event "tenant_bootstrap_completed" actor j.tenant_id j.id (
            append_provision_event j.id Level.info "finish"
              (concat (job_type_name j.job_type)
                (concat " job completed (" (if j.dry_run then "dry-run)" else "execute)")))
              (set_tenant_status j.tenant_id (completed_status j t.status) later
                (update_job j.id (finish_job later results) ran))),
        none,
      )
      | some message ↦ (
        log_audit_event "tenant_bootstrap_failed" actor j.tenant_id j.id (
            append_provision_event j.id Level.error "error" message (
              set_tenant_status j.tenant_id TenantStatus.error later
                (update_job j.id (fail_job later message results) ran))),
        some message,
      )
    ]

-- The run of a job that was found.
unfoldable pub execute_found :
    ProvisionEnv
    → String
    → ℕ
    → ℕ
    → ProvisionJob
    → Tenant
    → ProvisionDb
    → ProvisionDb × Option String
unfolding ensure_artifacts run_job
execute_found env actor now later j t db = elim (refusal j actor) [
  | some message ↦ (db, some message)
  | none ↦ elim (ensure_artifacts j t db) [
    | throw message ↦ (db, some message)
    | ok db' ↦ run_job env actor now later j t db'
  ]
]

-- `now` and `later` are the clock at the start and at the end of the run.
unfoldable pub execute_provision_job :
    ProvisionEnv → ℕ → String → ℕ → ℕ → ProvisionDb → ProvisionDb × Option String
unfolding get_provision_job execute_found
execute_provision_job env id actor now later db = elim (get_provision_job id db) [
  | none ↦ (db, some "Job not found")
  | some (j, t) ↦ execute_found env actor now later j t db
]
