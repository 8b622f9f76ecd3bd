-- ===== src/Provision/Tests.antt =====
-- Runs of the provisioning code, and instances of its theorems.
use omni_mission_control.Prelude.{
  ◌≡◌, refl, ◌⊎◌, inr, true, false, none, some, List, [], ◌∷◌, ◌++◌, String, All, ok, throw, arith,
  concat,
}
use omni_mission_control.Provision.{
  TenantStatus, Tenant, JobType, JobStatus, ProvisionStep, ProvisionJob, Level, ProvisionDb,
  find_job, get_provision_job, append_provision_event, log_audit_event,
}
use omni_mission_control.Provision.Transition.{approve, transition_provision_job_status}
use omni_mission_control.Provision.Execute.{
  ensure_artifacts, run_job, execute_found, execute_provision_job,
}
use omni_mission_control.Provision.Steps.{
  ProvisionEnv, skipped_result, run_provision_step, run_plan,
}
use omni_mission_control.Provision.TwoPerson.{IsSanctioned, execute_provision_job-two_person}
use omni_mission_control.Provision.Final.{transition, execute, serve, serve-IsFinal, after}
use omni_mission_control.Provision.Plan.{build_decommission_plan}
use omni_mission_control.Provision.Decommission.{
  DecommissionRequest, create_decommission_job, new_job, insert_job,
}
use omni_mission_control.Provision.Fields.{BootstrapEnv, BootstrapRequest, port, absent}
use omni_mission_control.Provision.Bootstrap.{
  new_tenant, bootstrap_job, insert_tenant, log_tenant_audit, create_tenant_and_bootstrap_job,
}
use omni_mission_control.Provision.Accepted.{IsStored, create_tenant_and_bootstrap_job-IsStored}
use omni_mission_control.Provision.Fresh.{create_decommission_job-unapproved}
use omni_mission_control.Provision.Tenants.{HasStatus, run_job-HasStatus}
use omni_mission_control.Provision.{Handed, to_daemon, to_host}
use omni_mission_control.Provision.Steps.{run_as, CommandResult}
use omni_mission_control.Provision.TwoPerson.{IsDry}
use omni_mission_control.Prelude.{Result, ok, throw}
use omni_mission_control.Provision.{TenantStatus}

abbrev acme : Tenant
acme = record {
  id = 1;
  slug = "acme";
  display_name = "Acme";
  linux_user = "oc-acme";
  plan_tier = "standard";
  status = TenantStatus.active;
  openclaw_home = "/home/oc-acme/.openclaw";
  workspace_root = "/home/oc-acme/workspace";
  gateway_port = some 18_800;
  dashboard_port = none;
  config = "{}";
  created_by = "ada";
  owner_gateway = some "primary";
  created_at = 1;
  updated_at = 1;
}

abbrev stop_gateway : ProvisionStep
stop_gateway = record {
  key = "disable-stop-gateway";
  title = "Disable/stop openclaw-gateway@oc-acme.service";
  command = "/usr/bin/systemctl" ∷ "disable" ∷ [];
  requires_root = true;
  timeout_ms = some 10000;
}

abbrev job : ProvisionJob
job = record {
  id = 5;
  tenant_id = 1;
  job_type = JobType.decommission;
  status = JobStatus.approved;
  dry_run = false;
  requested_by = "ada";
  approved_by = some "bob";
  runner_host = none;
  request = record { slug = some "acme"; gateway_port = none; dry_run = some false };
  plan = stop_gateway ∷ [];
  result = none;
  error_text = none;
  started_at = none;
  completed_at = none;
  created_at = 2;
  updated_at = 3;
}

abbrev old_job : ProvisionJob
old_job = record job { id = 4; status = JobStatus.cancelled }

abbrev db : ProvisionDb
db = record {
  tenants = acme ∷ [];
  next_tenant = 2;
  jobs = old_job ∷ job ∷ [];
  next_job = 6;
  provision_events = [];
  audit_log = [];
  artifacts = [];
  calls = [];
}

abbrev answered : Handed → Result CommandResult
answered (to_daemon step dry) = ok (record skipped_result { skipped = dry })
answered (to_host command) = throw "no command"

abbrev env : ProvisionEnv
env = record {
  outside = answered;
  daemon_mode = true;
  allow_exec = true;
  host = "box";
  shorten = λ s. s;
}

-- Someone else runs the job, and the approver may not.
third_person_runs : (execute_provision_job env 5 "eve" 10 11 db).1 ≡ none
unfolding execute_provision_job get_provision_job execute_found ensure_artifacts run_job run_plan
    run_provision_step run_as append_provision_event log_audit_event
third_person_runs = refl

approver_refused :
    (execute_provision_job env 5 "bob" 10 11 db).1
    ≡ some "Two-person rule violation: approver cannot be the execution runner for live jobs."
unfolding execute_provision_job get_provision_job execute_found
approver_refused = refl

cancel_cancelled :
    transition_provision_job_status 4 "ada" approve none 9 db
    ≡ throw "Job status cancelled is immutable"
unfolding transition_provision_job_status get_provision_job
cancel_cancelled = refl

execute_provision_job-two_person_example :
    (added : List Handed) × ((execute_provision_job env 5 "eve" 10 11 db).0.calls ≡ [] ++ added)
    × (All IsDry added ⊎ IsSanctioned 5 "eve" db × (true ≡ true))
execute_provision_job-two_person_example = execute_provision_job-two_person env 5 "eve" 10 11 db

serve-IsFinal_example :
    find_job 4
      (serve
        (transition 4 "ada" approve none 9
          ∷ execute env 4 "eve" 10 11
          ∷ execute env 5 "eve" 12 13
          ∷ [])
        db).jobs
    ≡ some old_job
serve-IsFinal_example =
    serve-IsFinal
      (transition 4 "ada" approve none 9
        ∷ execute env 4 "eve" 10 11
        ∷ execute env 5 "eve" 12 13
        ∷ [])
      db 4 old_job refl (inr refl)

run_job-HasStatus_example :
    ((run_job env "eve" 10 11 job acme db).1 ≡ none)
      × ((s : TenantStatus) × HasStatus 1 s (run_job env "eve" 10 11 job acme db).0.tenants
          × (s ≡ TenantStatus.suspended))
    ⊎ ((message : String) × ((run_job env "eve" 10 11 job acme db).1 ≡ some message)
        × HasStatus 1 TenantStatus.error (run_job env "eve" 10 11 job acme db).0.tenants)
run_job-HasStatus_example = run_job-HasStatus env "eve" 10 11 job acme db refl

abbrev live_request : DecommissionRequest
live_request = record {
  dry_run = some false;
  remove_linux_user = none;
  remove_state_dirs = some true;
}

abbrev db_with_request : ProvisionDb
db_with_request = after db (create_decommission_job 1 live_request "ada" 20 db)

create_decommission_job-unapproved_example :
    (execute_provision_job env 6 "eve" 30 31 db_with_request).0 ≡ db_with_request
unfolding create_decommission_job new_job build_decommission_plan append_provision_event
    log_audit_event
create_decommission_job-unapproved_example =
    create_decommission_job-unapproved 1 live_request "ada" 20 db db_with_request env "eve" 30 31
      (omega arith, (omega arith, tt)) refl

-- The parts with a slash between them.
abbrev joined : List String → String
joined [] = ""
joined (p ∷ []) = p
joined (p ∷ q ∷ ps) = concat p (concat "/" (joined (q ∷ ps)))

abbrev bootstrap_env : BootstrapEnv
bootstrap_env = record {
  template_openclaw_json = some "/srv/openclaw.json";
  openclaw_home = none;
  repo_root = some "/srv/mc";
  cwd = "/";
  tenant_home_root = none;
  tenant_workspace_dirname = none;
  default_owner_gateway = none;
  default_gateway_name = none;
  data_dir = "/data";
  join = joined;
}

abbrev globex : BootstrapRequest
globex = record {
  slug = " Globex ";
  display_name = "Globex";
  linux_user = none;
  plan_tier = none;
  gateway_port = port 18_801;
  dashboard_port = absent;
  dry_run = none;
  config = none;
  owner_gateway = none;
}

unused_port :
    create_tenant_and_bootstrap_job bootstrap_env
      (record globex { gateway_port = port 80 })
      "ada"
      9
      db
    ≡ throw "Port must be an integer between 1024 and 65535"
unfolding create_tenant_and_bootstrap_job
unused_port = refl

shell_in_slug :
    create_tenant_and_bootstrap_job bootstrap_env (record globex { slug = "a;rm -rf" }) "ada" 9 db
    ≡ throw "Invalid slug. Use lowercase letters, numbers, and dashes (3-32 chars)."
unfolding create_tenant_and_bootstrap_job
shell_in_slug = refl

-- A slug of 29 characters is valid, but not the linux user that is made of it.
long_slug :
    create_tenant_and_bootstrap_job bootstrap_env
      (record globex { slug = "abcdefghijklmnopqrstuvwxyz012" })
      "ada"
      9
      db
    ≡ throw "Invalid linux_user format"
unfolding create_tenant_and_bootstrap_job
long_slug = refl

taken_slug :
    create_tenant_and_bootstrap_job bootstrap_env (record globex { slug = "ACME" }) "ada" 9 db
    ≡ throw "UNIQUE constraint failed: tenants.slug"
unfolding create_tenant_and_bootstrap_job
taken_slug = refl

abbrev with_globex : ProvisionDb
unfolding new_tenant bootstrap_job append_provision_event log_tenant_audit
with_globex =
    let t = new_tenant bootstrap_env globex "ada" 2 9 in
    let j = bootstrap_job bootstrap_env globex "ada" 6 9 t in
    log_tenant_audit "tenant_bootstrap_requested" "ada" 2 (
      append_provision_event 6 Level.info "queued" "Provisioning request queued (dry-run)"
        (insert_job j (insert_tenant t db)))

accepted : create_tenant_and_bootstrap_job bootstrap_env globex "ada" 9 db ≡ ok with_globex
unfolding create_tenant_and_bootstrap_job with_globex
accepted = refl

home_of_globex :
    (new_tenant bootstrap_env globex "ada" 2 9).openclaw_home ≡ "/home/oc-globex/.openclaw"
unfolding new_tenant
home_of_globex = refl

create_tenant_and_bootstrap_job-IsStored_example :
    (t : Tenant) × (j : ProvisionJob) × IsStored db with_globex "ada" t j
create_tenant_and_bootstrap_job-IsStored_example =
    create_tenant_and_bootstrap_job-IsStored bootstrap_env globex "ada" 9 db with_globex accepted
