-- ===== src/Provision/Decommission.antt =====
-- `createTenantDecommissionJob` of src/lib/super-admin.ts.
use omni_mission_control.Prelude.{
  ℕ, ◌+◌, Bool, true, false, Option, none, some, [], ◌∷◌, ◌++◌, String, ◌==◌, if◌then◌else◌, get_or,
  concat, Result, ok, throw,
}
use omni_mission_control.Provision.{
  Tenant, JobType, JobStatus, ProvisionJob, Level, ProvisionDb, find_tenant, append_provision_event,
  log_audit_event,
}
use omni_mission_control.Provision.Plan.{PlanTenant, build_decommission_plan}

pub record DecommissionRequest : Type 0 where
  pub dry_run : Option Bool
  pub remove_linux_user : Option Bool
  pub remove_state_dirs : Option Bool

abbrev pub plan_tenant : Tenant → PlanTenant
plan_tenant t = record {
  slug = t.slug;
  linux_user = t.linux_user;
  openclaw_home = t.openclaw_home;
  workspace_root = t.workspace_root;
}

-- The job that is inserted. A request is a dry run unless it says otherwise.
unfoldable pub new_job : ℕ → Tenant → DecommissionRequest → String → ℕ → ProvisionJob
unfolding build_decommission_plan
new_job id t r actor now =
    let dry = get_or r.dry_run true in
    record {
      id = id;
      tenant_id = t.id;
      job_type = JobType.decommission;
      status = JobStatus.queued;
      dry_run = dry;
      requested_by = actor;
      approved_by = none;
      runner_host = none;
      request = record { slug = some t.slug; gateway_port = none; dry_run = some dry };
      plan =
          build_decommission_plan (get_or r.remove_linux_user false)
            (get_or r.remove_state_dirs false) (plan_tenant t);
      result = none;
      error_text = none;
      started_at = none;
      completed_at = none;
      created_at = now;
      updated_at = now;
    }

abbrev pub insert_job : ProvisionJob → ProvisionDb → ProvisionDb
insert_job j db = record db { jobs = db.jobs ++ j ∷ []; next_job = db.next_job + 1 }

unfoldable pub create_decommission_job :
    ℕ → DecommissionRequest → String → ℕ → ProvisionDb → Result ProvisionDb
unfolding new_job append_provision_event log_audit_event
create_decommission_job tenant_id r actor now db =
    if tenant_id == 0 then throw "Invalid tenant id" else elim (find_tenant tenant_id db.tenants) [
      | none ↦ throw "Tenant not found"
      | some t ↦
          let j = new_job db.next_job t r actor now in
          ok (
            log_audit_event "tenant_decommission_requested" actor t.id j.id (
              append_provision_event j.id Level.warn "queued"
                (concat "Decommission request queued ("
                  (if j.dry_run then "dry-run)" else "execute)"))
                (insert_job j db)))
    ]
