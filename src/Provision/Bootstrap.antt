-- ===== src/Provision/Bootstrap.antt =====
-- `createTenantAndBootstrapJob` of src/lib/super-admin.ts.
use omni_mission_control.Prelude.{
  ℕ, ◌+◌, Bool, true, not, none, some, List, [], ◌∷◌, ◌++◌, any, String, ltb, str_eq, if◌then◌else◌,
  get_or, str_or, is_empty, trim, to_lower, js_length, concat, Result, ok, throw,
}
use omni_mission_control.Provision.{
  TenantStatus, Tenant, JobType, JobStatus, ProvisionJob, Level, ProvisionDb,
  append_provision_event,
}
use omni_mission_control.Provision.Plan.{build_bootstrap_plan}
use omni_mission_control.Provision.Decommission.{plan_tenant, insert_job}
use omni_mission_control.Provision.Execute.{first_holding}
use omni_mission_control.Provision.Fields.{
  BootstrapRequest, BootstrapEnv, get_tenant_home_root, get_tenant_workspace_dirname, join_posix,
  normalize_slug, is_valid_slug, is_valid_user, is_bad_port, ensure_port, is_absent, template_path,
  normalize_owner_gateway, linux_user_of,
}

-- The checks in the source's order, each with the message that it throws.
unfoldable pub bootstrap_guards : BootstrapEnv → BootstrapRequest → List (Bool × String)
unfolding template_path is_valid_slug normalize_slug trim is_valid_user linux_user_of is_bad_port
    js_length
bootstrap_guards env r =
    (
      is_empty (template_path env),
      "Missing OpenClaw template config. Set MC_SUPER_TEMPLATE_OPENCLAW_JSON to an openclaw.json to seed new tenants.",
    )
    ∷ (
      not (is_valid_slug (normalize_slug r.slug)),
      "Invalid slug. Use lowercase letters, numbers, and dashes (3-32 chars).",
    )
    ∷ (is_empty (trim r.display_name), "display_name is required")
    ∷ (not (is_valid_user (linux_user_of r)), "Invalid linux_user format")
    ∷ (is_bad_port r.gateway_port, "Port must be an integer between 1024 and 65535")
    ∷ (is_bad_port r.dashboard_port, "Port must be an integer between 1024 and 65535")
    ∷ (ltb 120 (js_length (trim (get_or r.owner_gateway ""))), "owner_gateway is too long")
    ∷ (is_absent r.gateway_port, "gateway_port is required for tenant bootstrap")
    ∷ []

unfoldable pub new_tenant : BootstrapEnv → BootstrapRequest → String → ℕ → ℕ → Tenant
unfolding normalize_slug trim to_lower linux_user_of join_posix get_tenant_home_root
    get_tenant_workspace_dirname ensure_port normalize_owner_gateway
new_tenant env r actor id now =
    let user = linux_user_of r in
    record {
      id = id;
      slug = normalize_slug r.slug;
      display_name = trim r.display_name;
      linux_user = user;
      plan_tier = to_lower (trim (str_or r.plan_tier "standard"));
      status = TenantStatus.pending;
      openclaw_home = join_posix env (get_tenant_home_root env ∷ user ∷ ".openclaw" ∷ []);
      workspace_root =
          join_posix env (get_tenant_home_root env ∷ user ∷ get_tenant_workspace_dirname env ∷ []);
      gateway_port = ensure_port r.gateway_port;
      dashboard_port = ensure_port r.dashboard_port;
      config = get_or r.config "{}";
      created_by = actor;
      owner_gateway = some (normalize_owner_gateway env r.owner_gateway);
      created_at = now;
      updated_at = now;
    }

unfoldable pub systemd_template_path : BootstrapEnv → String
unfolding trim
systemd_template_path env = env.join (
    str_or (some (trim (str_or env.repo_root env.cwd))) env.cwd
    ∷ "ops"
    ∷ "templates"
    ∷ "openclaw-gateway@.service"
    ∷ [])

-- The job that is inserted. A request is a dry run unless it says otherwise.
unfoldable pub bootstrap_job :
    BootstrapEnv → BootstrapRequest → String → ℕ → ℕ → Tenant → ProvisionJob
unfolding build_bootstrap_plan join_posix get_tenant_home_root template_path systemd_template_path
bootstrap_job env r actor id now t =
    let dry = get_or r.dry_run true in
    record {
      id = id;
      tenant_id = t.id;
      job_type = JobType.bootstrap;
      status = JobStatus.queued;
      dry_run = dry;
      requested_by = actor;
      approved_by = none;
      runner_host = none;
      request = record { slug = some t.slug; gateway_port = t.gateway_port; dry_run = some dry };
      plan =
          build_bootstrap_plan (env.join (env.data_dir ∷ "provisioner" ∷ t.slug ∷ []))
            (join_posix env (get_tenant_home_root env ∷ t.linux_user ∷ [])) (template_path env)
            (systemd_template_path env) (plan_tenant t);
      result = none;
      error_text = none;
      started_at = none;
      completed_at = none;
      created_at = now;
      updated_at = now;
    }

abbrev pub insert_tenant : Tenant → ProvisionDb → ProvisionDb
insert_tenant t db = record db { tenants = db.tenants ++ t ∷ []; next_tenant = db.next_tenant + 1 }

abbrev pub has_slug : String → List Tenant → Bool
has_slug slug = any λ t. str_eq t.slug slug

abbrev pub has_linux_user : String → List Tenant → Bool
has_linux_user user = any λ t. str_eq t.linux_user user

-- The audit row of a request for a tenant.
unfoldable pub log_tenant_audit : String → String → ℕ → ProvisionDb → ProvisionDb
log_tenant_audit action actor tenant_id db = record db {
  audit_log =
      db.audit_log
      ++ record { action = action; actor = actor; target_id = tenant_id; job_id = none } ∷ [];
}

-- The insertions, the event and the audit row. The columns `slug` and `linux_user` are unique.
unfoldable pub insert_bootstrap :
    BootstrapEnv → BootstrapRequest → String → ℕ → ProvisionDb → Result ProvisionDb
unfolding new_tenant bootstrap_job append_provision_event log_tenant_audit
insert_bootstrap env r actor now db =
    let t = new_tenant env r actor db.next_tenant now in
    let j = bootstrap_job env r actor db.next_job now t in
    let mode = if j.dry_run then "dry-run)" else "execute)" in
    if has_slug t.slug db.tenants
    then throw "UNIQUE constraint failed: tenants.slug"
    else if has_linux_user t.linux_user db.tenants
    then throw "UNIQUE constraint failed: tenants.linux_user"
    else ok (
        log_tenant_audit "tenant_bootstrap_requested" actor t.id (
          append_provision_event j.id Level.info "queued"
            (concat "Provisioning request queued (" mode) (insert_job j (insert_tenant t db))))

unfoldable pub create_tenant_and_bootstrap_job :
    BootstrapEnv → BootstrapRequest → String → ℕ → ProvisionDb → Result ProvisionDb
unfolding bootstrap_guards insert_bootstrap
create_tenant_and_bootstrap_job env r actor now db = elim (first_holding (bootstrap_guards env r)) [
  | some message ↦ throw message
  | none ↦ insert_bootstrap env r actor now db
]
