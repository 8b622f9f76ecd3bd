-- ===== src/Provision/Tenants.antt =====
-- What a run leaves in the status of its tenant.
use omni_mission_control.Prelude.{
  ℕ, ◌≡◌, ◌⊎◌, refl, sym, inl, inr, Bool, not, ◌&&◌, none, some, List, [], ◌∷◌, ◌++◌, String, map,
  ◌==◌, if◌then◌else◌, Bool-cases, Option-cases, concat,
}
use mathlib.Core.Path.{subst}
use omni_mission_control.Provision.{
  TenantStatus, ProvisionStep, StepResult, ProvisionJob, Tenant, Level, ProvisionDb, find_tenant,
  update_job, set_tenant_status, append_provision_event, log_audit_event,
}
use omni_mission_control.Provision.Execute.{run_job, started_status, completed_status, start_job}
use omni_mission_control.Provision.Steps.{
  ProvisionEnv, run_provision_step, record_calls, to_result, end_message, run_plan,
}
use omni_mission_control.Provision.TwoPerson.{Result-cases}
use omni_mission_control.Prelude.{true, false}
use omni_mission_control.Provision.{JobType}
use omni_mission_control.Provision.Execute.{is_decommission}

-- The tenant that an id finds has a status.
abbrev pub HasStatus : ℕ → TenantStatus → List Tenant → Type 0
HasStatus id s ts = (t : Tenant) × (find_tenant id ts ≡ some t) × (t.status ≡ s)

set_status-HasStatus :
    (id : ℕ) (s r : TenantStatus) (now : ℕ) (ts : List Tenant)
    → HasStatus id r ts
    → HasStatus id s
        (map (λ t. if t.id == id then record t { status = s; updated_at = now } else t) ts)
set_status-HasStatus id s r now [] (t, e, h) = absurd (cc)
set_status-HasStatus id s r now (x ∷ ts) (t, e, h) = elim (Bool-cases (x.id == id)) [
  | inl b ↦ rw (b, b) (record x { status = s; updated_at = now }, refl, refl)
  | inr b ↦ rw (b, b) (set_status-HasStatus id s r now ts (t, rw b at e, h))
]

run_plan-tenants :
    (env : ProvisionEnv) (id : ℕ) (dry : Bool) (steps : List ProvisionStep)
    (results : List StepResult) (db : ProvisionDb)
    → (run_plan env id dry steps results db).0.tenants ≡ db.tenants
unfolding run_plan append_provision_event
run_plan-tenants env id dry [] results db = refl
run_plan-tenants env id dry (step ∷ steps) results db =
    elim (Bool-cases (not dry && not env.allow_exec)) [
      | inl g ↦ rw (g, run_plan) refl
      | inr g ↦ elim (Result-cases ((run_provision_step env step dry).0)) [
        | inl (r, e) ↦
            rw (g, e, run_plan)
              (run_plan-tenants env id dry steps (results ++ to_result env step r ∷ []) (
                append_provision_event id Level.info step.key (end_message r.skipped) (
                  record_calls (run_provision_step env step dry).1 (
                    append_provision_event id Level.info step.key (concat "Running: " step.title)
                      db))))
        | inr (m, e) ↦ rw (g, e, run_plan) refl
      ]
    ]

-- The tenant in each of the two cases.
run_job_cases :
    (env : ProvisionEnv) (actor : String) (now later : ℕ) (j : ProvisionJob) (t : Tenant)
    (db : ProvisionDb)
    → find_tenant j.tenant_id db.tenants ≡ some t
    → ((run_job env actor now later j t db).1 ≡ none
        → HasStatus j.tenant_id
            (completed_status j t.status)
            (run_job env actor now later j t db).0.tenants)
      × ((message : String)
          → (run_job env actor now later j t db).1 ≡ some message
          → HasStatus j.tenant_id TenantStatus.error (run_job env actor now later j t db).0.tenants)
unfolding run_job append_provision_event log_audit_event
run_job_cases env actor now later j t db found =
    let s : TenantStatus = started_status j t.status in
    let running : ProvisionDb =
      set_tenant_status j.tenant_id s now (update_job j.id (start_job env.host now) db) in
    let begun : ProvisionDb =
      append_provision_event j.id Level.info "start"
        (concat "Execution started by " (concat actor (if j.dry_run then " (dry-run)" else "")))
        running in
    let (ran, results, error) = run_plan env j.id j.dry_run j.plan [] begun in
    let first : HasStatus j.tenant_id s ran.tenants =
      subst (HasStatus j.tenant_id s) (sym (run_plan-tenants env j.id j.dry_run j.plan [] begun))
        (set_status-HasStatus j.tenant_id s t.status now db.tenants (t, found, refl)) in
    elim (Option-cases (run_plan env j.id j.dry_run j.plan [] begun).2) [
      | inl e ↦
          rw (e, run_job)
            (
              λ h.
                  set_status-HasStatus j.tenant_id (completed_status j t.status) s later ran.tenants
                    first,
              λ m h. absurd (cc),
            )
      | inr (message, e) ↦
          rw (e, run_job)
            (
              λ h. absurd (cc),
              λ m h. set_status-HasStatus j.tenant_id TenantStatus.error s later ran.tenants first,
            )
    ]

-- The status that a run leaves when it ends well: after a dry run, and after a live run of each type.
abbrev pub Ends : Bool → JobType → TenantStatus → TenantStatus → Type 0
Ends true type before after = after ≡ before
Ends false JobType.bootstrap before after = after ≡ TenantStatus.active
Ends false JobType.update before after = after ≡ TenantStatus.active
Ends false JobType.decommission before after = after ≡ TenantStatus.suspended

by_type :
    (type : JobType) (s : TenantStatus)
    → Ends false type s
        (if is_decommission type then TenantStatus.suspended else TenantStatus.active)
by_type JobType.bootstrap s = refl
by_type JobType.update s = refl
by_type JobType.decommission s = refl

completed_status-Ends :
    (j : ProvisionJob) (s : TenantStatus) → Ends j.dry_run j.job_type s (completed_status j s)
completed_status-Ends j s = elim (Bool-cases (j.dry_run)) [
  | inl e ↦ rw e refl
  | inr e ↦ rw e (by_type j.job_type s)
]

-- A run that ends well leaves its tenant suspended after a decommission, active after another live job,
-- and as it was after a dry run; a run that fails leaves the tenant in error, after a dry run too.
pub run_job-HasStatus :
    (env : ProvisionEnv) (actor : String) (now later : ℕ) (j : ProvisionJob) (t : Tenant)
    (db : ProvisionDb)
    → find_tenant j.tenant_id db.tenants ≡ some t
    → ((run_job env actor now later j t db).1 ≡ none)
        × ((s : TenantStatus) × HasStatus j.tenant_id s
              (run_job env actor now later j t db).0.tenants
            × Ends j.dry_run j.job_type t.status s)
      ⊎ ((message : String) × ((run_job env actor now later j t db).1 ≡ some message)
          × HasStatus j.tenant_id TenantStatus.error (run_job env actor now later j t db).0.tenants)
run_job-HasStatus env actor now later j t db found =
    let (well, badly) = run_job_cases env actor now later j t db found in
    elim (Option-cases (run_job env actor now later j t db).1) [
      | inl e ↦ inl (e, (completed_status j t.status, well e, completed_status-Ends j t.status))
      | inr (m, e) ↦ inr (m, e, badly m e)
    ]
