-- ===== src/Provision/Fresh.antt =====
-- A job that was just asked for cannot be run.
use omni_mission_control.Prelude.{
  some_inj, ℕ, ◌<◌, ◌≡◌, refl, sym, ap, ◌∙◌, inl, inr, false, Option, some, List, [], ◌∷◌, ◌++◌,
  String, ◌==◌, ok, arith, All, Bool-cases, Option-cases,
}
use mathlib.Core.Path.{subst}
use omni_mission_control.Provision.{
  ProvisionJob, Tenant, ProvisionDb, find_job, find_tenant, get_provision_job,
  append_provision_event, log_audit_event,
}
use omni_mission_control.Provision.Decommission.{
  DecommissionRequest, new_job, create_decommission_job,
}
use omni_mission_control.Provision.Execute.{is_approved, execute_provision_job}
use omni_mission_control.Provision.Steps.{ProvisionEnv}
use omni_mission_control.Provision.TwoPerson.{execute-found, execute-missing}
use omni_mission_control.Provision.Kept.{
  get_provision_job-found, execute_found-unapproved, ok_inj, not_ok,
}

find_job-append :
    (n : ℕ) (js : List ProvisionJob) (j : ProvisionJob)
    → All (λ x. x.id < n) js
    → j.id ≡ n
    → find_job n (js ++ j ∷ []) ≡ some j
find_job-append n [] j a e = ground arith
find_job-append n (x ∷ js) j (l, a) e = ground (arith, find_job-append n js j a e)

created-jobs :
    (tenant_id : ℕ) (r : DecommissionRequest) (actor : String) (now : ℕ) (db db' : ProvisionDb)
    → create_decommission_job tenant_id r actor now db ≡ ok db'
    → (t : Tenant) × (db'.jobs ≡ db.jobs ++ new_job db.next_job t r actor now ∷ [])
unfolding create_decommission_job append_provision_event log_audit_event
created-jobs tenant_id r actor now db db' e = elim (Bool-cases (tenant_id == 0)) [
  | inl z ↦ absurd (not_ok (rw z at e))
  | inr z ↦ elim (Option-cases (find_tenant tenant_id db.tenants)) [
    | inl n ↦ absurd (not_ok (rw (z, n) at e))
    | inr (t, f) ↦ (t, sym (ap (λ (d : ProvisionDb). d.jobs) (ok_inj _ db' (rw (z, f) at e))))
  ]
]

-- The job of a request that was accepted, under the next id, is refused by whoever tries to run it
-- before an approval, and nothing changes.
pub create_decommission_job-unapproved :
    (tenant_id : ℕ) (r : DecommissionRequest) (actor : String) (now : ℕ) (db db' : ProvisionDb)
    (env : ProvisionEnv) (runner : String) (start end_time : ℕ)
    → All (λ j. j.id < db.next_job) db.jobs
    → create_decommission_job tenant_id r actor now db ≡ ok db'
    → (execute_provision_job env db.next_job runner start end_time db').0 ≡ db'
unfolding new_job
create_decommission_job-unapproved tenant_id r actor now db db' env runner start end_time below e =
    let (t, jobs) = created-jobs tenant_id r actor now db db' e in
    let made : ProvisionJob = new_job db.next_job t r actor now in
    let there : find_job db.next_job db'.jobs ≡ some made =
      ap (find_job db.next_job) jobs ∙ find_job-append db.next_job db.jobs made below refl in
    elim (Option-cases (get_provision_job db.next_job db')) [
      | inl n ↦ execute-missing env db.next_job runner start end_time db' n
      | inr ((j, u), f) ↦
          let found = (get_provision_job-found db.next_job db' j u f).0 in
          let same : made ≡ j = some_inj made j (sym there ∙ found) in
          ap (λ (x : ProvisionDb × Option String). x.0)
            (execute-found env db.next_job runner start end_time db' j u f)
          ∙ execute_found-unapproved env runner start end_time j u db'
              (subst (λ (x : ProvisionJob). is_approved x.status ≡ false) same refl)
    ]
