-- ===== src/Provision/Kept.antt =====
-- What a run of a job leaves of the table of jobs.
use omni_mission_control.Prelude.{
  ℕ, ◌≡◌, ◌≢◌, refl, sym, ap, ◌∙◌, inl, inr, Bool, true, false, not, ◌&&◌, none, some, List, [],
  ◌∷◌, ◌++◌, String, map, ◌==◌, Result, ok, throw, if◌then◌else◌, arith, ==_iff, Bool-cases,
  Option-cases, find?-true, concat,
}
use mathlib.Core.Path.{subst}
use omni_mission_control.Provision.{
  ProvisionStep, StepResult, ProvisionJob, Tenant, Level, Artifact, ProvisionDb, find_job,
  find_tenant, get_provision_job, update_job, set_tenant_status, append_provision_event,
  log_audit_event,
}
use omni_mission_control.Provision.Execute.{
  is_approved, ensure_artifacts, refusal, run_job, execute_found, guards, is_bootstrap, written,
  artifact_of, add_artifact, started_status, start_job, finish_job, fail_job,
}
use omni_mission_control.Provision.Steps.{
  ProvisionEnv, run_provision_step, record_calls, to_result, end_message, run_plan,
}
use omni_mission_control.Provision.TwoPerson.{Result-cases}
use omni_mission_control.Provision.Refusals.{first_holding-none, not-false}

-- The statement that all jobs but one are found as before.
abbrev OthersKept : ℕ → List ProvisionJob → List ProvisionJob → Type 0
OthersKept id js js' = (k : ℕ) → k ≢ id → find_job k js' ≡ find_job k js

pub update-OthersKept :
    (id : ℕ) (f : ProvisionJob → ProvisionJob) (js : List ProvisionJob)
    → ((j : ProvisionJob) → (f j).id ≡ j.id)
    → OthersKept id js (map (λ j. if j.id == id then f j else j) js)
update-OthersKept id f [] keep k n = refl
update-OthersKept id f (j ∷ js) keep k n =
    ground (arith, update-OthersKept id f js keep k n, keep j)

none-some : {p : ProvisionJob × Tenant} → none ≡ some p → ⊥
none-some e = cc

pair_inj : (p q : ProvisionJob × Tenant) → some p ≡ some q → p.0 ≡ q.0
pair_inj p q e = cc

pub get_provision_job-found :
    (id : ℕ) (db : ProvisionDb) (j : ProvisionJob) (t : Tenant)
    → get_provision_job id db ≡ some (j, t)
    → (find_job id db.jobs ≡ some j) × (j.id ≡ id)
unfolding get_provision_job
get_provision_job-found id db j t e = elim (Option-cases (find_job id db.jobs)) [
  | inl n ↦ absurd (none-some (rw (n, get_provision_job) at e))
  | inr (x, f) ↦ elim (Option-cases (find_tenant x.tenant_id db.tenants)) [
    | inl n ↦ absurd (none-some (rw (f, n, get_provision_job) at e))
    | inr (y, g) ↦
        let same : x ≡ j = pair_inj (x, y) (j, t) (rw (f, g, get_provision_job) at e) in
        let at_id : x.id ≡ id = (==_iff x.id id).0 (find?-true (λ z. z.id == id) db.jobs x f) in
        (f ∙ ap some same, subst (λ (z : ProvisionJob). z.id ≡ id) same at_id)
  ]
]

run_plan-jobs :
    (env : ProvisionEnv) (id : ℕ) (dry : Bool) (steps : List ProvisionStep)
    (results : List StepResult) (db : ProvisionDb)
    → (run_plan env id dry steps results db).0.jobs ≡ db.jobs
unfolding run_plan append_provision_event
run_plan-jobs env id dry [] results db = refl
run_plan-jobs env id dry (step ∷ steps) results db =
    elim (Bool-cases (not dry && not env.allow_exec)) [
      | inl g ↦ rw (g, run_plan) refl
      | inr g ↦ elim (Result-cases ((run_provision_step env step dry).0)) [
        | inl (r, e) ↦
            rw (g, e, run_plan)
              (run_plan-jobs env id dry steps (results ++ to_result env step r ∷ []) (
                append_provision_event id Level.info step.key (end_message r.skipped) (
                  record_calls (run_provision_step env step dry).1 (
                    append_provision_event id Level.info step.key (concat "Running: " step.title)
                      db))))
        | inr (m, e) ↦ rw (g, e, run_plan) refl
      ]
    ]

run_job-OthersKept :
    (env : ProvisionEnv) (actor : String) (now later : ℕ) (j : ProvisionJob) (t : Tenant)
    (db : ProvisionDb)
    → OthersKept j.id db.jobs (run_job env actor now later j t db).0.jobs
unfolding run_job append_provision_event log_audit_event
run_job-OthersKept env actor now later j t db k n =
    let running : ProvisionDb =
      set_tenant_status j.tenant_id (started_status j t.status) now
        (update_job j.id (start_job env.host now) db) in
    let begun : ProvisionDb =
      append_provision_event j.id Level.info "start"
        (concat "Execution started by " (concat actor (if j.dry_run then " (dry-run)" else "")))
        running in
    let (ran, results, error) = run_plan env j.id j.dry_run j.plan [] begun in
    let first : find_job k ran.jobs ≡ find_job k db.jobs =
      ap (find_job k) (run_plan-jobs env j.id j.dry_run j.plan [] begun)
      ∙ update-OthersKept j.id (start_job env.host now) db.jobs (λ x. refl) k n in
    elim (Option-cases (run_plan env j.id j.dry_run j.plan [] begun).2) [
      | inl e ↦
          rw (e, run_job)
            (update-OthersKept j.id (finish_job later results) ran.jobs (λ x. refl) k n ∙ first)
      | inr (m, e) ↦
          rw (e, run_job)
            (update-OthersKept j.id (fail_job later m results) ran.jobs (λ x. refl) k n ∙ first)
    ]

pub not_ok : {m : String} {d : ProvisionDb} → throw m ≡ ok d → ⊥
not_ok e = cc

pub ok_inj : (a b : ProvisionDb) → ok a ≡ ok b → a ≡ b
ok_inj a b e = cc

not_both : (b : Bool) → b ≡ false → b ≡ true → ⊥
not_both b e h = cc

pub unequal : (i j : ℕ) → (i == j) ≡ false → i ≢ j
unequal i j s e = ground arith

written-jobs :
    (r : Result Artifact) (db db' : ProvisionDb) → written r db ≡ ok db' → db'.jobs ≡ db.jobs
written-jobs (throw m) db db' e = absurd (cc)
written-jobs (ok a) db db' e =
    ap (λ (d : ProvisionDb). d.jobs) (sym (ok_inj (add_artifact a db) db' e))

ensure_artifacts-jobs :
    (j : ProvisionJob) (t : Tenant) (db db' : ProvisionDb)
    → ensure_artifacts j t db ≡ ok db'
    → db'.jobs ≡ db.jobs
unfolding ensure_artifacts
ensure_artifacts-jobs j t db db' e = elim (Bool-cases (is_bootstrap j.job_type)) [
  | inl b ↦ written-jobs (artifact_of j t) db db' (rw b at e)
  | inr b ↦ ap (λ (d : ProvisionDb). d.jobs) (ok_inj db' db (sym (rw b at e)))
]

pub execute_found-OthersKept :
    (env : ProvisionEnv) (actor : String) (now later : ℕ) (j : ProvisionJob) (t : Tenant)
    (db : ProvisionDb)
    → OthersKept j.id db.jobs (execute_found env actor now later j t db).0.jobs
unfolding execute_found
execute_found-OthersKept env actor now later j t db k n = elim (Option-cases (refusal j actor)) [
  | inr (m, r) ↦ rw (r, execute_found) refl
  | inl r ↦ elim (Result-cases (ensure_artifacts j t db)) [
    | inr (m, a) ↦ rw (r, a, execute_found) refl
    | inl (db', a) ↦
        rw (r, a, execute_found)
          (run_job-OthersKept env actor now later j t db' k n
            ∙ ap (find_job k) (ensure_artifacts-jobs j t db db' a))
  ]
]

-- A job that is not approved is refused, and nothing is written.
pub execute_found-unapproved :
    (env : ProvisionEnv) (actor : String) (now later : ℕ) (j : ProvisionJob) (t : Tenant)
    (db : ProvisionDb)
    → is_approved j.status ≡ false
    → (execute_found env actor now later j t db).0 ≡ db
unfolding execute_found
execute_found-unapproved env actor now later j t db h = elim (Option-cases (refusal j actor)) [
  | inr (m, r) ↦ rw (r, execute_found) refl
  | inl r ↦
      let first : is_approved j.status ≡ true =
        not-false (is_approved j.status) (first_holding-none (guards j actor) r).0 in
      absurd (not_both (is_approved j.status) h first)
]
