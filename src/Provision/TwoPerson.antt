-- ===== src/Provision/TwoPerson.antt =====
-- The two-person rule of `executeProvisionJob`.
use omni_mission_control.Prelude.{
  ℕ, ◌≡◌, ◌≢◌, refl, sym, ap, ◌∙◌, ◌⊎◌, inl, inr, Bool, true, false, not, ◌&&◌, Option, none, some,
  List, [], ◌∷◌, ◌++◌, String, Result, ok, throw, if◌then◌else◌, arith, All, All-imp, Bool-cases,
  Option-cases, concat,
}
use mathlib.Core.List.{append-nil, append_assoc}
use mathlib.Core.Path.{subst}
use omni_mission_control.Provision.{
  Artifact, Level, ProvisionStep, StepResult, ProvisionJob, Tenant, ProvisionDb, get_provision_job,
  append_provision_event, log_audit_event, JobStatus, set_tenant_status, update_job,
}
use omni_mission_control.Provision.Execute.{
  ensure_artifacts, refusal, run_job, execute_found, is_bootstrap, written, execute_provision_job,
  artifact_of, add_artifact, started_status, start_job,
}
use omni_mission_control.Provision.Steps.{
  ProvisionEnv, run_provision_step, record_calls, to_result, end_message, run_plan,
}
use omni_mission_control.Provision.Refusals.{status-approved, refusal-none}
use omni_mission_control.Provision.{Handed, to_daemon, to_host}
use omni_mission_control.Provision.Steps.{run_as}
use omni_mission_control.Prelude.{All-always, All-append}

pub Result-cases :
    {A : Type 0} (r : Result A) → ((a : A) × (r ≡ ok a)) ⊎ ((m : String) × (r ≡ throw m))
Result-cases (ok a) = inl (a, refl)
Result-cases (throw m) = inr (m, refl)

-- The outside is told that it is a dry run, which the host cannot be.
abbrev pub IsDry : Handed → Type 0
IsDry (to_daemon step dry) = dry ≡ true
IsDry (to_host command) = ⊥

abbrev Flagged : ProvisionEnv → Bool → Handed → Type 0
Flagged env dry h = ((dry ≡ true) × IsDry h) ⊎ ((dry ≡ false) × (env.allow_exec ≡ true))

-- What is handed out, all with the dry-run flag, and nothing if execution is not allowed.
abbrev Calls : ProvisionEnv → Bool → List Handed → List Handed → Type 0
Calls env dry old new = (added : List Handed) × (new ≡ old ++ added) × All (Flagged env dry) added

Calls-none : (env : ProvisionEnv) (dry : Bool) (cs : List Handed) → Calls env dry cs cs
Calls-none env dry cs = ([], sym (append-nil cs), tt)

run_as-IsDry :
    (env : ProvisionEnv) (step : ProvisionStep) (words : List String)
    → All IsDry (run_as env step true words).1
unfolding run_as
run_as-IsDry env step [] = tt
run_as-IsDry env step (command ∷ args) = elim (Bool-cases (step.requires_root && env.daemon_mode)) [
  | inl e ↦ rw e (refl, tt)
  | inr e ↦ rw e tt
]

step-IsDry :
    (env : ProvisionEnv) (step : ProvisionStep) → All IsDry (run_provision_step env step true).1
unfolding run_provision_step
step-IsDry env step = run_as-IsDry env step step.command

step-Flagged :
    (env : ProvisionEnv) (step : ProvisionStep) (dry : Bool)
    → not dry && not env.allow_exec ≡ false
    → All (Flagged env dry) (run_provision_step env step dry).1
step-Flagged env step true g =
    All-imp IsDry (Flagged env true) (run_provision_step env step true).1 (λ h d. inl (refl, d))
      (step-IsDry env step)
step-Flagged env step false g =
    All-always (Flagged env false) (run_provision_step env step false).1
      (λ h. inr (refl, ground arith))

run_plan-Calls :
    (env : ProvisionEnv) (id : ℕ) (dry : Bool) (steps : List ProvisionStep)
    (results : List StepResult) (db : ProvisionDb)
    → Calls env dry db.calls (run_plan env id dry steps results db).0.calls
unfolding run_plan append_provision_event
run_plan-Calls env id dry [] results db = Calls-none env dry db.calls
run_plan-Calls env id dry (step ∷ steps) results db =
    elim (Bool-cases (not dry && not env.allow_exec)) [
      | inl g ↦ rw (g, run_plan) (Calls-none env dry db.calls)
      | inr g ↦ elim (Result-cases ((run_provision_step env step dry).0)) [
        | inl (r, e) ↦
            let (added, same, all) =
              run_plan-Calls env id dry steps (results ++ to_result env step r ∷ []) (
                append_provision_event id Level.info step.key (end_message r.skipped) (
                  record_calls (run_provision_step env step dry).1 (
                    append_provision_event id Level.info step.key (concat "Running: " step.title)
                      db))) in
            rw (g, e, run_plan)
              (
                (run_provision_step env step dry).1 ++ added,
                same ∙ append_assoc db.calls (run_provision_step env step dry).1 added,
                All-append (Flagged env dry) (run_provision_step env step dry).1 added
                    (step-Flagged env step dry g) all,
              )
        | inr (m, e) ↦
            rw (g, e, run_plan)
              ((run_provision_step env step dry).1, refl, step-Flagged env step dry g)
      ]
    ]

-- The job is approved, by someone who neither asked for it nor runs it.
abbrev pub IsSanctioned : ℕ → String → ProvisionDb → Type 0
IsSanctioned id actor db =
    (j : ProvisionJob) × (t : Tenant) × (approver : String) × (get_provision_job id db
      ≡ some (j, t))
    × (j.status ≡ JobStatus.approved)
    × (j.approved_by ≡ some approver)
    × (approver ≢ j.requested_by)
    × (approver ≢ actor)

run_job-Calls :
    (env : ProvisionEnv) (actor : String) (now later : ℕ) (j : ProvisionJob) (t : Tenant)
    (db : ProvisionDb)
    → Calls env j.dry_run db.calls (run_job env actor now later j t db).0.calls
unfolding run_job append_provision_event log_audit_event
run_job-Calls env actor now later j t db =
    let running : ProvisionDb =
      set_tenant_status j.tenant_id (started_status j t.status) now
        (update_job j.id (start_job env.host now) db) in
    let begun : ProvisionDb =
      append_provision_event j.id Level.info "start"
        (concat "Execution started by " (concat actor (if j.dry_run then " (dry-run)" else "")))
        running in
    let calls : Calls env j.dry_run db.calls (run_plan env j.id j.dry_run j.plan [] begun).0.calls =
      run_plan-Calls env j.id j.dry_run j.plan [] begun in
    elim (Option-cases (run_plan env j.id j.dry_run j.plan [] begun).2) [
      | inl e ↦ rw (e, run_job) calls
      | inr (m, e) ↦ rw (e, run_job) calls
    ]

-- Without the dry-run flag, something handed out shows that execution is allowed.
live-allowed :
    (env : ProvisionEnv) (added : List Handed)
    → All (Flagged env false) added
    → All IsDry added ⊎ (env.allow_exec ≡ true)
live-allowed env [] a = inl tt
live-allowed env (h ∷ hs) (inl (e, d), a) = absurd (cc)
live-allowed env (h ∷ hs) (inr (e, allowed), a) = inr allowed

none_live-IsDry :
    (env : ProvisionEnv) (added : List Handed) → All (Flagged env true) added → All IsDry added
none_live-IsDry env [] a = tt
none_live-IsDry env (h ∷ hs) (inl (e, d), a) = (d, none_live-IsDry env hs a)
none_live-IsDry env (h ∷ hs) (inr (e, allowed), a) = absurd (cc)

ok_inj : (a b : ProvisionDb) → ok a ≡ ok b → a ≡ b
ok_inj a b e = cc

written-calls :
    (r : Result Artifact) (db db' : ProvisionDb) → written r db ≡ ok db' → db'.calls ≡ db.calls
written-calls (throw m) db db' e = absurd (cc)
written-calls (ok a) db db' e =
    ap (λ (d : ProvisionDb). d.calls) (sym (ok_inj (add_artifact a db) db' e))

ensure_artifacts-calls :
    (j : ProvisionJob) (t : Tenant) (db db' : ProvisionDb)
    → ensure_artifacts j t db ≡ ok db'
    → db'.calls ≡ db.calls
unfolding ensure_artifacts
ensure_artifacts-calls j t db db' e = elim (Bool-cases (is_bootstrap j.job_type)) [
  | inl b ↦ written-calls (artifact_of j t) db db' (rw b at e)
  | inr b ↦ ap (λ (d : ProvisionDb). d.calls) (ok_inj db' db (sym (rw b at e)))
]

sanctioned :
    (id : ℕ) (actor : String) (j : ProvisionJob) (t : Tenant) (db : ProvisionDb)
    → get_provision_job id db ≡ some (j, t)
    → refusal j actor ≡ none
    → j.dry_run ≡ false
    → IsSanctioned id actor db
sanctioned id actor j t db e r d =
    let (status, (a, given, others, not_runner)) = refusal-none j actor r d in
    (j, t, a, e, status-approved j.status status, given, others, not_runner)

execute_found-Calls :
    (env : ProvisionEnv) (actor : String) (now later : ℕ) (j : ProvisionJob) (t : Tenant)
    (db : ProvisionDb)
    → (added : List Handed) × ((execute_found env actor now later j t db).0.calls
        ≡ db.calls ++ added)
      × (All IsDry added ⊎ (refusal j actor ≡ none) × (j.dry_run ≡ false) × (env.allow_exec ≡ true))
unfolding execute_found
execute_found-Calls env actor now later j t db = elim (Option-cases (refusal j actor)) [
  | inr (m, r) ↦ rw (r, execute_found) ([], sym (append-nil db.calls), inl tt)
  | inl r ↦ elim (Result-cases (ensure_artifacts j t db)) [
    | inr (m, a) ↦ rw (r, a, execute_found) ([], sym (append-nil db.calls), inl tt)
    | inl (db', a) ↦
        let (added, same, flags) = run_job-Calls env actor now later j t db' in
        let kept : db'.calls ≡ db.calls = ensure_artifacts-calls j t db db' a in
        rw (r, a, execute_found)
          (
            added,
            same ∙ ap (λ cs. cs ++ added) kept,
            elim (Bool-cases (j.dry_run)) [
              | inl d ↦
                  inl (none_live-IsDry env added (subst (λ b. All (Flagged env b) added) d flags))
              | inr d ↦
                  elim (live-allowed env added (subst (λ b. All (Flagged env b) added) d flags)) [
                    | inl all ↦ inl all
                    | inr allowed ↦ inr (refl, d, allowed)
                  ]
            ],
          )
  ]
]

pub execute-found :
    (env : ProvisionEnv) (id : ℕ) (actor : String) (now later : ℕ) (db : ProvisionDb)
    (j : ProvisionJob) (t : Tenant)
    → get_provision_job id db ≡ some (j, t)
    → execute_provision_job env id actor now later db ≡ execute_found env actor now later j t db
unfolding execute_provision_job
execute-found env id actor now later db j t e = rw (e, execute_provision_job) refl

pub execute-missing :
    (env : ProvisionEnv) (id : ℕ) (actor : String) (now later : ℕ) (db : ProvisionDb)
    → get_provision_job id db ≡ none
    → (execute_provision_job env id actor now later db).0 ≡ db
unfolding execute_provision_job
execute-missing env id actor now later db e = rw (e, execute_provision_job) refl

-- What a run hands to the outside: only steps to the daemon, with the dry-run flag, and no command to
-- the host, unless the job is sanctioned and MC_SUPER_PROVISION_EXEC allows live runs.
pub execute_provision_job-two_person :
    (env : ProvisionEnv) (id : ℕ) (actor : String) (now later : ℕ) (db : ProvisionDb)
    → (added : List Handed) × ((execute_provision_job env id actor now later db).0.calls
        ≡ db.calls ++ added)
      × (All IsDry added ⊎ IsSanctioned id actor db × (env.allow_exec ≡ true))
execute_provision_job-two_person env id actor now later db =
    elim (Option-cases (get_provision_job id db)) [
      | inl e ↦ (
        [],
        ap (λ (d : ProvisionDb). d.calls) (execute-missing env id actor now later db e)
            ∙ sym (append-nil db.calls),
        inl tt,
      )
      | inr ((j, t), e) ↦
          let (added, same, what) = execute_found-Calls env actor now later j t db in
          (
            added,
            ap (λ (r : ProvisionDb × Option String). r.0.calls)
                  (execute-found env id actor now later db j t e)
                ∙ same,
            elim what [
              | inl all ↦ inl all
              | inr (r, d, allowed) ↦ inr (sanctioned id actor j t db e r d, allowed)
            ],
          )
    ]
