-- ===== src/Provision/Steps.antt =====
-- `runProvisionStep` of src/lib/super-admin.ts and the steps of a plan. The ways to run a command are
-- arguments.
use omni_mission_control.Prelude.{
  ℕ, Bool, true, false, not, ◌&&◌, Option, none, some, List, [], ◌∷◌, ◌++◌, String, ◌==◌,
  if◌then◌else◌, concat, Result, ok, throw,
}
use omni_mission_control.Provision.{
  ProvisionStep, StepResult, Level, ProvisionDb, append_provision_event,
}
use omni_mission_control.Provision.{Handed, to_daemon, to_host}

-- What a command leaves behind.
pub record CommandResult : Type 0 where
  pub stdout : String
  pub stderr : String
  pub code : Option ℕ
  pub skipped : Bool

-- The environment: the outside, that is the provisioner daemon and the commands of the host, which
-- answers what it is handed or fails with a message; MC_SUPER_PROVISION_MODE and
-- MC_SUPER_PROVISION_EXEC; the host; how a text is cut to 4000 units.
pub record ProvisionEnv : Type 0 where
  pub outside : Handed → Result CommandResult
  pub daemon_mode : Bool
  pub allow_exec : Bool
  pub host : String
  pub shorten : String → String

abbrev pub skipped_result : CommandResult
skipped_result = record { stdout = ""; stderr = ""; code = some 0; skipped = true }

-- Every way out is this one: the answer, and what the outside was handed for it.
abbrev pub hand : ProvisionEnv → Handed → Result CommandResult × List Handed
hand env h = (env.outside h, h ∷ [])

-- The step with its command and arguments.
unfoldable pub run_as :
    ProvisionEnv → ProvisionStep → Bool → List String → Result CommandResult × List Handed
run_as env step dry [] = (throw (concat "Invalid command for step " step.key), [])
run_as env step dry (command ∷ args) =
    if step.requires_root && env.daemon_mode
    then hand env (to_daemon step dry)
    else if dry
    then (ok skipped_result, [])
    else if step.requires_root
    then hand env (to_host ("sudo" ∷ "-n" ∷ command ∷ args))
    else hand env (to_host (command ∷ args))

unfoldable pub run_provision_step :
    ProvisionEnv → ProvisionStep → Bool → Result CommandResult × List Handed
unfolding run_as
run_provision_step env step dry = run_as env step dry step.command

abbrev pub to_result : ProvisionEnv → ProvisionStep → CommandResult → StepResult
to_result env step r = record {
  key = step.key;
  ok = elim (r.code) [ none ↦ false | some c ↦ c == 0 ];
  skipped = r.skipped;
  stdout = env.shorten r.stdout;
  stderr = env.shorten r.stderr;
}

abbrev pub record_calls : List Handed → ProvisionDb → ProvisionDb
record_calls hs db = record db { calls = db.calls ++ hs }

abbrev pub end_message : Bool → String
end_message skipped = if skipped then "Dry-run: command execution skipped" else "Completed"

-- The loop over the plan: the results so far, and the message of the error that ends it, if any.
unfoldable pub run_plan :
    ProvisionEnv
    → ℕ
    → Bool
    → List ProvisionStep
    → List StepResult
    → ProvisionDb
    → ProvisionDb × List StepResult × Option String
unfolding run_provision_step append_provision_event
run_plan env id dry [] results db = (db, results, none)
run_plan env id dry (step ∷ steps) results db =
    let started =
      append_provision_event id Level.info step.key (concat "Running: " step.title) db in
    let ran = run_provision_step env step dry in
    let called = record_calls ran.1 started in
    if not dry && not env.allow_exec
    then (
      started,
      results,
      some
          "Execution disabled. Set MC_SUPER_PROVISION_EXEC=true to allow non-dry-run provisioning.",
    )
    else elim (ran.0) [
      | throw message ↦ (called, results, some message)
      | ok r ↦
          run_plan env id dry steps (results ++ to_result env step r ∷ [])
            (append_provision_event id Level.info step.key (end_message r.skipped) called)
    ]
