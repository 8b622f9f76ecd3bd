-- ===== src/Pipeline/Advance.antt =====
-- `advanceRun`, `cancelRun` and the POST handler of src/app/api/pipelines/run/route.ts.
use omni_mission_control.Prelude.{
  ℕ, zero, suc, ◌+◌, Bool, true, not, ◌&&◌, Option, none, some, List, [], ◌∷◌, ◌++◌, String, map,
  ◌==◌, str_eq, if◌then◌else◌, truthy, str_or, get_elem?, Result, ok, throw,
}
use omni_mission_control.Auth.{RoleCheck, granted, refused}
use omni_mission_control.Pipeline.{
  StepStatus, RunStepState, RunStatus, PipelineRun, Pipeline, PipelineDb, broadcast, Agent, RunView,
  Response, error, run, find_run, find_pipeline, find_template, update_run, update_at, spawn_if,
}
use omni_mission_control.Pipeline.Start.{start_pipeline}

-- `if (errorMsg) steps[currentIdx].error = errorMsg`
abbrev noted : Option String → Option String → Option String
noted none old = old
noted (some message) old = some message

abbrev pub mark : Bool → Option String → ℕ → RunStepState → RunStepState
mark success message now s = record s {
  status = if success then StepStatus.completed else StepStatus.failed;
  completed_at = some now;
  error = noted (truthy message) s.error;
}

abbrev pub skip : RunStepState → RunStepState
skip s = record s { status = StepStatus.skipped }

-- The steps from an index on become 'skipped'.
abbrev pub skip_from : ℕ → List RunStepState → List RunStepState
skip_from zero ss = map skip ss
skip_from (suc i) [] = []
skip_from (suc i) (s ∷ ss) = s ∷ skip_from i ss

-- Whether a failure of the step stops the run.
abbrev pub stops : RunStepState → Bool
stops s = str_eq (str_or s.on_failure "stop") "stop"

abbrev pub set_run : RunStatus → ℕ → List RunStepState → Option ℕ → PipelineRun → PipelineRun
set_run status current steps completed_at r = record r {
  status = status;
  current_step = current;
  steps_snapshot = steps;
  completed_at = completed_at;
}

abbrev pub set_progress : ℕ → List RunStepState → PipelineRun → PipelineRun
set_progress current steps r = record r { current_step = current; steps_snapshot = steps }

abbrev pub begin_step : ℕ → RunStepState → RunStepState
begin_step now s = record s { status = StepStatus.running; started_at = some now }

abbrev pub plain : ℕ → RunStatus → List RunStepState → RunView
plain id status steps = record { id = id; status = status; steps_snapshot = steps; spawn = none }

abbrev pub name_of : Option Pipeline → String
name_of none = "?"
name_of (some p) = str_or (some p.name) "?"

-- The branch that spawns the step `upcoming`, which stands at the index `next`.
unfoldable pub run_next :
    Agent
    → ℕ
    → ℕ
    → PipelineRun
    → List RunStepState
    → ℕ
    → RunStepState
    → PipelineDb
    → PipelineDb × Response
unfolding spawn_if
run_next agent now workspace r steps next upcoming db =
    let (db', steps', spawn) =
      spawn_if agent db (name_of (find_pipeline r.pipeline_id workspace db.pipelines))
        (find_template upcoming.template_id db.templates) (update_at next (begin_step now) steps)
        next r.id workspace in
    (
      update_run r.id workspace (set_progress next steps') db',
      run (record { id = r.id; status = RunStatus.running; steps_snapshot = steps'; spawn = spawn })
          200,
    )

-- `advanceRun` on a run that is running and has the step `current`.
unfoldable pub advance_step :
    Agent
    → ℕ
    → Bool
    → Option String
    → ℕ
    → PipelineRun
    → RunStepState
    → PipelineDb
    → PipelineDb × Response
unfolding run_next
advance_step agent now success message workspace r current db =
    let idx = r.current_step in
    let steps = update_at idx (mark success message now) r.steps_snapshot in
    let skipped = skip_from (idx + 1) steps in
    if not success && stops current
    then (
      update_run r.id workspace (set_run RunStatus.failed idx skipped (some now)) db,
      run (plain r.id RunStatus.failed skipped) 200,
    )
    else elim (get_elem? steps (idx + 1)) [
      | none ↦
          let done =
            update_run r.id workspace (set_run RunStatus.completed idx steps (some now)) db in
          (
            record done { notes = done.notes ++ broadcast "pipeline_completed" r.pipeline_id ∷ [] },
            run (plain r.id RunStatus.completed steps) 200,
          )
      | some upcoming ↦ run_next agent now workspace r steps (idx + 1) upcoming db
    ]

abbrev pub not_running : RunStatus → Option String
not_running RunStatus.running = none
not_running RunStatus.pending = some "Run is pending, not running"
not_running RunStatus.completed = some "Run is completed, not running"
not_running RunStatus.failed = some "Run is failed, not running"
not_running RunStatus.cancelled = some "Run is cancelled, not running"

-- A run whose current step is not there makes the code throw, before it writes anything.
abbrev pub advance_found :
    Agent → ℕ → Bool → Option String → ℕ → PipelineRun → PipelineDb → Result (PipelineDb × Response)
advance_found agent now success message workspace r db = elim (not_running r.status) [
  | some text ↦ ok (db, error text 400)
  | none ↦ elim (get_elem? r.steps_snapshot r.current_step) [
    | none ↦ throw "Cannot set properties of undefined"
    | some current ↦ ok (advance_step agent now success message workspace r current db)
  ]
]

-- `!runId`
abbrev pub missing : Option ℕ → Bool
missing none = true
missing (some id) = id == 0

abbrev pub lookup_run : Option ℕ → ℕ → PipelineDb → Option PipelineRun
lookup_run none workspace db = none
lookup_run (some id) workspace db = find_run id workspace db.runs

unfoldable pub advance_run :
    Agent → ℕ → Option ℕ → Bool → Option String → ℕ → PipelineDb → Result (PipelineDb × Response)
unfolding advance_step
advance_run agent now run_id success message workspace db =
    if missing run_id
    then ok (db, error "run_id required" 400)
    else elim (lookup_run run_id workspace db) [
      | none ↦ ok (db, error "Run not found" 404)
      | some r ↦ advance_found agent now success message workspace r db
    ]

abbrev pub cancel_step : ℕ → RunStepState → RunStepState
cancel_step now s =
    let dropped : RunStepState = record s {
      status = StepStatus.skipped;
      completed_at = some now;
    } in
    elim (s.status) [ StepStatus.pending ↦ dropped | StepStatus.running ↦ dropped | _ ↦ s ]

abbrev pub set_cancelled : List RunStepState → ℕ → PipelineRun → PipelineRun
set_cancelled steps now r = record r {
  status = RunStatus.cancelled;
  steps_snapshot = steps;
  completed_at = some now;
}

abbrev pub not_cancellable : RunStatus → Option String
not_cancellable RunStatus.running = none
not_cancellable RunStatus.pending = none
not_cancellable RunStatus.completed = some "Run is completed, cannot cancel"
not_cancellable RunStatus.failed = some "Run is failed, cannot cancel"
not_cancellable RunStatus.cancelled = some "Run is cancelled, cannot cancel"

abbrev pub cancel_found : ℕ → ℕ → PipelineRun → PipelineDb → PipelineDb × Response
cancel_found now workspace r db =
    let steps = map (cancel_step now) r.steps_snapshot in
    elim (not_cancellable r.status) [
      | some text ↦ (db, error text 400)
      | none ↦ (
        update_run r.id workspace (set_cancelled steps now) db,
        run (plain r.id RunStatus.cancelled steps) 200,
      )
    ]

unfoldable pub cancel_run : ℕ → Option ℕ → ℕ → PipelineDb → PipelineDb × Response
cancel_run now run_id workspace db =
    if missing run_id
    then (db, error "run_id required" 400)
    else elim (lookup_run run_id workspace db) [
      | none ↦ (db, error "Run not found" 404)
      | some r ↦ cancel_found now workspace r db
    ]

-- The body of a POST request. `success` is left out or a truth value.
pub data Action : Type 0 where
  start : ℕ → Action
  advance : Option ℕ → Option Bool → Option String → Action
  cancel : Option ℕ → Action
  other : Action

abbrev pub or_true : Option Bool → Bool
or_true none = true
or_true (some b) = b

-- The `catch` of the handler.
abbrev pub caught : PipelineDb → Result (PipelineDb × Response) → PipelineDb × Response
caught db (ok r) = r
caught db (throw message) = (db, error "Failed to process pipeline run" 500)

-- The POST handler; `auth` is what `requireRole(request, 'operator')` answers.
unfoldable pub post : RoleCheck → Agent → ℕ → Action → PipelineDb → PipelineDb × Response
post (refused message status) agent now action db = (db, error message status)
post (granted u) agent now (start id) db =
    start_pipeline agent now id (str_or (some u.username) "system") u.workspace_id db
post (granted u) agent now (advance id success message) db =
    caught db (advance_run agent now id (or_true success) message u.workspace_id db)
post (granted u) agent now (cancel id) db = cancel_run now id u.workspace_id db
post (granted u) agent now other db = (db, error "Invalid action. Use: start, advance, cancel" 400)
