-- ===== src/Pipeline/Start.antt =====
-- The action start of src/app/api/pipelines/run/route.ts.
use omni_mission_control.Prelude.{
  ℕ, ◌+◌, ◌&&◌, none, some, List, [], ◌∷◌, ◌++◌, String, map, ◌==◌, if◌then◌else◌, str_or,
}
use omni_mission_control.Pipeline.{
  PipelineStep, RunStepState, RunStatus, PipelineRun, Pipeline, Template, PipelineDb, Agent,
  RunView, Response, find_pipeline, find_template, spawn_if, pending, running, failed, pending,
  running, failed, logged, broadcast, error, run,
}

-- The steps of a new run, from the index of the first of the list on.
unfoldable pub snapshot_from : ℕ → ℕ → List Template → List PipelineStep → List RunStepState
snapshot_from i now templates [] = []
snapshot_from i now templates (s ∷ steps) =
    record {
      step_index = i;
      template_id = s.template_id;
      template_name = elim (find_template s.template_id templates) [
        | none ↦ "Unknown"
        | some t ↦ str_or (some t.name) "Unknown"
      ];
      on_failure = s.on_failure;
      status = if i == 0 then running else pending;
      spawn_id = none;
      started_at = if i == 0 then some now else none;
      completed_at = none;
      error = none;
    }
    ∷ snapshot_from (i + 1) now templates steps

abbrev pub use_pipeline : ℕ → ℕ → ℕ → List Pipeline → List Pipeline
use_pipeline id workspace now = map λ p.
    if p.id == id && p.workspace_id == workspace
    then record p { use_count = p.use_count + 1; last_used_at = some now; updated_at = now }
    else p

-- The run that `startPipeline` inserts.
abbrev pub new_run : ℕ → ℕ → ℕ → List RunStepState → String → ℕ → PipelineRun
new_run id pipeline_id now steps by workspace = record {
  id = id;
  workspace_id = workspace;
  pipeline_id = pipeline_id;
  status = running;
  current_step = 0;
  steps_snapshot = steps;
  started_at = some now;
  completed_at = none;
  triggered_by = by;
}

-- `stepsSnapshot[0].status === 'failed' ? 'failed' : 'running'`
abbrev pub shown_status : List RunStepState → RunStatus
shown_status [] = running
shown_status (s ∷ ss) = elim (s.status) [ failed ↦ failed | _ ↦ running ]

-- `startPipeline` for a pipeline that has a first step.
unfoldable pub start_steps :
    Agent
    → ℕ
    → Pipeline
    → PipelineStep
    → List PipelineStep
    → String
    → ℕ
    → PipelineDb
    → PipelineDb × Response
unfolding spawn_if snapshot_from
start_steps agent now p first rest by workspace db =
    let steps = snapshot_from 0 now db.templates (first ∷ rest) in
    let inserted : PipelineDb = record db {
      runs = db.runs ++ new_run db.next_run p.id now steps by workspace ∷ [];
      next_run = db.next_run + 1;
      pipelines = use_pipeline p.id workspace now db.pipelines;
    } in
    let (db', steps', spawn) =
      spawn_if agent inserted p.name (find_template first.template_id db.templates) steps 0
        db.next_run workspace in
    let view : RunView = record {
      id = db.next_run;
      status = shown_status steps';
      steps_snapshot = steps';
      spawn = spawn;
    } in
    (
      record db' {
        notes =
            db'.notes
            ++ logged "pipeline_started" p.id by db.next_run
              ∷ broadcast "pipeline_started" p.id
              ∷ [];
      },
      run view 201,
    )

unfoldable pub start_pipeline : Agent → ℕ → ℕ → String → ℕ → PipelineDb → PipelineDb × Response
unfolding start_steps
start_pipeline agent now pipeline_id by workspace db =
    elim (find_pipeline pipeline_id workspace db.pipelines) [
      | none ↦ (db, error "Pipeline not found" 404)
      | some p ↦ elim (p.steps) [
        | [] ↦ (db, error "Pipeline has no steps" 400)
        | first ∷ rest ↦ start_steps agent now p first rest by workspace db
      ]
    ]
