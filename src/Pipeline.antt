-- ===== src/Pipeline.antt =====
-- src/app/api/pipelines/run/route.ts: starting, advancing and cancelling the run of a pipeline. A
-- JSON column is the value that it holds. `spawn_step` is given the agent's answer at once; Overlap has
-- the requests that are served while an agent is awaited.
pub mod Start
pub mod Advance
pub mod Overlap
pub mod Keys
pub mod Lasting
pub mod Lasts
pub mod Shape
pub mod Effect
pub mod Moves
pub mod History
pub mod Runs
pub mod Rows
pub mod InTurn
pub mod Ending
mod Tests
use omni_mission_control.Prelude.{
  ℕ, zero, suc, ◌+◌, Bool, true, false, not, ◌&&◌, ◌||◌, Option, none, some, List, [], ◌∷◌, ◌++◌,
  String, map, find?, ◌==◌, str_eq, if◌then◌else◌, get_or, truthy, str_or, trim, leb, length,
  get_elem?,
}
use omni_mission_control.Auth.{RoleCheck, granted, refused, User}

pub record PipelineStep : Type 0 where
  pub template_id : ℕ
  pub on_failure : Option String

pub data StepStatus : Type 0 where
  pending running completed failed skipped : StepStatus

-- `pipeline-${runId}-step-${stepIdx}-${Date.now()}`
pub record SpawnId : Type 0 where
  pub run : ℕ
  pub step : ℕ
  pub at : ℕ

pub record RunStepState : Type 0 where
  pub step_index : ℕ
  pub template_id : ℕ
  pub template_name : String
  pub on_failure : Option String
  pub status : StepStatus
  pub spawn_id : Option SpawnId
  pub started_at : Option ℕ
  pub completed_at : Option ℕ
  pub error : Option String

pub data RunStatus : Type 0 where
  pending running completed failed cancelled : RunStatus

pub record PipelineRun : Type 0 where
  pub id : ℕ
  pub workspace_id : ℕ
  pub pipeline_id : ℕ
  pub status : RunStatus
  pub current_step : ℕ
  pub steps_snapshot : List RunStepState
  pub started_at : Option ℕ
  pub completed_at : Option ℕ
  pub triggered_by : String

pub record Pipeline : Type 0 where
  pub id : ℕ
  pub workspace_id : ℕ
  pub name : String
  pub steps : List PipelineStep
  pub use_count : ℕ
  pub last_used_at : Option ℕ
  pub updated_at : ℕ

pub record Template : Type 0 where
  pub id : ℕ
  pub name : String
  pub model : String
  pub task_prompt : String
  pub timeout_seconds : ℕ

-- What the handlers log and broadcast: an entry of the activity log, or the event 'activity.created'.
pub data Note : Type 0 where
  logged : String → ℕ → String → ℕ → Note
  broadcast : String → ℕ → Note

pub record PipelineDb : Type 0 where
  pub pipelines : List Pipeline
  pub templates : List Template
  pub runs : List PipelineRun
  pub next_run : ℕ
  pub notes : List Note

-- How `openclaw agent` ends for a pipeline's name, a step's index and its template: what it prints
-- and the time in milliseconds after it, or the message of its error.
pub data Spawned : Type 0 where
  printed : String → ℕ → Spawned
  crashed : String → Spawned

abbrev pub Agent : Type 0
Agent = String → ℕ → Template → Spawned

pub data SpawnResult : Type 0 where
  success : String → SpawnResult
  failure : String → SpawnResult

pub record RunView : Type 0 where
  pub id : ℕ
  pub status : RunStatus
  pub steps_snapshot : List RunStepState
  pub spawn : Option SpawnResult

pub data Response : Type 0 where
  error : String → ℕ → Response
  run : RunView → ℕ → Response

abbrev pub find_run : ℕ → ℕ → List PipelineRun → Option PipelineRun
find_run id workspace = find? (λ r. r.id == id && r.workspace_id == workspace)

abbrev pub find_pipeline : ℕ → ℕ → List Pipeline → Option Pipeline
find_pipeline id workspace = find? (λ p. p.id == id && p.workspace_id == workspace)

abbrev pub find_template : ℕ → List Template → Option Template
find_template id = find? (λ t. t.id == id)

-- `UPDATE pipeline_runs SET … WHERE id = ? AND workspace_id = ?`
abbrev pub update_rows : ℕ → ℕ → (PipelineRun → PipelineRun) → List PipelineRun → List PipelineRun
update_rows id workspace f = map (λ r. if r.id == id && r.workspace_id == workspace then f r else r)

abbrev pub update_run : ℕ → ℕ → (PipelineRun → PipelineRun) → PipelineDb → PipelineDb
update_run id workspace f db = record db { runs = update_rows id workspace f db.runs }

-- `steps[i] = f(steps[i])`
abbrev pub update_at : ℕ → (RunStepState → RunStepState) → List RunStepState → List RunStepState
update_at i f [] = []
update_at zero f (s ∷ ss) = f s ∷ ss
update_at (suc i) f (s ∷ ss) = s ∷ update_at i f ss

-- The steps and the database after the step is spawned, and the result for the response.
unfoldable pub spawn_step :
    Agent
    → PipelineDb
    → String
    → Template
    → List RunStepState
    → ℕ
    → ℕ
    → ℕ
    → PipelineDb × List RunStepState × SpawnResult
spawn_step agent db name template steps idx run_id workspace = elim (agent name idx template) [
  | printed stdout at ↦
      let id : SpawnId = record { run = run_id; step = idx; at = at } in
      let steps' = update_at idx (λ s. record s { spawn_id = some id }) steps in
      (
        update_run run_id workspace (λ r. record r { steps_snapshot = steps' }) db,
        steps',
        success (trim stdout),
      )
  | crashed message ↦
      let steps' = update_at idx (λ s. record s { error = some message }) steps in
      (
        update_run run_id workspace (λ r. record r { steps_snapshot = steps' }) db,
        steps',
        failure message,
      )
]

-- The same where there may be no template.
unfoldable pub spawn_if :
    Agent
    → PipelineDb
    → String
    → Option Template
    → List RunStepState
    → ℕ
    → ℕ
    → ℕ
    → PipelineDb × List RunStepState × Option SpawnResult
unfolding spawn_step
spawn_if agent db name none steps idx run_id workspace = (db, steps, none)
spawn_if agent db name (some t) steps idx run_id workspace =
    let (db', steps', result) = spawn_step agent db name t steps idx run_id workspace in
    (db', steps', some result)
