-- ===== src/Pipeline/Tests.antt =====
-- Runs of a pipeline, and instances of the theorems.
use omni_mission_control.Prelude.{
  ℕ, ◌≡◌, refl, inr, Bool, true, false, Option, none, some, List, [], map, trim, ◌∷◌, arith,
}
use omni_mission_control.Auth.{Role, User, granted}
use omni_mission_control.Pipeline.{
  StepStatus, RunStepState, RunStatus, PipelineRun, Pipeline, PipelineDb, Agent, printed, find_run,
}
use omni_mission_control.Pipeline.Start.{start_pipeline}
use omni_mission_control.Pipeline.Advance.{Action, post, advance_run, cancel_run}
use omni_mission_control.Pipeline.Effect.{Effect, IsValid, IsOver}
use omni_mission_control.Pipeline.History.{post-Effect}
use omni_mission_control.Pipeline.Runs.{Request, serve, serve-IsValid}
use omni_mission_control.Pipeline.Ending.{post-isolation}
use omni_mission_control.Pipeline.Overlap.{Server, arrives, agent_answers, overlapped}
use omni_mission_control.Pipeline.Lasting.{is_for}
use omni_mission_control.Pipeline.Lasts.{Lasts, overlapped-Lasts}
use omni_mission_control.Pipeline.InTurn.{in_turn, idle, in_turn-IsValid, in_turn-advance_ends}
use omni_mission_control.Prelude.{any, ◌⊎◌}
use omni_mission_control.Pipeline.Overlap.{begin_advance}

abbrev ops : User
ops = record {
  id = 1;
  username = "ops";
  display_name = "Ops";
  role = Role.operator;
  workspace_id = 1;
  provider = none;
  email = none;
  avatar_url = none;
  is_approved = none;
  created_at = 0;
  updated_at = 0;
  last_login_at = none;
}

abbrev agent : Agent
agent name idx t = printed " ok " 5000

abbrev build_test_ship : Pipeline
build_test_ship = record {
  id = 7;
  workspace_id = 1;
  name = "release";
  steps =
      record { template_id = 1; on_failure = some "continue" }
      ∷ record { template_id = 2; on_failure = some "stop" }
      ∷ record { template_id = 1; on_failure = none }
      ∷ [];
  use_count = 0;
  last_used_at = none;
  updated_at = 0;
}

abbrev db : PipelineDb
db = record {
  pipelines = build_test_ship ∷ [];
  templates =
      record { id = 1; name = "build"; model = "m"; task_prompt = "build it"; timeout_seconds = 60 }
      ∷ [];
  runs = [];
  next_run = 1;
  notes = [];
}

abbrev ask : ℕ → Action → Request
ask now a = record { auth = granted ops; agent = agent; now = now; action = a }

abbrev advance : ℕ → Bool → Request
advance now success = ask now (Action.advance (some 1) (some success) none)

abbrev statuses : Option PipelineRun → List StepStatus
statuses none = []
statuses (some r) = map (λ s. s.status) r.steps_snapshot

-- The first step fails and the run goes on; the second fails and stops it.
stopped :
    statuses (
      find_run 1 1
        (serve (ask 10 (Action.start 7) ∷ advance 20 false ∷ advance 30 false ∷ []) db).runs)
    ≡ StepStatus.failed ∷ StepStatus.failed ∷ StepStatus.skipped ∷ []
unfolding serve post start_pipeline advance_run cancel_run trim
stopped = refl

db-IsValid : IsValid db
db-IsValid = record { shapes = tt; unique = tt; below = tt }

abbrev started : PipelineDb
started = (serve (ask 10 (Action.start 7) ∷ []) db)

started-IsValid : IsValid started
started-IsValid = serve-IsValid (ask 10 (Action.start 7) ∷ []) db db-IsValid

in_turn-IsValid_example :
    IsValid (in_turn (ask 10 (Action.start 7) ∷ advance 20 false ∷ []) (idle db)).db
in_turn-IsValid_example =
    in_turn-IsValid (ask 10 (Action.start 7) ∷ advance 20 false ∷ []) db db-IsValid

post-Effect_example : Effect 1 db (post (granted ops) agent 10 (Action.start 7) db).0
post-Effect_example = post-Effect ops agent 10 (Action.start 7) db db-IsValid

abbrev running_step : RunStepState
running_step = record {
  step_index = 0;
  template_id = 1;
  template_name = "build";
  on_failure = some "continue";
  status = StepStatus.running;
  spawn_id = none;
  started_at = some 10;
  completed_at = none;
  error = none;
}

abbrev waiting_step : RunStepState
waiting_step = record running_step {
  step_index = 1;
  status = StepStatus.pending;
  started_at = none;
}

abbrev live_run : PipelineRun
live_run = record {
  id = 1;
  workspace_id = 1;
  pipeline_id = 7;
  status = RunStatus.running;
  current_step = 0;
  steps_snapshot = running_step ∷ waiting_step ∷ [];
  started_at = some 10;
  completed_at = none;
  triggered_by = "ops";
}

abbrev over_run : PipelineRun
over_run = record live_run {
  id = 2;
  workspace_id = 2;
  status = RunStatus.cancelled;
  steps_snapshot = record running_step { status = StepStatus.skipped } ∷ [];
}

abbrev two_runs : PipelineDb
two_runs = record db { runs = live_run ∷ over_run ∷ []; next_run = 3 }

two_runs-IsValid : IsValid two_runs
two_runs-IsValid = record {
  shapes = ((refl, (refl, tt)), ((((λ e. cc), λ e. cc), tt), tt));
  unique = ((ground arith, tt), (tt, tt));
  below = omega arith;
}

-- An advance awaits its agent, and a cancel is served meanwhile.
abbrev cancelled_meanwhile : Server
unfolding overlapped cancel_run begin_advance
cancelled_meanwhile =
    overlapped
      (arrives (granted ops) 20 (Action.advance (some 1) (some true) none)
        ∷ arrives (granted ops) 21 (Action.cancel (some 1))
        ∷ [])
      (idle two_runs)

abbrev cancelled_run : PipelineRun
cancelled_run = record live_run {
  status = RunStatus.cancelled;
  steps_snapshot =
      record running_step { status = StepStatus.skipped; completed_at = some 21 }
      ∷ record waiting_step { status = StepStatus.skipped; completed_at = some 21 }
      ∷ [];
  completed_at = some 21;
}

was_cancelled : find_run 1 1 cancelled_meanwhile.db.runs ≡ some cancelled_run
unfolding overlapped cancel_run begin_advance
was_cancelled = refl

-- The answer of the agent writes steps that run into the cancelled run.
cancel_overwritten :
    statuses (
      find_run 1 1
        (overlapped (agent_answers 0 (printed "ok" 5000) ∷ []) cancelled_meanwhile).db.runs)
    ≡ StepStatus.completed ∷ StepStatus.running ∷ []
unfolding overlapped cancel_run begin_advance
cancel_overwritten = refl

overlapped-Lasts_example :
    ((x' : PipelineRun) × (find_run 1 1
          (overlapped (agent_answers 0 (printed "ok" 5000) ∷ []) cancelled_meanwhile).db.runs
        ≡ some x')
      × Lasts cancelled_run x')
    × ((any (is_for 1 1) cancelled_meanwhile.waiting ≡ true)
        ⊎ (find_run 1 1
              (overlapped (agent_answers 0 (printed "ok" 5000) ∷ []) cancelled_meanwhile).db.runs
            ≡ some cancelled_run))
unfolding overlapped cancel_run begin_advance
overlapped-Lasts_example =
    overlapped-Lasts (agent_answers 0 (printed "ok" 5000) ∷ []) cancelled_meanwhile 1 1
      cancelled_run refl (omega arith) (inr (inr refl))

post-isolation_example :
    find_run 2 2 (post (granted ops) agent 10 (Action.cancel (some 2)) two_runs).0.runs
    ≡ some over_run
post-isolation_example =
    post-isolation ops agent 10 (Action.cancel (some 2)) two_runs 2 2 over_run two_runs-IsValid refl
      (ground arith)

in_turn-advance_ends_example :
    (r' : PipelineRun) × (find_run 1 1
        (in_turn (advance 20 true ∷ advance 30 false ∷ []) (idle two_runs)).db.runs
      ≡ some r')
    × IsOver r'.status
in_turn-advance_ends_example =
    in_turn-advance_ends (advance 20 true ∷ advance 30 false ∷ []) 1 1 two_runs live_run
      two_runs-IsValid refl (ground arith) refl
      ((ops, some true, none, refl, refl, refl), ((ops, some false, none, refl, refl, refl), tt))
      (omega arith)
