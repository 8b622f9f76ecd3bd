-- ===== src/Pipeline/Overlap.antt =====
-- The requests of src/app/api/pipelines/run/route.ts that overlap. A handler awaits `openclaw agent` in
-- `spawnStep`, and other requests are served meanwhile: `begin` is a handler up to that await, with
-- the reply where it does not come to it, and `resume` is the rest. The code between two awaits runs
-- without an interruption; after `spawnStep` nothing is awaited any more but its own return.
use omni_mission_control.Prelude.{
  ℕ, ◌+◌, Bool, not, ◌&&◌, Option, none, some, List, [], ◌∷◌, ◌++◌, String, str_or, get_elem?,
  if◌then◌else◌,
}
use omni_mission_control.Auth.{RoleCheck, granted, refused}
use omni_mission_control.Pipeline.{
  RunStepState, RunStatus, PipelineRun, Template, PipelineDb, logged, broadcast, Spawned,
  SpawnResult, RunView, Response, error, run, find_pipeline, find_template, update_run, update_at,
  spawn_step,
}
use omni_mission_control.Pipeline.Start.{snapshot_from, new_run, use_pipeline, shown_status}
use omni_mission_control.Pipeline.Advance.{
  mark, skip_from, stops, set_run, set_progress, begin_step, plain, name_of, not_running, missing,
  lookup_run, cancel_run, Action, start, advance, cancel, other, or_true,
}
use omni_mission_control.Prelude.{zero, suc}

-- Which handler awaits, with what it uses afterwards.
pub data Kind : Type 0 where
  starting : ℕ → String → Kind
  advancing : Kind

pub record Call : Type 0 where
  pub kind : Kind
  pub name : String
  pub template : Template
  pub steps : List RunStepState
  pub idx : ℕ
  pub run_id : ℕ
  pub workspace : ℕ

pub data Reply : Type 0 where
  answers : Response → Reply
  awaits : Call → Reply

abbrev pub spawned_view : ℕ → RunStatus → List RunStepState → Option SpawnResult → RunView
spawned_view id status steps spawn = record {
  id = id;
  status = status;
  steps_snapshot = steps;
  spawn = spawn;
}

-- The end of a handler, with the steps after `spawnStep` and its result, if a template was there.
abbrev pub finish :
    Kind → ℕ → ℕ → ℕ → List RunStepState → Option SpawnResult → PipelineDb → PipelineDb × Response
finish (starting pipeline_id by) idx id w steps spawn db = (
  record db {
    notes =
        db.notes
        ++ logged "pipeline_started" pipeline_id by id
          ∷ broadcast "pipeline_started" pipeline_id
          ∷ [];
  },
  run (spawned_view id (shown_status steps) steps spawn) 201,
)
finish advancing idx id w steps spawn db = (
  update_run id w (set_progress idx steps) db,
  run (spawned_view id RunStatus.running steps spawn) 200,
)

-- The handler goes on when the agent has answered.
unfoldable pub resume : Spawned → Call → PipelineDb → PipelineDb × Response
unfolding spawn_step
resume answer c db =
    let (db', steps', result) =
      spawn_step (λ _ _ _. answer) db c.name c.template c.steps c.idx c.run_id c.workspace in
    finish c.kind c.idx c.run_id c.workspace steps' (some result) db'

-- The await is there only if the template is.
abbrev pub spawn_or_finish :
    Kind
    → String
    → Option Template
    → List RunStepState
    → ℕ
    → ℕ
    → ℕ
    → PipelineDb
    → PipelineDb × Reply
spawn_or_finish kind name none steps idx id w db =
    let (db', response) = finish kind idx id w steps none db in (db', answers response)
spawn_or_finish kind name (some t) steps idx id w db = (
  db,
  awaits (record {
    kind = kind;
    name = name;
    template = t;
    steps = steps;
    idx = idx;
    run_id = id;
    workspace = w;
  }),
)

unfoldable pub begin_start : ℕ → ℕ → String → ℕ → PipelineDb → PipelineDb × Reply
unfolding snapshot_from
begin_start now pipeline_id by w db = elim (find_pipeline pipeline_id w db.pipelines) [
  | none ↦ (db, answers (error "Pipeline not found" 404))
  | some p ↦ elim (p.steps) [
    | [] ↦ (db, answers (error "Pipeline has no steps" 400))
    | first ∷ rest ↦
        let steps = snapshot_from 0 now db.templates (first ∷ rest) in
        spawn_or_finish (starting p.id by) p.name (find_template first.template_id db.templates)
          steps 0 db.next_run w
          (record db {
            runs = db.runs ++ new_run db.next_run p.id now steps by w ∷ [];
            next_run = db.next_run + 1;
            pipelines = use_pipeline p.id w now db.pipelines;
          })
  ]
]

unfoldable pub begin_advance_step :
    ℕ → Bool → Option String → ℕ → PipelineRun → RunStepState → PipelineDb → PipelineDb × Reply
begin_advance_step now success message w r current db =
    let idx = r.current_step in
    let steps = update_at idx (mark success message now) r.steps_snapshot in
    let skipped = skip_from (idx + 1) steps in
    if not success && stops current
    then (
      update_run r.id w (set_run RunStatus.failed idx skipped (some now)) db,
      answers (run (plain r.id RunStatus.failed skipped) 200),
    )
    else elim (get_elem? steps (idx + 1)) [
      | none ↦
          let done = update_run r.id w (set_run RunStatus.completed idx steps (some now)) db in
          (
            record done { notes = done.notes ++ broadcast "pipeline_completed" r.pipeline_id ∷ [] },
            answers (run (plain r.id RunStatus.completed steps) 200),
          )
      | some upcoming ↦
          spawn_or_finish advancing (name_of (find_pipeline r.pipeline_id w db.pipelines))
            (find_template upcoming.template_id db.templates)
            (update_at (idx + 1) (begin_step now) steps) (idx + 1) r.id w db
    ]

abbrev pub begin_advance_found :
    ℕ → Bool → Option String → ℕ → PipelineRun → PipelineDb → PipelineDb × Reply
begin_advance_found now success message w r db = elim (not_running r.status) [
  | some text ↦ (db, answers (error text 400))
  | none ↦ elim (get_elem? r.steps_snapshot r.current_step) [
    | none ↦ (db, answers (error "Failed to process pipeline run" 500))
    | some current ↦ begin_advance_step now success message w r current db
  ]
]

unfoldable pub begin_advance :
    ℕ → Option ℕ → Bool → Option String → ℕ → PipelineDb → PipelineDb × Reply
unfolding begin_advance_step
begin_advance now run_id success message w db =
    if missing run_id
    then (db, answers (error "run_id required" 400))
    else elim (lookup_run run_id w db) [
      | none ↦ (db, answers (error "Run not found" 404))
      | some r ↦ begin_advance_found now success message w r db
    ]

abbrev pub answered : PipelineDb × Response → PipelineDb × Reply
answered (db, response) = (db, answers response)

-- The POST handler up to its await.
unfoldable pub begin : RoleCheck → ℕ → Action → PipelineDb → PipelineDb × Reply
begin (refused message status) now action db = (db, answers (error message status))
begin (granted u) now (start id) db =
    begin_start now id (str_or (some u.username) "system") u.workspace_id db
begin (granted u) now (advance id success message) db =
    begin_advance now id (or_true success) message u.workspace_id db
begin (granted u) now (cancel id) db = answered (cancel_run now id u.workspace_id db)
begin (granted u) now other db =
    (db, answers (error "Invalid action. Use: start, advance, cancel" 400))

-- The tables, and the requests whose agents have not answered.
pub record Server : Type 0 where
  pub db : PipelineDb
  pub waiting : List Call

-- A request comes, or the agent of the waiting request at a place answers.
pub data Step : Type 0 where
  arrives : RoleCheck → ℕ → Action → Step
  agent_answers : ℕ → Spawned → Step

abbrev pub replied : List Call → PipelineDb × Reply → Server
replied waiting (db, answers response) = record { db = db; waiting = waiting }
replied waiting (db, awaits c) = record { db = db; waiting = waiting ++ c ∷ [] }

-- The list without the element at a place.
abbrev pub without {ℓ} : {A : Type ℓ} → ℕ → List A → List A
without i [] = []
without zero (x ∷ xs) = xs
without (suc i) (x ∷ xs) = x ∷ without i xs

unfoldable pub step : Step → Server → Server
unfolding begin resume
step (arrives auth now action) s = replied s.waiting (begin auth now action s.db)
step (agent_answers i answer) s = elim (get_elem? s.waiting i) [
  | none ↦ s
  | some c ↦ record { db = (resume answer c s.db).0; waiting = without i s.waiting }
]

unfoldable pub overlapped : List Step → Server → Server
unfolding step
overlapped [] s = s
overlapped (e ∷ es) s = overlapped es (step e s)
