-- ===== src/Pipeline/History.antt =====
-- What holds of the table of runs after any requests.
use omni_mission_control.Prelude.{
  ℕ, ◌+◌, ◌<◌, ◌≡◌, refl, sym, ap, ◌∙◌, inl, inr, Bool, Option, none, some, List, [], ◌∷◌, ◌++◌,
  String, ◌==◌, All, Bool-cases, Option-cases, str_or, List-cases,
}
use mathlib.Core.Path.{subst}
use omni_mission_control.Auth.{granted, User}
use omni_mission_control.Pipeline.{
  RunStepState, PipelineRun, PipelineStep, Pipeline, Template, PipelineDb, Agent, spawn_if,
  find_run, find_pipeline, find_template,
}
use omni_mission_control.Pipeline.Start.{
  snapshot_from, new_run, start_steps, start_pipeline, use_pipeline,
}
use omni_mission_control.Pipeline.Advance.{Action, post, advance_run, cancel_run, caught, or_true}
use omni_mission_control.Pipeline.Shape.{IsWellFormed, InProgress, snapshot-InProgress}
use omni_mission_control.Pipeline.Effect.{
  Effect, kept, added, IsValid, find_run-All, find_run-id, update_rows_new,
}
use omni_mission_control.Pipeline.Moves.{
  SpawnEffect, spawn_if-SpawnEffect, advance_found-Effect, cancel_found-Effect, spawn-next_run,
}

start_steps-Effect :
    (agent : Agent) (now : ℕ) (p : Pipeline) (first : PipelineStep) (rest : List PipelineStep)
    (by : String) (w : ℕ) (db : PipelineDb)
    → All (λ x. x.id < db.next_run) db.runs
    → Effect w db (start_steps agent now p first rest by w db).0
unfolding start_steps
start_steps-Effect agent now p first rest by w db below =
    let ss : List RunStepState = snapshot_from 0 now db.templates (first ∷ rest) in
    let fresh : PipelineRun = new_run db.next_run p.id now ss by w in
    let inserted : PipelineDb = record db {
      runs = db.runs ++ fresh ∷ [];
      next_run = db.next_run + 1;
      pipelines = use_pipeline p.id w now db.pipelines;
    } in
    let t : Option Template = find_template first.template_id db.templates in
    let (db', ts, result) = spawn_if agent inserted p.name t ss 0 db.next_run w in
    let eff : SpawnEffect inserted db.next_run w ss db' ts =
      spawn_if-SpawnEffect agent inserted p.name t ss 0 db.next_run w in
    let shape : InProgress 0 ts = eff.1 0 (snapshot-InProgress now db.templates first rest) in
    let next : db'.next_run ≡ db.next_run + 1 =
      spawn-next_run inserted db' db.next_run w ss ts eff in
    elim (eff.2) [
      | inl (e, e') ↦
          added fresh refl refl refl (snapshot-InProgress now db.templates first rest)
            (ap (λ (d : PipelineDb). d.runs) e) next
      | inr e ↦
          added (record fresh { steps_snapshot = ts }) refl refl refl shape
            (ap (λ (d : PipelineDb). d.runs) e
              ∙ update_rows_new db.next_run w (λ r. record r { steps_snapshot = ts }) db.runs fresh
                  below refl refl)
            next
    ]

start_pipeline-Effect :
    (agent : Agent) (now id : ℕ) (by : String) (w : ℕ) (db : PipelineDb)
    → All (λ x. x.id < db.next_run) db.runs
    → Effect w db (start_pipeline agent now id by w db).0
unfolding start_pipeline
start_pipeline-Effect agent now id by w db below =
    elim (Option-cases (find_pipeline id w db.pipelines)) [
      | inl e ↦ rw (e, start_pipeline) (kept refl refl)
      | inr (p, e) ↦ elim (List-cases p.steps) [
        | inl none_there ↦ rw (e, none_there, start_pipeline) (kept refl refl)
        | inr (first, rest, some_there) ↦
            rw (e, some_there, start_pipeline)
              (start_steps-Effect agent now p first rest by w db below)
      ]
    ]

advance_run-Effect :
    (agent : Agent) (now : ℕ) (id : Option ℕ) (success : Bool) (message : Option String) (w : ℕ)
    (db : PipelineDb)
    → All IsWellFormed db.runs
    → Effect w db (caught db (advance_run agent now id success message w db)).0
unfolding advance_run
advance_run-Effect agent now none success message w db shapes = kept refl refl
advance_run-Effect agent now (some id) success message w db shapes = elim (Bool-cases (id == 0)) [
  | inl e ↦ rw (e, caught) (kept refl refl)
  | inr e ↦ elim (Option-cases (find_run id w db.runs)) [
    | inl lost ↦ rw (e, lost, caught) (kept refl refl)
    | inr (r, found) ↦
        let same : r.id ≡ id = (find_run-id id w db.runs r found).0 in
        rw (e, found, caught)
          (advance_found-Effect agent now success message w r db
            (subst (λ k. find_run k w db.runs ≡ some r) (sym same) found)
            (find_run-All IsWellFormed id w db.runs r shapes found))
  ]
]

cancel_run-Effect :
    (now : ℕ) (id : Option ℕ) (w : ℕ) (db : PipelineDb)
    → All IsWellFormed db.runs
    → Effect w db (cancel_run now id w db).0
unfolding cancel_run
cancel_run-Effect now none w db shapes = kept refl refl
cancel_run-Effect now (some id) w db shapes = elim (Bool-cases (id == 0)) [
  | inl e ↦ rw e (kept refl refl)
  | inr e ↦ elim (Option-cases (find_run id w db.runs)) [
    | inl lost ↦ rw (e, lost) (kept refl refl)
    | inr (r, found) ↦
        let same : r.id ≡ id = (find_run-id id w db.runs r found).0 in
        rw (e, found)
          (cancel_found-Effect now w r db
            (subst (λ k. find_run k w db.runs ≡ some r) (sym same) found)
            (find_run-All IsWellFormed id w db.runs r shapes found))
  ]
]

-- In a valid table: a request in a workspace keeps the table of runs, adds one run of that workspace under the next
-- id, or moves one running run of that workspace on.
pub post-Effect :
    (u : User) (agent : Agent) (now : ℕ) (a : Action) (db : PipelineDb)
    → IsValid db
    → Effect u.workspace_id db (post (granted u) agent now a db).0
unfolding post
post-Effect u agent now (Action.start id) db v =
    start_pipeline-Effect agent now id (str_or (some u.username) "system") u.workspace_id db v.below
post-Effect u agent now (Action.advance id success message) db v =
    advance_run-Effect agent now id (or_true success) message u.workspace_id db v.shapes
post-Effect u agent now (Action.cancel id) db v =
    cancel_run-Effect now id u.workspace_id db v.shapes
post-Effect u agent now Action.other db v = kept refl refl
