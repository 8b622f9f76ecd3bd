-- ===== src/Pipeline/InTurn.antt =====
-- Requests that do not overlap: each is answered, its agent included, before the next arrives.
use mathlib.Core.Path.{subst}
use omni_mission_control.Prelude.{
  ℕ, ◌+◌, ◌≡◌, refl, sym, ap, ◌∙◌, Bool, not, ◌&&◌, Option, none, some, List, [], ◌∷◌, ◌++◌, String,
  get_elem?, Bool-cases, Option-cases, List-cases, inl, inr,
}
use omni_mission_control.Auth.{RoleCheck, granted, refused}
use omni_mission_control.Pipeline.{
  RunStepState, PipelineRun, Template, PipelineDb, Agent, Response, find_run, find_pipeline,
  find_template, update_at, spawn_if,
}
use omni_mission_control.Pipeline.Start.{start_steps, start_pipeline}
use omni_mission_control.Pipeline.Advance.{
  mark, stops, not_running, missing, lookup_run, run_next, advance_step, advance_found, advance_run,
  caught, Action, start, advance, cancel, other, or_true, post,
}
use omni_mission_control.Pipeline.Runs.{Request, serve}
use omni_mission_control.Pipeline.Overlap.{
  starting, advancing, Reply, answers, awaits, finish, resume, spawn_or_finish, begin_start,
  begin_advance_step, begin_advance_found, begin_advance, begin, Server, arrives, agent_answers,
  replied, step,
}
use omni_mission_control.Pipeline.Start.{snapshot_from, new_run, use_pipeline}
use omni_mission_control.Pipeline.Advance.{name_of, begin_step}
use omni_mission_control.Pipeline.Runs.{serve-IsValid}
use omni_mission_control.Pipeline.Ending.{serve-advance_ends, IsAdvance}
use omni_mission_control.Pipeline.Effect.{IsValid, IsOver}
use omni_mission_control.Pipeline.{RunStatus}
use omni_mission_control.Prelude.{◌≢◌, ◌≤◌, All, length}

-- The request goes on at once with what the agent answers.
abbrev at_once : Agent → PipelineDb × Reply → PipelineDb × Response
at_once agent (db, answers response) = (db, response)
at_once agent (db, awaits c) = resume (agent c.name c.idx c.template) c db

started-at_once :
    (agent : Agent) (p : ℕ) (by name : String) (o : Option Template) (ss : List RunStepState)
    (id w : ℕ) (db : PipelineDb)
    → at_once agent (spawn_or_finish (starting p by) name o ss 0 id w db) ≡ (
        let (db', ss', spawn) = spawn_if agent db name o ss 0 id w in
        finish (starting p by) 0 id w ss' spawn db')
unfolding resume spawn_if
started-at_once agent p by name none ss id w db = refl
started-at_once agent p by name (some t) ss id w db = refl

moved-at_once :
    (agent : Agent) (name : String) (o : Option Template) (ss : List RunStepState) (next id w : ℕ)
    (db : PipelineDb)
    → at_once agent (spawn_or_finish advancing name o ss next id w db) ≡ (
        let (db', ss', spawn) = spawn_if agent db name o ss next id w in
        finish advancing next id w ss' spawn db')
unfolding resume spawn_if
moved-at_once agent name none ss next id w db = refl
moved-at_once agent name (some t) ss next id w db = refl

begin_start-at_once :
    (agent : Agent) (now id : ℕ) (by : String) (w : ℕ) (db : PipelineDb)
    → at_once agent (begin_start now id by w db) ≡ start_pipeline agent now id by w db
unfolding begin_start start_pipeline start_steps
begin_start-at_once agent now id by w db = elim (Option-cases (find_pipeline id w db.pipelines)) [
  | inl e ↦ rw (e, begin_start, start_pipeline) refl
  | inr (p, e) ↦ elim (List-cases p.steps) [
    | inl none_there ↦ rw (e, none_there, begin_start, start_pipeline) refl
    | inr (first, rest, there) ↦
        let ss = snapshot_from 0 now db.templates (first ∷ rest) in
        let inserted : PipelineDb = record db {
          runs = db.runs ++ new_run db.next_run p.id now ss by w ∷ [];
          next_run = db.next_run + 1;
          pipelines = use_pipeline p.id w now db.pipelines;
        } in
        rw (e, there, begin_start, start_pipeline)
          (started-at_once agent p.id by p.name (find_template first.template_id db.templates) ss
            db.next_run w inserted)
  ]
]

begin_advance_step-at_once :
    (agent : Agent) (now : ℕ) (success : Bool) (message : Option String) (w : ℕ) (r : PipelineRun)
    (current : RunStepState) (db : PipelineDb)
    → at_once agent (begin_advance_step now success message w r current db)
      ≡ advance_step agent now success message w r current db
unfolding begin_advance_step advance_step run_next
begin_advance_step-at_once agent now success message w r current db =
    let ss = update_at r.current_step (mark success message now) r.steps_snapshot in
    elim (Bool-cases (not success && stops current)) [
      | inl b ↦ rw (b, begin_advance_step, advance_step) refl
      | inr b ↦ elim (Option-cases (get_elem? ss (r.current_step + 1))) [
        | inl last ↦ rw (b, last, begin_advance_step, advance_step) refl
        | inr (upcoming, more) ↦
            rw (b, more, begin_advance_step, advance_step)
              (moved-at_once agent (name_of (find_pipeline r.pipeline_id w db.pipelines))
                (find_template upcoming.template_id db.templates)
                (update_at (r.current_step + 1) (begin_step now) ss) (r.current_step + 1) r.id w db)
      ]
    ]

begin_advance_found-at_once :
    (agent : Agent) (now : ℕ) (success : Bool) (message : Option String) (w : ℕ) (r : PipelineRun)
    (db : PipelineDb)
    → at_once agent (begin_advance_found now success message w r db)
      ≡ caught db (advance_found agent now success message w r db)
begin_advance_found-at_once agent now success message w r db =
    elim (Option-cases (not_running r.status)) [
      | inr (text, e) ↦ rw (e, begin_advance_found, advance_found, caught) refl
      | inl live ↦ elim (Option-cases (get_elem? r.steps_snapshot r.current_step)) [
        | inl lost ↦ rw (live, lost, begin_advance_found, advance_found, caught) refl
        | inr (current, at) ↦
            rw (live, at, begin_advance_found, advance_found, caught)
              (begin_advance_step-at_once agent now success message w r current db)
      ]
    ]

begin_advance-at_once :
    (agent : Agent) (now : ℕ) (id : Option ℕ) (success : Bool) (message : Option String) (w : ℕ)
    (db : PipelineDb)
    → at_once agent (begin_advance now id success message w db)
      ≡ caught db (advance_run agent now id success message w db)
unfolding begin_advance advance_run
begin_advance-at_once agent now id success message w db = elim (Bool-cases (missing id)) [
  | inl e ↦ rw (e, begin_advance, advance_run, caught) refl
  | inr e ↦ elim (Option-cases (lookup_run id w db)) [
    | inl lost ↦ rw (e, lost, begin_advance, advance_run, caught) refl
    | inr (r, found) ↦
        rw (e, found, begin_advance, advance_run, caught)
          (begin_advance_found-at_once agent now success message w r db)
  ]
]

-- The handler is its part before the await and its part after it.
begin-at_once :
    (c : RoleCheck) (agent : Agent) (now : ℕ) (a : Action) (db : PipelineDb)
    → at_once agent (begin c now a db) ≡ post c agent now a db
unfolding begin post
begin-at_once (refused message status) agent now a db = refl
begin-at_once (granted u) agent now (start id) db =
    begin_start-at_once agent now id _ u.workspace_id db
begin-at_once (granted u) agent now (advance id success message) db =
    begin_advance-at_once agent now id (or_true success) message u.workspace_id db
begin-at_once (granted u) agent now (cancel id) db = refl
begin-at_once (granted u) agent now other db = refl

-- A request arrives, and its agent answers before anything else happens, if it is awaited.
abbrev pub turn : Agent → Server → Server
turn agent s = elim (s.waiting) [
  | [] ↦ s
  | c ∷ cs ↦ step (agent_answers 0 (agent c.name c.idx c.template)) s
]

unfoldable pub in_turn : List Request → Server → Server
in_turn [] s = s
in_turn (q ∷ qs) s = in_turn qs (turn q.agent (step (arrives q.auth q.now q.action) s))

abbrev pub idle : PipelineDb → Server
idle db = record { db = db; waiting = [] }

replied-turn :
    (agent : Agent) (r : PipelineDb × Reply) → turn agent (replied [] r) ≡ idle (at_once agent r).0
unfolding step
replied-turn agent (db, answers response) = refl
replied-turn agent (db, awaits c) = refl

-- Requests that do not overlap are served as `serve` does.
pub in_turn-serve :
    (qs : List Request) (db : PipelineDb) → in_turn qs (idle db) ≡ idle (serve qs db)
unfolding in_turn serve step
in_turn-serve [] db = refl
in_turn-serve (q ∷ qs) db =
    let one : turn q.agent (step (arrives q.auth q.now q.action) (idle db))
        ≡ idle (post q.auth q.agent q.now q.action db).0 =
      replied-turn q.agent (begin q.auth q.now q.action db)
      ∙ ap (λ (r : PipelineDb × Response). idle r.0)
          (begin-at_once q.auth q.agent q.now q.action db) in
    ap (in_turn qs) one ∙ in_turn-serve qs (post q.auth q.agent q.now q.action db).0

-- Where requests do not overlap, that is where each is answered, its agent included, before the next
-- arrives: from a table where this holds, each run in the table has the shape that its status says. A
-- running run is at a step of its list that runs, with only passed steps before it and waiting ones
-- behind it; a completed run passed all its steps; a failed run failed at its current step, whose
-- policy is to stop, and skipped the rest; a cancelled run has no step that waits or runs. Ids are
-- unique and below the next one.
pub in_turn-IsValid :
    (qs : List Request) (db : PipelineDb) → IsValid db → IsValid (in_turn qs (idle db)).db
in_turn-IsValid qs db v =
    subst (λ (s : Server). IsValid s.db) (sym (in_turn-serve qs db)) (serve-IsValid qs db v)

-- Where requests do not overlap, from a valid table: a running run, whose id is not 0, ends: once it has
-- been advanced as often as it has steps from the current one on, with whatever results, it is over.
pub in_turn-advance_ends :
    (qs : List Request) (id w : ℕ) (db : PipelineDb) (r : PipelineRun)
    → IsValid db
    → find_run id w db.runs ≡ some r
    → id ≢ 0
    → r.status ≡ RunStatus.running
    → All (IsAdvance id w) qs
    → length r.steps_snapshot ≤ r.current_step + length qs
    → (r' : PipelineRun) × (find_run id w (in_turn qs (idle db)).db.runs ≡ some r')
      × IsOver r'.status
in_turn-advance_ends qs id w db r v found n s a l =
    subst
      (λ (x : Server). (r' : PipelineRun) × (find_run id w x.db.runs ≡ some r') × IsOver r'.status)
      (sym (in_turn-serve qs db)) (serve-advance_ends qs id w db r v found n s a l)
