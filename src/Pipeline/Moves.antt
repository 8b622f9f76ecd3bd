-- ===== src/Pipeline/Moves.antt =====
-- Advancing and cancelling a run that is there moves that run on, or keeps the table.
use omni_mission_control.Prelude.{
  ℕ, suc, ◌+◌, ◌≡◌, refl, sym, ap, ◌∙◌, ◌⊎◌, inl, inr, Bool, not, ◌&&◌, Option, none, some, List,
  String, map, get_elem?, length, arith, Bool-cases, Option-cases, length-map,
}
use mathlib.Core.Path.{subst}
use omni_mission_control.Pipeline.{
  RunStepState, RunStatus, PipelineRun, Template, PipelineDb, Agent, Spawned, printed, crashed,
  update_at, update_rows, update_run, spawn_if, spawn_step, find_run, find_pipeline, find_template,
}
use omni_mission_control.Pipeline.Advance.{
  mark, skip_from, stops, begin_step, cancel_step, set_run, set_progress, set_cancelled, name_of,
  run_next, advance_step, not_running, advance_found, not_cancellable, cancel_found, caught,
}
use omni_mission_control.Pipeline.Shape.{
  HasShape, IsWellFormed, InProgress, mark-IsPassed, mark-begin-InProgress, mark-skip-IsStopped,
  cancel-IsSettled, update_at-InProgress,
}
use omni_mission_control.Pipeline.Effect.{
  Moved, to, Effect, kept, moved, length-update_at, length-skip_from, update_rows-update_rows,
}

Spawned-cases :
    (x : Spawned)
    → ((s : String) × (at : ℕ) × (x ≡ printed s at)) ⊎ ((m : String) × (x ≡ crashed m))
Spawned-cases (printed s at) = inl (s, at, refl)
Spawned-cases (crashed m) = inr (m, refl)

-- Spawning a step writes the same steps to the table and to the response, and moves no step.
abbrev pub SpawnEffect :
    PipelineDb → ℕ → ℕ → List RunStepState → PipelineDb → List RunStepState → Type 0
SpawnEffect db id w ss db' ts =
    (length ts ≡ length ss)
    × ((i : ℕ) → InProgress i ss → InProgress i ts)
    × (((db' ≡ db) × (ts ≡ ss))
        ⊎ (db' ≡ update_run id w (λ r. record r { steps_snapshot = ts }) db))

pub spawn_if-SpawnEffect :
    (agent : Agent) (db : PipelineDb) (name : String) (o : Option Template) (ss : List RunStepState)
    (idx id w : ℕ)
    → let res = spawn_if agent db name o ss idx id w in SpawnEffect db id w ss res.0 res.1
unfolding spawn_if
spawn_if-SpawnEffect agent db name none ss idx id w = (refl, λ i h. h, inl (refl, refl))
spawn_if-SpawnEffect agent db name (some t) ss idx id w = elim (Spawned-cases (agent name idx t)) [
  | inl (s, at, e) ↦
      rw (e, spawn_step)
        (
          length-update_at idx
              (λ x. record x { spawn_id = some (record { run = id; step = idx; at = at }) }) ss,
          λ i h.
              update_at-InProgress
                (λ x. record x { spawn_id = some (record { run = id; step = idx; at = at }) }) i idx
                ss (λ x. (refl, refl)) h,
          inr refl,
        )
  | inr (m, e) ↦
      rw (e, spawn_step)
        (
          length-update_at idx (λ x. record x { error = some m }) ss,
          λ i h.
              update_at-InProgress (λ x. record x { error = some m }) i idx ss (λ x. (refl, refl))
                h,
          inr refl,
        )
]

pub spawn-next_run :
    (db db' : PipelineDb) (id w : ℕ) (ss ts : List RunStepState)
    → SpawnEffect db id w ss db' ts
    → db'.next_run ≡ db.next_run
spawn-next_run db db' id w ss ts (l, k, inl (e, e')) = ap (λ (d : PipelineDb). d.next_run) e
spawn-next_run db db' id w ss ts (l, k, inr e) = ap (λ (d : PipelineDb). d.next_run) e

progress_rows :
    (db db' : PipelineDb) (id w next : ℕ) (ss ts : List RunStepState)
    → SpawnEffect db id w ss db' ts
    → update_rows id w (set_progress next ts) db'.runs
      ≡ update_rows id w (set_progress next ts) db.runs
progress_rows db db' id w next ss ts (l, k, inl (e, e')) =
    ap (λ (d : PipelineDb). update_rows id w (set_progress next ts) d.runs) e
progress_rows db db' id w next ss ts (l, k, inr e) =
    ap (λ (d : PipelineDb). update_rows id w (set_progress next ts) d.runs) e
    ∙ update_rows-update_rows id w next ts ts db.runs

run_next-runs :
    (agent : Agent) (now w : ℕ) (r : PipelineRun) (ss : List RunStepState) (next : ℕ)
    (upcoming : RunStepState) (db : PipelineDb)
    → InProgress next (update_at next (begin_step now) ss)
    → (ts : List RunStepState) × (InProgress next ts)
      × (length ts ≡ length ss)
      × ((run_next agent now w r ss next upcoming db).0.runs
          ≡ update_rows r.id w (set_progress next ts) db.runs)
      × ((run_next agent now w r ss next upcoming db).0.next_run ≡ db.next_run)
unfolding run_next
run_next-runs agent now w r ss next upcoming db h =
    let begun : List RunStepState = update_at next (begin_step now) ss in
    let name : String = name_of (find_pipeline r.pipeline_id w db.pipelines) in
    let t : Option Template = find_template upcoming.template_id db.templates in
    let (db', ts, result) = spawn_if agent db name t begun next r.id w in
    let eff : SpawnEffect db r.id w begun db' ts =
      spawn_if-SpawnEffect agent db name t begun next r.id w in
    (
      ts,
      eff.1 next h,
      eff.0 ∙ length-update_at next (begin_step now) ss,
      progress_rows db db' r.id w next begun ts eff,
      spawn-next_run db db' r.id w begun ts eff,
    )

suc-add-one : (n : ℕ) → n + 1 ≡ suc n
suc-add-one n = omega arith

progress-IsWellFormed :
    (r : PipelineRun) (next : ℕ) (ts : List RunStepState)
    → r.status ≡ RunStatus.running
    → InProgress next ts
    → IsWellFormed (set_progress next ts r)
progress-IsWellFormed r next ts e h = subst (λ s. HasShape s next ts) (sym e) h

-- Advancing a run that is running moves that run on.
pub advance_step-Moved :
    (agent : Agent) (now : ℕ) (success : Bool) (message : Option String) (w : ℕ) (r : PipelineRun)
    (current : RunStepState) (db : PipelineDb)
    → r.status ≡ RunStatus.running
    → InProgress r.current_step r.steps_snapshot
    → get_elem? r.steps_snapshot r.current_step ≡ some current
    → Moved w r db (advance_step agent now success message w r current db).0
unfolding advance_step
advance_step-Moved agent now success message w r current db running shape at =
    let i : ℕ = r.current_step in
    let ss : List RunStepState = update_at i (mark success message now) r.steps_snapshot in
    let same : length ss ≡ length r.steps_snapshot =
      length-update_at i (mark success message now) r.steps_snapshot in
    elim (Bool-cases (not success && stops current)) [
      | inl e ↦ rw e (
          to (set_run RunStatus.failed i (skip_from (i + 1) ss) (some now))
            (rw (suc-add-one i)
              (mark-skip-IsStopped now message success i r.steps_snapshot current shape at e))
            (refl, refl, refl, length-skip_from (i + 1) ss ∙ same, inr (inr (inl refl))) refl refl)
      | inr e ↦ elim (Option-cases (get_elem? ss (i + 1))) [
        | inl last ↦
            rw (e, last)
              (to (set_run RunStatus.completed i ss (some now))
                (mark-IsPassed now message success i r.steps_snapshot current shape at e last)
                (refl, refl, refl, same, inr (inl refl)) refl refl)
        | inr (upcoming, more) ↦
            let begun : InProgress (i + 1) (update_at (i + 1) (begin_step now) ss) =
              rw (suc-add-one i) (
                mark-begin-InProgress now message success i r.steps_snapshot current upcoming shape
                  at e (rw (suc-add-one i) at more)) in
            let (ts, progress, size, rows, next) =
              run_next-runs agent now w r ss (i + 1) upcoming db begun in
            rw (e, more)
              (to (set_progress (i + 1) ts) (progress-IsWellFormed r (i + 1) ts running progress)
                (refl, refl, refl, size ∙ same, inl (running, suc-add-one i)) rows next)
      ]
    ]

pub not_running-cases :
    (s : RunStatus) → (s ≡ RunStatus.running) ⊎ ((text : String) × (not_running s ≡ some text))
not_running-cases RunStatus.running = inl refl
not_running-cases RunStatus.pending = inr (_, refl)
not_running-cases RunStatus.completed = inr (_, refl)
not_running-cases RunStatus.failed = inr (_, refl)
not_running-cases RunStatus.cancelled = inr (_, refl)

pub not_cancellable-cases :
    (s : RunStatus)
    → (s ≡ RunStatus.running)
      ⊎ (s ≡ RunStatus.pending)
      ⊎ ((text : String) × (not_cancellable s ≡ some text))
not_cancellable-cases RunStatus.running = inl refl
not_cancellable-cases RunStatus.pending = inr (inl refl)
not_cancellable-cases RunStatus.completed = inr (inr (_, refl))
not_cancellable-cases RunStatus.failed = inr (inr (_, refl))
not_cancellable-cases RunStatus.cancelled = inr (inr (_, refl))

-- The same shape, once the status is known.
pub shape_at :
    (r : PipelineRun) (s : RunStatus)
    → r.status ≡ s
    → IsWellFormed r
    → HasShape s r.current_step r.steps_snapshot
shape_at r s e h = subst (λ x. HasShape x r.current_step r.steps_snapshot) e h

pub advance_found-Effect :
    (agent : Agent) (now : ℕ) (success : Bool) (message : Option String) (w : ℕ) (r : PipelineRun)
    (db : PipelineDb)
    → find_run r.id w db.runs ≡ some r
    → IsWellFormed r
    → Effect w db (caught db (advance_found agent now success message w r db)).0
advance_found-Effect agent now success message w r db found shape =
    elim (not_running-cases r.status) [
      | inr (text, e) ↦ rw (e, advance_found, caught) (kept refl refl)
      | inl e ↦
          let live : not_running r.status ≡ none = ap not_running e in
          elim (Option-cases (get_elem? r.steps_snapshot r.current_step)) [
            | inl lost ↦ rw (live, lost, advance_found, caught) (kept refl refl)
            | inr (current, at) ↦
                rw (live, at, advance_found, caught)
                  (moved r found e (
                    advance_step-Moved agent now success message w r current db e
                      (shape_at r RunStatus.running e shape) at))
          ]
    ]

-- Cancelling a run that is there.
pub cancel_found-Effect :
    (now w : ℕ) (r : PipelineRun) (db : PipelineDb)
    → find_run r.id w db.runs ≡ some r
    → IsWellFormed r
    → Effect w db (cancel_found now w r db).0
cancel_found-Effect now w r db found shape = elim (not_cancellable-cases r.status) [
  | inl e ↦
      let live : not_cancellable r.status ≡ none = ap not_cancellable e in
      rw (live, cancel_found)
        (moved r found e (
          to (set_cancelled (map (cancel_step now) r.steps_snapshot) now)
            (cancel-IsSettled now none r.steps_snapshot)
            (refl, refl, refl, length-map r.steps_snapshot (cancel_step now), inr (inr (inr refl)))
            refl refl))
  | inr (inl e) ↦ absurd (shape_at r RunStatus.pending e shape)
  | inr (inr (text, e)) ↦ rw (e, cancel_found) (kept refl refl)
]
