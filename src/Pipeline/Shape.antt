-- ===== src/Pipeline/Shape.antt =====
-- The shape of a run: which steps are done, running, waiting and skipped, for each status of the run.
use omni_mission_control.Prelude.{
  ℕ, zero, suc, ◌+◌, ◌<◌, ◌≡◌, refl, ◌≢◌, ◌⊎◌, Bool, true, false, not, ◌&&◌, Option, none, some,
  List, [], ◌∷◌, String, map, get_elem?, length, arith, All,
}
use omni_mission_control.Pipeline.{
  StepStatus, RunStepState, RunStatus, PipelineRun, PipelineStep, Template, update_at,
}
use omni_mission_control.Pipeline.Start.{snapshot_from}
use omni_mission_control.Pipeline.Advance.{mark, skip, skip_from, stops, begin_step, cancel_step}

-- A step that a run went past: it completed, or it failed and its policy is not to stop.
abbrev pub IsPassed : RunStepState → Type 0
IsPassed s =
    (s.status ≡ StepStatus.completed) ⊎ ((s.status ≡ StepStatus.failed) × (stops s ≡ false))

abbrev pub IsWaiting : RunStepState → Type 0
IsWaiting s = s.status ≡ StepStatus.pending

-- The steps before the current one are passed, it runs, and those behind it wait.
abbrev pub InProgress : ℕ → List RunStepState → Type 0
InProgress i [] = ⊥
InProgress zero (s ∷ ss) = (s.status ≡ StepStatus.running) × All IsWaiting ss
InProgress (suc i) (s ∷ ss) = IsPassed s × InProgress i ss

-- The steps before the current one are passed, it failed with the policy to stop, and those behind
-- it are skipped.
abbrev pub IsStopped : ℕ → List RunStepState → Type 0
IsStopped i [] = ⊥
IsStopped zero (s ∷ ss) =
    (s.status ≡ StepStatus.failed) × (stops s ≡ true) × All (λ t. t.status ≡ StepStatus.skipped) ss
IsStopped (suc i) (s ∷ ss) = IsPassed s × IsStopped i ss

-- No step waits or runs.
abbrev pub IsSettled : RunStepState → Type 0
IsSettled s = (s.status ≢ StepStatus.pending) × (s.status ≢ StepStatus.running)

-- What the columns `status`, `current_step` and `steps_snapshot` say together.
abbrev pub HasShape : RunStatus → ℕ → List RunStepState → Type 0
HasShape RunStatus.pending i ss = ⊥
HasShape RunStatus.running i ss = InProgress i ss
HasShape RunStatus.completed i ss = All IsPassed ss × (suc i ≡ length ss)
HasShape RunStatus.failed i ss = IsStopped i ss
HasShape RunStatus.cancelled i ss = All IsSettled ss

abbrev pub IsWellFormed : PipelineRun → Type 0
IsWellFormed r = HasShape r.status r.current_step r.steps_snapshot

module _ (now : ℕ) (message : Option String) where
  -- The last step ends, and the run with it.
  pub mark-IsPassed :
      (success : Bool) (i : ℕ) (ss : List RunStepState) (s : RunStepState)
      → InProgress i ss
      → get_elem? ss i ≡ some s
      → (not success && stops s) ≡ false
      → get_elem? (update_at i (mark success message now) ss) (i + 1) ≡ none
      → All IsPassed (update_at i (mark success message now) ss)
        × (suc i ≡ length (update_at i (mark success message now) ss))
  mark-IsPassed success i [] s h g c e = elim h [ ]
  mark-IsPassed success zero (x ∷ []) s h g c e = ground arith
  mark-IsPassed success zero (x ∷ y ∷ ss) s h g c e = ground arith
  mark-IsPassed success (suc i) (x ∷ ss) s h g c e =
      ground (arith, mark-IsPassed success i ss s h.1 g c)

  -- The current step ends, and the next begins.
  pub mark-begin-InProgress :
      (success : Bool) (i : ℕ) (ss : List RunStepState) (s t : RunStepState)
      → InProgress i ss
      → get_elem? ss i ≡ some s
      → (not success && stops s) ≡ false
      → get_elem? (update_at i (mark success message now) ss) (suc i) ≡ some t
      → InProgress
          (suc i)
          (update_at (suc i) (begin_step now) (update_at i (mark success message now) ss))
  mark-begin-InProgress success i [] s t h g c e = elim h [ ]
  mark-begin-InProgress success zero (x ∷ []) s t h g c e = ground arith
  mark-begin-InProgress success zero (x ∷ y ∷ ss) s t h g c e = ground arith
  mark-begin-InProgress success (suc i) (x ∷ ss) s t h g c e =
      (h.0, mark-begin-InProgress success i ss s t h.1 g c e)

  All-skip : (ss : List RunStepState) → All (λ t. t.status ≡ StepStatus.skipped) (map skip ss)
  All-skip [] = tt
  All-skip (s ∷ ss) = (refl, All-skip ss)

  -- The current step fails and stops the run.
  pub mark-skip-IsStopped :
      (success : Bool) (i : ℕ) (ss : List RunStepState) (s : RunStepState)
      → InProgress i ss
      → get_elem? ss i ≡ some s
      → (not success && stops s) ≡ true
      → IsStopped i (skip_from (suc i) (update_at i (mark success message now) ss))
  mark-skip-IsStopped success i [] s h g c = elim h [ ]
  mark-skip-IsStopped success zero (x ∷ ss) s h g c = (ground arith, ground arith, All-skip ss)
  mark-skip-IsStopped success (suc i) (x ∷ ss) s h g c =
      (h.0, mark-skip-IsStopped success i ss s h.1 g c)

  pub cancel-IsSettled : (ss : List RunStepState) → All IsSettled (map (cancel_step now) ss)
  cancel-IsSettled [] = tt
  cancel-IsSettled (s ∷ ss) = (ground arith, cancel-IsSettled ss)

update_at-IsWaiting :
    (f : RunStepState → RunStepState) (k : ℕ) (ss : List RunStepState)
    → ((s : RunStepState) → ((f s).status ≡ s.status) × ((f s).on_failure ≡ s.on_failure))
    → All IsWaiting ss
    → All IsWaiting (update_at k f ss)
update_at-IsWaiting f k [] keep h = tt
update_at-IsWaiting f zero (s ∷ ss) keep h = (ground (arith, keep s), h.1)
update_at-IsWaiting f (suc k) (s ∷ ss) keep h = (h.0, update_at-IsWaiting f k ss keep h.1)

-- A change that leaves the status and the policy of a step alone, such as recording its spawn.
pub update_at-InProgress :
    (f : RunStepState → RunStepState) (i k : ℕ) (ss : List RunStepState)
    → ((s : RunStepState) → ((f s).status ≡ s.status) × ((f s).on_failure ≡ s.on_failure))
    → InProgress i ss
    → InProgress i (update_at k f ss)
update_at-InProgress f i k [] keep h = h
update_at-InProgress f zero zero (s ∷ ss) keep h = ground (arith, keep s)
update_at-InProgress f zero (suc k) (s ∷ ss) keep h = (h.0, update_at-IsWaiting f k ss keep h.1)
update_at-InProgress f (suc i) zero (s ∷ ss) keep h = (ground (arith, keep s), h.1)
update_at-InProgress f (suc i) (suc k) (s ∷ ss) keep h =
    (h.0, update_at-InProgress f i k ss keep h.1)

snapshot_from-IsWaiting :
    (i now : ℕ) (templates : List Template) (steps : List PipelineStep)
    → 0 < i
    → All IsWaiting (snapshot_from i now templates steps)
unfolding snapshot_from
snapshot_from-IsWaiting i now templates [] h = tt
snapshot_from-IsWaiting i now templates (s ∷ steps) h =
    (ground arith, snapshot_from-IsWaiting (i + 1) now templates steps (omega arith))

-- The steps of a new run.
pub snapshot-InProgress :
    (now : ℕ) (templates : List Template) (first : PipelineStep) (steps : List PipelineStep)
    → InProgress 0 (snapshot_from 0 now templates (first ∷ steps))
unfolding snapshot_from
snapshot-InProgress now templates first steps =
    (refl, snapshot_from-IsWaiting (0 + 1) now templates steps (omega arith))
