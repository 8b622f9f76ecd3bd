-- ===== src/Pipeline/Effect.antt =====
-- What one request may do to the table of runs: keep it, add one run, or move one run on.
use omni_mission_control.Prelude.{
  ℕ, zero, suc, ◌+◌, ◌<◌, ◌≡◌, refl, ◌≢◌, ◌⊎◌, inl, inr, ◌&&◌, some, List, [], ◌∷◌, ◌++◌, ◌==◌,
  length, arith, All, Bool-cases, length-map,
}
use omni_mission_control.Pipeline.{
  RunStepState, RunStatus, PipelineRun, PipelineDb, update_at, update_rows, find_run,
}
use omni_mission_control.Pipeline.Advance.{skip_from, set_progress, skip}
use omni_mission_control.Pipeline.Shape.{IsWellFormed}

abbrev pub IsOver : RunStatus → Type 0
IsOver s = (s ≡ RunStatus.completed) ⊎ (s ≡ RunStatus.failed) ⊎ (s ≡ RunStatus.cancelled)

-- The run goes on to its next step, or is over; it stays the run of its pipeline and workspace.
abbrev pub Follows : PipelineRun → PipelineRun → Type 0
Follows r r' =
    (r'.id ≡ r.id)
    × (r'.workspace_id ≡ r.workspace_id)
    × (r'.pipeline_id ≡ r.pipeline_id)
    × (length r'.steps_snapshot ≡ length r.steps_snapshot)
    × ((r'.status ≡ RunStatus.running) × (r'.current_step ≡ suc r.current_step) ⊎ IsOver r'.status)

-- The row of `r`, and no other, is rewritten to a well-formed run that follows `r`.
pub data Moved (workspace : ℕ) (r : PipelineRun) (db db' : PipelineDb) : Type 0 where
  to :
      (f : PipelineRun → PipelineRun)
      → IsWellFormed (f r)
      → Follows r (f r)
      → db'.runs ≡ update_rows r.id workspace f db.runs
      → db'.next_run ≡ db.next_run
      → Moved workspace r db db'

-- What a request in a workspace does to the runs.
pub data Effect (workspace : ℕ) (db db' : PipelineDb) : Type 0 where
  kept : db'.runs ≡ db.runs → db'.next_run ≡ db.next_run → Effect workspace db db'
  added :
      (r : PipelineRun)
      → r.id ≡ db.next_run
      → r.workspace_id ≡ workspace
      → r.status ≡ RunStatus.running
      → IsWellFormed r
      → db'.runs ≡ db.runs ++ r ∷ []
      → db'.next_run ≡ db.next_run + 1
      → Effect workspace db db'
  moved :
      (r : PipelineRun)
      → find_run r.id workspace db.runs ≡ some r
      → r.status ≡ RunStatus.running
      → Moved workspace r db db'
      → Effect workspace db db'

-- No two runs share an id.
abbrev pub HasUniqueIds : List PipelineRun → Type 0
HasUniqueIds [] = Unit
HasUniqueIds (r ∷ rs) = All (λ x. x.id ≢ r.id) rs × HasUniqueIds rs

pub record IsValid (db : PipelineDb) : Type 0 where
  pub shapes : All IsWellFormed db.runs
  pub unique : HasUniqueIds db.runs
  pub below : All (λ r. r.id < db.next_run) db.runs

pub find_run-All {κ} :
    (P : PipelineRun → Type κ) (id w : ℕ) (rs : List PipelineRun) (r : PipelineRun)
    → All P rs
    → find_run id w rs ≡ some r
    → P r
find_run-All P id w [] r a h = absurd (cc)
find_run-All P id w (x ∷ rs) r (p, a) h = elim (Bool-cases (x.id == id && x.workspace_id == w)) [
  | inl e ↦ let same : x ≡ r = ground arith in rw (← same) p
  | inr e ↦ find_run-All P id w rs r a (rw e at h)
]

pub find_run-id :
    (id w : ℕ) (rs : List PipelineRun) (r : PipelineRun)
    → find_run id w rs ≡ some r
    → (r.id ≡ id) × (r.workspace_id ≡ w)
find_run-id id w [] r h = cc
find_run-id id w (x ∷ rs) r h = ground (arith, find_run-id id w rs r)

pub length-update_at :
    (i : ℕ) (f : RunStepState → RunStepState) (ss : List RunStepState)
    → length (update_at i f ss) ≡ length ss
length-update_at i f [] = refl
length-update_at zero f (s ∷ ss) = refl
length-update_at (suc i) f (s ∷ ss) = omega (arith, length-update_at i f ss)

pub length-skip_from : (i : ℕ) (ss : List RunStepState) → length (skip_from i ss) ≡ length ss
length-skip_from zero ss = length-map ss skip
length-skip_from (suc i) [] = refl
length-skip_from (suc i) (s ∷ ss) = omega (arith, length-skip_from i ss)

pub update_rows-update_rows :
    (id w next : ℕ) (ss ts : List RunStepState) (rs : List PipelineRun)
    → update_rows id w
        (set_progress next ts)
        (update_rows id w (λ r. record r { steps_snapshot = ss }) rs)
      ≡ update_rows id w (set_progress next ts) rs
update_rows-update_rows id w next ss ts [] = refl
update_rows-update_rows id w next ss ts (r ∷ rs) =
    ground (arith, update_rows-update_rows id w next ss ts rs)

-- Rows that are older than the id are left alone.
pub update_rows_new :
    (id w : ℕ) (f : PipelineRun → PipelineRun) (rs : List PipelineRun) (r : PipelineRun)
    → All (λ x. x.id < id) rs
    → r.id ≡ id
    → r.workspace_id ≡ w
    → update_rows id w f (rs ++ r ∷ []) ≡ rs ++ f r ∷ []
update_rows_new id w f [] r a e e' = ground arith
update_rows_new id w f (x ∷ rs) r (l, a) e e' = ground (arith, update_rows_new id w f rs r a e e')
