-- ===== src/Pipeline/Keys.antt =====
-- Finding a run by its key, its id and its workspace, in the table of runs.
use mathlib.Core.Path.{subst}
use omni_mission_control.Prelude.{
  ℕ, ◌≡◌, refl, sym, ap, ◌∙◌, ◌⊎◌, inl, inr, Bool, true, false, ◌&&◌, some, List, [], ◌∷◌, ◌==◌,
  ==_iff, arith, Bool-cases, if◌then◌else◌, some_inj,
}
use omni_mission_control.Pipeline.{RunStatus, PipelineRun, update_rows, find_run}
use omni_mission_control.Pipeline.Effect.{IsOver}

abbrev pub KeepsKeys : (PipelineRun → PipelineRun) → Type 0
KeepsKeys f = (r : PipelineRun) → ((f r).id ≡ r.id) × ((f r).workspace_id ≡ r.workspace_id)

abbrev pub is_key : ℕ → ℕ → ℕ → ℕ → Bool
is_key j w id k = j == id && w == k

keys_of :
    (j w : ℕ) (y : PipelineRun)
    → (y.id == j && y.workspace_id == w) ≡ true
    → (y.id ≡ j) × (y.workspace_id ≡ w)
keys_of j w y e = ground (arith, ==_iff y.id j, ==_iff y.workspace_id w)

live_over : (s : RunStatus) → (s ≡ RunStatus.running) ⊎ (s ≡ RunStatus.pending) → IsOver s → ⊥
live_over s live over = ground arith

-- The row behind a key has the key.
same_key :
    (j w id k : ℕ) (y : PipelineRun)
    → (y.id == j && y.workspace_id == w) ≡ true
    → (y.id == id && y.workspace_id == k) ≡ is_key j w id k
same_key j w id k y e =
    let (at, there) = keys_of j w y e in
    ap (λ n. n == id && y.workspace_id == k) at ∙ ap (λ n. j == id && n == k) there

if-key :
    (j w : ℕ) (b : Bool) (f : PipelineRun → PipelineRun) (y : PipelineRun)
    → KeepsKeys f
    → ((if b then f y else y).id == j && (if b then f y else y).workspace_id == w)
      ≡ (y.id == j && y.workspace_id == w)
if-key j w true f y keys =
    ap (λ n. n == j && (f y).workspace_id == w) (keys y).0
    ∙ ap (λ n. y.id == j && n == w) (keys y).1
if-key j w false f y keys = refl

pub find_run-updated :
    (j w id k : ℕ) (f : PipelineRun → PipelineRun) (rs : List PipelineRun) (x : PipelineRun)
    → KeepsKeys f
    → find_run j w rs ≡ some x
    → find_run j w (update_rows id k f rs) ≡ some (if is_key j w id k then f x else x)
find_run-updated j w id k f [] x keys h = cc
find_run-updated j w id k f (y ∷ rs) x keys h =
    elim (Bool-cases (y.id == j && y.workspace_id == w)) [
      | inl e ↦
          let same : y ≡ x = ground arith in
          rw (if-key j w (y.id == id && y.workspace_id == k) f y keys, e, same_key j w id k y e)
            (ap (λ z. some (if is_key j w id k then f z else z)) same)
      | inr e ↦
          rw (if-key j w (y.id == id && y.workspace_id == k) f y keys, e)
            (find_run-updated j w id k f rs x keys (rw e at h))
    ]

-- A row that is not over is not `x`, so that it has another id.
pub not_this :
    (j w id : ℕ) (rs : List PipelineRun) (x r : PipelineRun)
    → find_run j w rs ≡ some x
    → find_run id w rs ≡ some r
    → IsOver x.status
    → (r.status ≡ RunStatus.running) ⊎ (r.status ≡ RunStatus.pending)
    → (j == id) ≡ false
not_this j w id rs x r h found over live = elim (Bool-cases (j == id)) [
  | inr e ↦ e
  | inl e ↦
      let at : j ≡ id = ground (arith, ==_iff j id) in
      let same : x ≡ r = some_inj x r (sym h ∙ ap (λ n. find_run n w rs) at ∙ found) in
      absurd (live_over r.status live (subst (λ (z : PipelineRun). IsOver z.status) same over))
]
