-- ===== src/Pipeline/Rows.antt =====
-- The rows of `pipeline_runs`: how a run is found, before and after a change of the table.
use omni_mission_control.Prelude.{
  ℕ, ◌≡◌, sym, ap, ◌∙◌, ◌≢◌, inl, inr, ◌&&◌, some, List, [], ◌∷◌, ◌++◌, ◌==◌, arith, All,
  Bool-cases,
}
use mathlib.Core.Path.{subst}
use omni_mission_control.Pipeline.{PipelineRun, update_rows, find_run}
use omni_mission_control.Pipeline.Effect.{HasUniqueIds, find_run-All}
use omni_mission_control.Pipeline.Runs.{update_rows_absent}

-- The first row of an id is the only one.
pub find_run_unique :
    (i j w v : ℕ) (rs : List PipelineRun) (r x : PipelineRun)
    → HasUniqueIds rs
    → find_run i w rs ≡ some r
    → find_run j v rs ≡ some x
    → r.id ≡ x.id
    → r ≡ x
find_run_unique i j w v [] r x u f g e = cc
find_run_unique i j w v (y ∷ rs) r x (d, u) f g e =
    elim (Bool-cases (y.id == i && y.workspace_id == w)) [
      | inl a ↦ elim (Bool-cases (y.id == j && y.workspace_id == v)) [
        | inl b ↦ ground arith
        | inr b ↦
            let later : find_run j v rs ≡ some x = rw b at g in
            let apart : x.id ≢ y.id = find_run-All (λ z. z.id ≢ y.id) j v rs x d later in
            let same : y ≡ r = ground arith in
            absurd (apart (sym e ∙ ap (λ (z : PipelineRun). z.id) (sym same)))
      ]
      | inr a ↦
          let deep : find_run i w rs ≡ some r = rw a at f in
          elim (Bool-cases (y.id == j && y.workspace_id == v)) [
            | inl b ↦
                let apart : r.id ≢ y.id = find_run-All (λ z. z.id ≢ y.id) i w rs r d deep in
                let same : y ≡ x = ground arith in
                absurd (apart (e ∙ ap (λ (z : PipelineRun). z.id) (sym same)))
            | inr b ↦ find_run_unique i j w v rs r x u deep (rw b at g) e
          ]
    ]

pub find_run-update :
    (id w : ℕ) (f : PipelineRun → PipelineRun) (rs : List PipelineRun) (r : PipelineRun)
    → find_run id w rs ≡ some r
    → (f r).id ≡ r.id
    → (f r).workspace_id ≡ r.workspace_id
    → find_run id w (update_rows id w f rs) ≡ some (f r)
find_run-update id w f [] r h i v = cc
find_run-update id w f (x ∷ rs) r h i v = elim (Bool-cases (x.id == id && x.workspace_id == w)) [
  | inl e ↦ let same : x ≡ r = ground arith in ground arith
  | inr e ↦ rw (e, e) (find_run-update id w f rs r (rw e at h) i v)
]

-- A row of another id is found as before.
pub find_run-update_other :
    (j v id w : ℕ) (f : PipelineRun → PipelineRun) (rs : List PipelineRun) (r x : PipelineRun)
    → HasUniqueIds rs
    → find_run id w rs ≡ some r
    → (f r).id ≡ r.id
    → find_run j v rs ≡ some x
    → j ≢ id
    → find_run j v (update_rows id w f rs) ≡ some x
find_run-update_other j v id w f [] r x u h i g n = cc
find_run-update_other j v id w f (y ∷ rs) r x (d, u) h i g n =
    elim (Bool-cases (y.id == id && y.workspace_id == w)) [
      | inl e ↦
          let same : y ≡ r = ground arith in
          let here : y.id ≡ id = ground arith in
          let there : (f y).id ≡ y.id = rw same i in
          rw (e, update_rows_absent id w f rs (subst (λ k. All (λ z. z.id ≢ k) rs) here d))
            (ground arith)
      | inr e ↦ elim (Bool-cases (y.id == j && y.workspace_id == v)) [
        | inl b ↦ rw (e, b) (rw b at g)
        | inr b ↦ rw (e, b) (find_run-update_other j v id w f rs r x u (rw e at h) i (rw b at g) n)
      ]
    ]

pub find_run-append :
    (j v : ℕ) (rs : List PipelineRun) (r x : PipelineRun)
    → find_run j v rs ≡ some x
    → find_run j v (rs ++ r ∷ []) ≡ some x
find_run-append j v [] r x g = cc
find_run-append j v (y ∷ rs) r x g = ground (arith, find_run-append j v rs r x)
