-- ===== src/Pipeline/Runs.antt =====
-- What holds of the table of runs after a sequence of requests, each served to its end before the next.
use omni_mission_control.Prelude.{
  ℕ, ◌+◌, ◌<◌, ◌≡◌, refl, ◌≢◌, inl, inr, ◌&&◌, some, List, [], ◌∷◌, ◌++◌, ◌==◌, arith, All,
  All-append, Bool-cases,
}
use mathlib.Core.Path.{subst}
use omni_mission_control.Auth.{RoleCheck, granted, refused}
use omni_mission_control.Pipeline.{PipelineRun, PipelineDb, Agent, update_rows, find_run}
use omni_mission_control.Pipeline.Advance.{Action, post}
use omni_mission_control.Pipeline.Shape.{IsWellFormed}
use omni_mission_control.Pipeline.Effect.{
  Effect, kept, added, moved, IsValid, HasUniqueIds, find_run-All, to,
}
use omni_mission_control.Pipeline.History.{post-Effect}

pub update_rows_absent :
    (id w : ℕ) (f : PipelineRun → PipelineRun) (rs : List PipelineRun)
    → All (λ x. x.id ≢ id) rs
    → update_rows id w f rs ≡ rs
update_rows_absent id w f [] a = refl
update_rows_absent id w f (x ∷ rs) (d, a) = ground (arith, update_rows_absent id w f rs a)

module _ {κ} (P : PipelineRun → Type κ) (id w : ℕ) (f : PipelineRun → PipelineRun) where
  -- The rows that an update does not meet keep what holds of them, and the one that it meets gets it.
  update_rows-All :
      (rs : List PipelineRun) (r : PipelineRun)
      → HasUniqueIds rs
      → find_run id w rs ≡ some r
      → All P rs
      → P (f r)
      → All P (update_rows id w f rs)
  update_rows-All [] r u h a p = tt
  update_rows-All (x ∷ rs) r (d, u) h (q, a) p =
      elim (Bool-cases (x.id == id && x.workspace_id == w)) [
        | inl e ↦
            let same : x ≡ r = ground arith in
            let here : x.id ≡ id = ground arith in
            rw (e, update_rows_absent id w f rs (subst (λ k. All (λ y. y.id ≢ k) rs) here d))
              (rw same p, a)
        | inr e ↦ rw e (q, update_rows-All rs r u (rw e at h) a p)
      ]

update_rows-HasUniqueIds :
    (id w : ℕ) (f : PipelineRun → PipelineRun) (rs : List PipelineRun) (r : PipelineRun)
    → HasUniqueIds rs
    → find_run id w rs ≡ some r
    → (f r).id ≡ r.id
    → HasUniqueIds (update_rows id w f rs)
update_rows-HasUniqueIds id w f [] r u h k = tt
update_rows-HasUniqueIds id w f (x ∷ rs) r (d, u) h k =
    elim (Bool-cases (x.id == id && x.workspace_id == w)) [
      | inl e ↦
          let same : x ≡ r = ground arith in
          let here : x.id ≡ id = ground arith in
          let there : (f x).id ≡ x.id = rw same k in
          rw (e, update_rows_absent id w f rs (subst (λ i. All (λ y. y.id ≢ i) rs) here d), there)
            (d, u)
      | inr e ↦
          let later : find_run id w rs ≡ some r = rw e at h in
          let apart : r.id ≢ x.id = find_run-All (λ y. y.id ≢ x.id) id w rs r d later in
          rw e (
            update_rows-All (λ y. y.id ≢ x.id) id w f rs r u later d (rw k apart),
            update_rows-HasUniqueIds id w f rs r u later k,
          )
    ]

HasUniqueIds-append :
    (rs : List PipelineRun) (r : PipelineRun) (n : ℕ)
    → HasUniqueIds rs
    → All (λ x. x.id < n) rs
    → r.id ≡ n
    → HasUniqueIds (rs ++ r ∷ [])
HasUniqueIds-append [] r n u b e = (tt, tt)
HasUniqueIds-append (x ∷ rs) r n (d, u) (l, b) e = (
  All-append (λ y. y.id ≢ x.id) rs (r ∷ []) d ((λ q. omega arith), tt),
  HasUniqueIds-append rs r n u b e,
)

below-suc : (n : ℕ) (rs : List PipelineRun) → All (λ x. x.id < n) rs → All (λ x. x.id < n + 1) rs
below-suc n [] b = tt
below-suc n (x ∷ rs) (l, b) = (omega arith, below-suc n rs b)

pub Effect-IsValid : {w : ℕ} {db db' : PipelineDb} → Effect w db db' → IsValid db → IsValid db'
Effect-IsValid (kept e n) v = record {
  shapes = rw e v.shapes;
  unique = rw e v.unique;
  below = rw (e, n) v.below;
}
Effect-IsValid {db} (added r i ws s h e n) v = record {
  shapes = rw e (All-append IsWellFormed db.runs (r ∷ []) v.shapes (h, tt));
  unique = rw e (HasUniqueIds-append db.runs r db.next_run v.unique v.below i);
  below =
      rw (e, n)
        (All-append (λ x. x.id < db.next_run + 1) db.runs (r ∷ [])
          (below-suc db.next_run db.runs v.below) (omega arith, tt));
}
Effect-IsValid {w} {db} (moved r found s (to f h (i, ws, p, l, go) e n)) v = record {
  shapes = rw e (update_rows-All IsWellFormed r.id w f db.runs r v.unique found v.shapes h);
  unique = rw e (update_rows-HasUniqueIds r.id w f db.runs r v.unique found i);
  below =
      rw (e, n)
        (update_rows-All (λ x. x.id < db.next_run) r.id w f db.runs r v.unique found v.below
          (rw i (find_run-All (λ x. x.id < db.next_run) r.id w db.runs r v.below found)));
}

-- A request as the handler sees it: its authorisation, the agent's answers, the time and the body.
pub record Request : Type 0 where
  pub auth : RoleCheck
  pub agent : Agent
  pub now : ℕ
  pub action : Action

pub post-IsValid :
    (c : RoleCheck) (agent : Agent) (now : ℕ) (a : Action) (db : PipelineDb)
    → IsValid db
    → IsValid (post c agent now a db).0
post-IsValid (refused message status) agent now a db v = unfold post in v
post-IsValid (granted u) agent now a db v = Effect-IsValid (post-Effect u agent now a db v) v

-- The table after requests that do not overlap.
unfoldable pub serve : List Request → PipelineDb → PipelineDb
serve [] db = db
serve (q ∷ qs) db = serve qs (post q.auth q.agent q.now q.action db).0

-- Requests that do not overlap keep the shape of each run.
pub serve-IsValid : (qs : List Request) (db : PipelineDb) → IsValid db → IsValid (serve qs db)
unfolding serve
serve-IsValid [] db v = v
serve-IsValid (q ∷ qs) db v =
    serve-IsValid qs (post q.auth q.agent q.now q.action db).0
      (post-IsValid q.auth q.agent q.now q.action db v)
