-- ===== src/Pipeline/Ending.antt =====
-- A run ends, and stays as it ended, where requests do not overlap.
use omni_mission_control.Prelude.{
  ℕ, zero, suc, ◌+◌, ◌<◌, ◌≤◌, ◌≡◌, refl, sym, ap, ◌∙◌, ◌≢◌, ◌⊎◌, inl, inr, Bool, false, Option,
  none, some, List, [], ◌∷◌, String, ◌==◌, get_elem?, length, arith, All,
}
use mathlib.Core.Path.{subst}
use omni_mission_control.Auth.{RoleCheck, granted, refused, User}
use omni_mission_control.Pipeline.{
  RunStepState, RunStatus, PipelineRun, PipelineDb, Agent, update_rows, find_run,
}
use omni_mission_control.Pipeline.Advance.{
  Action, post, advance_run, not_running, advance_found, caught, or_true,
}
use omni_mission_control.Pipeline.Shape.{IsWellFormed, InProgress}
use omni_mission_control.Pipeline.Effect.{
  IsOver, Follows, Effect, kept, added, moved, IsValid, find_run-All, find_run-id, Moved, to,
}
use omni_mission_control.Pipeline.History.{post-Effect}
use omni_mission_control.Pipeline.Runs.{Request, serve, post-IsValid}
use omni_mission_control.Pipeline.Moves.{shape_at, advance_step-Moved}
use omni_mission_control.Pipeline.Rows.{
  find_run_unique, find_run-update, find_run-update_other, find_run-append,
}

not-running_of_IsOver : (s : RunStatus) → IsOver s → s ≢ RunStatus.running
not-running_of_IsOver s o e = ground arith

-- A run that is not the one moved is found as before.
Effect-stays :
    {k : ℕ} {db db' : PipelineDb} (j w : ℕ) (x : PipelineRun)
    → Effect k db db'
    → IsValid db
    → find_run j w db.runs ≡ some x
    → IsOver x.status ⊎ (w ≢ k)
    → find_run j w db'.runs ≡ some x
Effect-stays j w x (kept e n) v g o = rw e g
Effect-stays {k} {db} j w x (added r i ws s h e n) v g o = rw e (find_run-append j w db.runs r x g)
Effect-stays {k} {db} j w x (moved r found s (to f h (i, ws, p, l, go) e n)) v g o =
    let at_r : r.workspace_id ≡ k = (find_run-id r.id k db.runs r found).1 in
    let at_x : (x.id ≡ j) × (x.workspace_id ≡ w) = find_run-id j w db.runs x g in
    let apart : j ≢ r.id = λ q.
      let same : r ≡ x =
        find_run_unique r.id j k w db.runs r x v.unique found g (sym q ∙ sym at_x.0) in
      elim o [
        | inl over ↦
            not-running_of_IsOver x.status over (ap (λ (z : PipelineRun). z.status) (sym same) ∙ s)
        | inr foreign ↦
            foreign (sym at_x.1 ∙ ap (λ (z : PipelineRun). z.workspace_id) (sym same) ∙ at_r)
      ] in
    rw e (find_run-update_other j w r.id k f db.runs r x v.unique found i g apart)

post-stays :
    (c : RoleCheck) (agent : Agent) (now : ℕ) (a : Action) (db : PipelineDb) (j w : ℕ)
    (x : PipelineRun)
    → IsValid db
    → find_run j w db.runs ≡ some x
    → IsOver x.status
    → find_run j w (post c agent now a db).0.runs ≡ some x
post-stays (refused message status) agent now a db j w x v g o = unfold post in g
post-stays (granted u) agent now a db j w x v g o =
    Effect-stays j w x (post-Effect u agent now a db v) v g (inl o)

-- Where requests do not overlap, a run that is over is never changed again.
pub serve-IsOver_stays :
    (qs : List Request) (db : PipelineDb) (j w : ℕ) (x : PipelineRun)
    → IsValid db
    → find_run j w db.runs ≡ some x
    → IsOver x.status
    → find_run j w (serve qs db).runs ≡ some x
unfolding serve
serve-IsOver_stays [] db j w x v g o = g
serve-IsOver_stays (q ∷ qs) db j w x v g o =
    serve-IsOver_stays qs (post q.auth q.agent q.now q.action db).0 j w x
      (post-IsValid q.auth q.agent q.now q.action db v)
      (post-stays q.auth q.agent q.now q.action db j w x v g o) o

-- In a valid table: a request of a user leaves the runs of other workspaces as they are.
pub post-isolation :
    (u : User) (agent : Agent) (now : ℕ) (a : Action) (db : PipelineDb) (j w : ℕ) (x : PipelineRun)
    → IsValid db
    → find_run j w db.runs ≡ some x
    → w ≢ u.workspace_id
    → find_run j w (post (granted u) agent now a db).0.runs ≡ some x
post-isolation u agent now a db j w x v g o =
    Effect-stays j w x (post-Effect u agent now a db v) v g (inr o)

InProgress-lt : (i : ℕ) (ss : List RunStepState) → InProgress i ss → i < length ss
InProgress-lt i [] h = elim h [ ]
InProgress-lt zero (s ∷ ss) h = omega arith
InProgress-lt (suc i) (s ∷ ss) h = omega (arith, InProgress-lt i ss h.1)

InProgress-get :
    (i : ℕ) (ss : List RunStepState)
    → InProgress i ss
    → (s : RunStepState) × (get_elem? ss i ≡ some s)
InProgress-get i [] h = elim h [ ]
InProgress-get zero (s ∷ ss) h = (s, refl)
InProgress-get (suc i) (s ∷ ss) h = InProgress-get i ss h.1

advance_run-Moved :
    (agent : Agent) (now id : ℕ) (success : Bool) (message : Option String) (w : ℕ)
    (db : PipelineDb) (r : PipelineRun)
    → find_run id w db.runs ≡ some r
    → id ≢ 0
    → r.status ≡ RunStatus.running
    → IsWellFormed r
    → Moved w r db (caught db (advance_run agent now (some id) success message w db)).0
unfolding advance_run
advance_run-Moved agent now id success message w db r found n s h =
    let (current, at) =
      InProgress-get r.current_step r.steps_snapshot (shape_at r RunStatus.running s h) in
    let nonzero : (id == 0) ≡ false = ground arith in
    let live : not_running r.status ≡ none = ap not_running s in
    rw (nonzero, found, caught)
      (rw (live, at, advance_found)
        (advance_step-Moved agent now success message w r current db s
          (shape_at r RunStatus.running s h) at))

-- A request of a user of the workspace to advance the run.
abbrev pub IsAdvance : ℕ → ℕ → Request → Type 0
IsAdvance id w q =
    (u : User) × (success : Option Bool) × (message : Option String) × (q.auth ≡ granted u)
    × (u.workspace_id ≡ w)
    × (q.action ≡ Action.advance (some id) success message)

Moved-find :
    {db db' : PipelineDb} (id w : ℕ) (r : PipelineRun)
    → Moved w r db db'
    → find_run id w db.runs ≡ some r
    → (r' : PipelineRun) × (find_run id w db'.runs ≡ some r') × Follows r r'
Moved-find {db} id w r (to f h follows e n) found =
    let same : r.id ≡ id = (find_run-id id w db.runs r found).0 in
    let there : find_run id w (update_rows r.id w f db.runs) ≡ some (f r) =
      subst (λ k. find_run id w (update_rows k w f db.runs) ≡ some (f r)) (sym same)
        (find_run-update id w f db.runs r found follows.0 follows.1) in
    (f r, rw e there, follows)

advance-Follows :
    (q : Request) (id w : ℕ) (db : PipelineDb) (r : PipelineRun)
    → IsAdvance id w q
    → IsValid db
    → find_run id w db.runs ≡ some r
    → id ≢ 0
    → r.status ≡ RunStatus.running
    → (r' : PipelineRun) × (find_run id w (post q.auth q.agent q.now q.action db).0.runs ≡ some r')
      × Follows r r'
unfolding post
advance-Follows q id w db r (u, success, message, auth, at, action) v found n s =
    let shape : IsWellFormed r = find_run-All IsWellFormed id w db.runs r v.shapes found in
    rw (auth, action, at)
      (Moved-find id w r
        (advance_run-Moved q.agent q.now id (or_true success) message w db r found n s shape) found)

-- A run that is advanced as often as it has steps left is over.
pub serve-advance_ends :
    (qs : List Request) (id w : ℕ) (db : PipelineDb) (r : PipelineRun)
    → IsValid db
    → find_run id w db.runs ≡ some r
    → id ≢ 0
    → r.status ≡ RunStatus.running
    → All (IsAdvance id w) qs
    → length r.steps_snapshot ≤ r.current_step + length qs
    → (r' : PipelineRun) × (find_run id w (serve qs db).runs ≡ some r') × IsOver r'.status
unfolding serve
serve-advance_ends [] id w db r v found n s a l =
    let shape : IsWellFormed r = find_run-All IsWellFormed id w db.runs r v.shapes found in
    absurd (
      omega (
        arith,
        InProgress-lt r.current_step r.steps_snapshot (shape_at r RunStatus.running s shape),
      ))
serve-advance_ends (q ∷ qs) id w db r v found n s (a, later) l =
    let db' : PipelineDb = (post q.auth q.agent q.now q.action db).0 in
    let v' : IsValid db' = post-IsValid q.auth q.agent q.now q.action db v in
    let (r', found', (i, ws, p, size, go)) = advance-Follows q id w db r a v found n s in
    elim go [
      | inl (s', next) ↦ serve-advance_ends qs id w db' r' v' found' n s' later (omega arith)
      | inr over ↦ (r', serve-IsOver_stays qs db' id w r' v' found' over, over)
    ]
