-- ===== src/Pipeline/Lasts.antt =====
-- A run that is over, under requests that overlap.
use mathlib.Core.Path.{subst}
use omni_mission_control.Prelude.{
  ℕ, zero, suc, ◌<◌, ◌≡◌, refl, sym, ap, ◌∙◌, ◌⊎◌, inl, inr, true, false, Option, some, List, [],
  ◌∷◌, get_elem?, arith, All, All-append, any, Bool-cases, Option-cases, if◌then◌else◌, some_inj,
}
use omni_mission_control.Auth.{RoleCheck}
use omni_mission_control.Pipeline.{
  RunStepState, PipelineRun, PipelineDb, Spawned, SpawnResult, update_rows, find_run, printed,
  crashed, spawn_step,
}
use omni_mission_control.Pipeline.Advance.{set_progress, Action}
use omni_mission_control.Pipeline.Effect.{IsOver}
use omni_mission_control.Pipeline.Overlap.{
  Kind, starting, advancing, Call, Reply, answers, awaits, finish, resume, begin, Server, Step,
  arrives, agent_answers, replied, without, step, overlapped,
}
use omni_mission_control.Pipeline.Lasting.{is_for, NotFor, begin-Quiet, update-stays}
use omni_mission_control.Pipeline.Keys.{KeepsKeys, is_key, find_run-updated}

-- The same run, with the same end; its steps and its current step may be others.
abbrev pub Lasts : PipelineRun → PipelineRun → Type 0
Lasts x x' =
    (x'.status ≡ x.status)
    × (x'.completed_at ≡ x.completed_at)
    × (x'.started_at ≡ x.started_at)
    × (x'.pipeline_id ≡ x.pipeline_id)
    × (x'.triggered_by ≡ x.triggered_by)

abbrev IsThere : ℕ → ℕ → PipelineRun → List PipelineRun → Type 0
IsThere j w x rs = (x' : PipelineRun) × (find_run j w rs ≡ some x') × Lasts x x'

abbrev LeavesEnd : (PipelineRun → PipelineRun) → Type 0
LeavesEnd f = (r : PipelineRun) → Lasts r (f r)

Lasts-trans : (x y z : PipelineRun) → Lasts x y → Lasts y z → Lasts x z
Lasts-trans x y z (a, b, c, d, e) (a', b', c', d', e') = (a' ∙ a, b' ∙ b, c' ∙ c, d' ∙ d, e' ∙ e)

update-IsThere :
    (j w id k : ℕ) (f : PipelineRun → PipelineRun) (rs : List PipelineRun) (x : PipelineRun)
    → KeepsKeys f
    → LeavesEnd f
    → IsThere j w x rs
    → IsThere j w x (update_rows id k f rs)
update-IsThere j w id k f rs x keys leaves (y, h, l) = elim (Bool-cases (is_key j w id k)) [
  | inl e ↦ (
    f y,
    find_run-updated j w id k f rs y keys h ∙ ap (λ b. some (if b then f y else y)) e,
    Lasts-trans x y (f y) l (leaves y),
  )
  | inr e ↦
      (y, find_run-updated j w id k f rs y keys h ∙ ap (λ b. some (if b then f y else y)) e, l)
]

resumed_next :
    (answer : Spawned) (kind : Kind) (c : Call) (db : PipelineDb)
    → (resume answer (record c { kind = kind }) db).0.next_run ≡ db.next_run
unfolding resume spawn_step
resumed_next (printed stdout at) (starting p by) c db = refl
resumed_next (printed stdout at) advancing c db = refl
resumed_next (crashed message) (starting p by) c db = refl
resumed_next (crashed message) advancing c db = refl

module _ {ℓ κ} {A : Type ℓ} (P : A → Type κ) where
  All-at : (i : ℕ) (xs : List A) (x : A) → All P xs → get_elem? xs i ≡ some x → P x
  All-at i [] x a h = cc
  All-at zero (y ∷ ys) x (p, a) h = subst P (some_inj y x h) p
  All-at (suc i) (y ∷ ys) x (p, a) h = All-at i ys x a h

  All-without : (i : ℕ) (xs : List A) → All P xs → All P (without i xs)
  All-without i [] a = tt
  All-without zero (y ∷ ys) (p, a) = a
  All-without (suc i) (y ∷ ys) (p, a) = (p, All-without i ys a)

module _ (j w : ℕ) (x : PipelineRun) where
  finish-IsThere :
      (kind : Kind) (idx id k : ℕ) (ss : List RunStepState) (spawn : Option SpawnResult)
      (db : PipelineDb)
      → IsThere j w x db.runs
      → IsThere j w x (finish kind idx id k ss spawn db).0.runs
  finish-IsThere (starting p by) idx id k ss spawn db h = h
  finish-IsThere advancing idx id k ss spawn db h =
      update-IsThere j w id k (set_progress idx ss) db.runs x (λ r. (refl, refl))
        (λ r. (refl, refl, refl, refl, refl)) h

  -- The answer of an agent, whichever request waits for it.
  resume-IsThere :
      (answer : Spawned) (c : Call) (db : PipelineDb)
      → IsThere j w x db.runs
      → IsThere j w x (resume answer c db).0.runs
  unfolding resume spawn_step
  resume-IsThere (printed stdout at) c db h =
      finish-IsThere c.kind c.idx c.run_id c.workspace _ _ _ (
        update-IsThere j w c.run_id c.workspace _ db.runs x (λ r. (refl, refl))
          (λ r. (refl, refl, refl, refl, refl)) h)
  resume-IsThere (crashed message) c db h = finish-IsThere c.kind c.idx c.run_id c.workspace _ _ _ (
      update-IsThere j w c.run_id c.workspace _ db.runs x (λ r. (refl, refl))
        (λ r. (refl, refl, refl, refl, refl)) h)

  resume-next_run :
      (answer : Spawned) (c : Call) (db : PipelineDb)
      → (resume answer c db).0.next_run ≡ db.next_run
  unfolding resume spawn_step
  resume-next_run answer c db = resumed_next answer c.kind c db

  replied-db : (ws : List Call) (r : PipelineDb × Reply) → (replied ws r).db ≡ r.0
  replied-db ws (db, answers response) = refl
  replied-db ws (db, awaits c) = refl

  -- The run is there with its end, and its id is taken.
  Lasting : Server → Type 0
  Lasting s = IsThere j w x s.db.runs × (j < s.db.next_run)

  begin-Lasting :
      (c : RoleCheck) (now : ℕ) (a : Action) (db : PipelineDb)
      → IsOver x.status
      → IsThere j w x db.runs
      → j < db.next_run
      → IsThere j w x (begin c now a db).0.runs × (j < (begin c now a db).0.next_run)
  begin-Lasting c now a db over (y, h, l) below =
      let q = begin-Quiet j w y (subst IsOver (sym l.0) over) c now a db h below in
      ((y, q.found, l), omega (arith, q.grows, below))

  step-Lasting : (e : Step) (s : Server) → IsOver x.status → Lasting s → Lasting (step e s)
  unfolding step Lasting
  step-Lasting (arrives c now a) s over (h, l) =
      let (h', l') = begin-Lasting c now a s.db over h l in
      let same = sym (replied-db s.waiting (begin c now a s.db)) in
      (
        subst (λ (d : PipelineDb). IsThere j w x d.runs) same h',
        subst (λ (d : PipelineDb). j < d.next_run) same l',
      )
  step-Lasting (agent_answers i answer) s over (h, l) =
      elim (Option-cases (get_elem? s.waiting i)) [
        | inl e ↦ rw (e, step) (h, l)
        | inr (c, e) ↦
            let next = resume-next_run answer c s.db in
            rw (e, step) (resume-IsThere answer c s.db h, subst (λ n. j < n) (sym next) l)
      ]

  overlapped-Lasting :
      (es : List Step) (s : Server) → IsOver x.status → Lasting s → Lasting (overlapped es s)
  unfolding overlapped
  overlapped-Lasting [] s over h = h
  overlapped-Lasting (e ∷ es) s over h =
      overlapped-Lasting es (step e s) over (step-Lasting e s over h)

  -- The run is there as it is, and no request awaits an agent for it.
  Untouched : Server → Type 0
  Untouched s =
      (find_run j w s.db.runs ≡ some x)
      × (j < s.db.next_run)
      × All (λ c. is_for j w c ≡ false) s.waiting

  finish-stays :
      (kind : Kind) (idx id k : ℕ) (ss : List RunStepState) (spawn : Option SpawnResult)
      (db : PipelineDb)
      → IsOver x.status
      → is_key j w id k ≡ false
      → find_run j w db.runs ≡ some x
      → find_run j w (finish kind idx id k ss spawn db).0.runs ≡ some x
  finish-stays (starting p by) idx id k ss spawn db over e h = h
  finish-stays advancing idx id k ss spawn db over e h =
      update-stays j w x over id k (set_progress idx ss) db.runs (λ r. (refl, refl)) h e

  resume-stays :
      (answer : Spawned) (c : Call) (db : PipelineDb)
      → IsOver x.status
      → is_for j w c ≡ false
      → find_run j w db.runs ≡ some x
      → find_run j w (resume answer c db).0.runs ≡ some x
  unfolding resume spawn_step
  resume-stays (printed stdout at) c db over e h =
      finish-stays c.kind c.idx c.run_id c.workspace _ _ _ over e
        (update-stays j w x over c.run_id c.workspace _ db.runs (λ r. (refl, refl)) h e)
  resume-stays (crashed message) c db over e h =
      finish-stays c.kind c.idx c.run_id c.workspace _ _ _ over e
        (update-stays j w x over c.run_id c.workspace _ db.runs (λ r. (refl, refl)) h e)

  replied-Untouched :
      (ws : List Call) (r : PipelineDb × Reply)
      → All (λ c. is_for j w c ≡ false) ws
      → NotFor j w r.1
      → All (λ c. is_for j w c ≡ false) (replied ws r).waiting
  unfolding NotFor
  replied-Untouched ws (db, answers response) a n = a
  replied-Untouched ws (db, awaits c) a n =
      All-append (λ c. is_for j w c ≡ false) ws (c ∷ []) a (n, tt)

  step-Untouched : (e : Step) (s : Server) → IsOver x.status → Untouched s → Untouched (step e s)
  unfolding step Untouched
  step-Untouched (arrives c now a) s over (h, l, ws) =
      let q = begin-Quiet j w x over c now a s.db h l in
      let same = sym (replied-db s.waiting (begin c now a s.db)) in
      (
        subst (λ (d : PipelineDb). find_run j w d.runs ≡ some x) same q.found,
        subst (λ (d : PipelineDb). j < d.next_run) same (omega (arith, q.grows, l)),
        replied-Untouched s.waiting (begin c now a s.db) ws q.elsewhere,
      )
  step-Untouched (agent_answers i answer) s over (h, l, ws) =
      elim (Option-cases (get_elem? s.waiting i)) [
        | inl e ↦ rw (e, step) (h, l, ws)
        | inr (c, e) ↦
            rw (e, step)
              (
                resume-stays answer c s.db over
                    (All-at (λ c. is_for j w c ≡ false) i s.waiting c ws e) h,
                subst (λ n. j < n) (sym (resume-next_run answer c s.db)) l,
                All-without (λ c. is_for j w c ≡ false) i s.waiting ws,
              )
      ]

  overlapped-Untouched :
      (es : List Step) (s : Server) → IsOver x.status → Untouched s → Untouched (overlapped es s)
  unfolding overlapped
  overlapped-Untouched [] s over h = h
  overlapped-Untouched (e ∷ es) s over h =
      overlapped-Untouched es (step e s) over (step-Untouched e s over h)

  none_for : (ws : List Call) → any (is_for j w) ws ≡ false → All (λ c. is_for j w c ≡ false) ws
  none_for [] h = tt
  none_for (c ∷ ws) h = (ground arith, none_for ws (ground arith))

-- Whatever requests overlap, and whenever their agents answer: a run that is over, under an id that is
-- taken, is over in the same way for ever, that is with the same status, start and end, pipeline, and
-- whoever triggered it. It is not changed at all if no request waits for an agent on its behalf at
-- first; if one does, its answer may still write the steps and the current step.
pub overlapped-Lasts :
    (es : List Step) (s : Server) (j w : ℕ) (x : PipelineRun)
    → find_run j w s.db.runs ≡ some x
    → j < s.db.next_run
    → IsOver x.status
    → ((x' : PipelineRun) × (find_run j w (overlapped es s).db.runs ≡ some x') × Lasts x x')
      × ((any (is_for j w) s.waiting ≡ true) ⊎ (find_run j w (overlapped es s).db.runs ≡ some x))
unfolding Lasting Untouched
overlapped-Lasts es s j w x h l over = (
  (overlapped-Lasting j w x es s over ((x, h, (refl, refl, refl, refl, refl)), l)).0,
  elim (Bool-cases (any (is_for j w) s.waiting)) [
    | inl e ↦ inl e
    | inr e ↦ inr (overlapped-Untouched j w x es s over (h, l, none_for j w x s.waiting e)).0
  ],
)
