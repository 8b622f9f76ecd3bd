-- ===== src/Pipeline/Lasting.antt =====
-- What requests that overlap leave of a run that is over.
use mathlib.Core.Path.{subst}
use omni_mission_control.Prelude.{
  ℕ, ◌+◌, ◌<◌, ◌≤◌, ◌≡◌, refl, sym, ap, ◌∙◌, ◌⊎◌, inl, inr, Bool, false, not, ◌&&◌, Option, none,
  some, List, [], ◌∷◌, ◌++◌, String, ◌==◌, ==_iff, get_elem?, arith, Bool-cases, Option-cases,
  if◌then◌else◌, map, List-cases,
}
use omni_mission_control.Auth.{RoleCheck, granted, refused}
use omni_mission_control.Pipeline.{
  RunStepState, RunStatus, PipelineRun, Template, PipelineDb, update_rows, find_run, find_pipeline,
  find_template, update_at,
}
use omni_mission_control.Pipeline.Start.{snapshot_from, new_run}
use omni_mission_control.Pipeline.Advance.{
  mark, stops, set_progress, not_running, cancel_run, cancel_found, cancel_step, set_cancelled,
  not_cancellable, Action, start, advance, cancel, other, or_true,
}
use omni_mission_control.Pipeline.Effect.{IsOver, find_run-id}
use omni_mission_control.Pipeline.Rows.{find_run-append}
use omni_mission_control.Pipeline.Overlap.{
  starting, advancing, Call, Reply, answers, awaits, spawn_or_finish, begin_start,
  begin_advance_step, begin_advance_found, begin_advance, answered, begin,
}
use omni_mission_control.Pipeline.{Response}
use omni_mission_control.Pipeline.Moves.{not_running-cases, not_cancellable-cases}
use omni_mission_control.Pipeline.Start.{use_pipeline}
use omni_mission_control.Pipeline.Keys.{KeepsKeys, is_key, find_run-updated, not_this}

abbrev pub is_for : ℕ → ℕ → Call → Bool
is_for j w c = is_key j w c.run_id c.workspace

unfoldable pub NotFor : ℕ → ℕ → Reply → Type 0
NotFor j w (answers response) = Unit
NotFor j w (awaits c) = is_for j w c ≡ false

-- A request finds the run as it was, does not await an agent for it, and takes no id back.
pub record Quiet (j w : ℕ) (x : PipelineRun) (db : PipelineDb) (r : PipelineDb × Reply)
    : Type 0 where
  pub found : find_run j w r.0.runs ≡ some x
  pub elsewhere : NotFor j w r.1
  pub grows : db.next_run ≤ r.0.next_run

module _ (j w : ℕ) (x : PipelineRun) (over : IsOver x.status) where
  away :
      (id k : ℕ) (rs : List PipelineRun) (r : PipelineRun)
      → find_run j w rs ≡ some x
      → find_run id k rs ≡ some r
      → (r.status ≡ RunStatus.running) ⊎ (r.status ≡ RunStatus.pending)
      → is_key j w r.id k ≡ false
  away id k rs r h found live = elim (Bool-cases (w == k)) [
    | inr e ↦ ground arith
    | inl e ↦
        let at : k ≡ w = ground (arith, ==_iff w k) in
        let same : r.id ≡ id = (find_run-id id k rs r found).0 in
        let apart =
          not_this j w id rs x r h (ap (λ n. find_run id n rs) (sym at) ∙ found) over live in
        let apart' : (j == r.id) ≡ false = ap (λ n. j == n) same ∙ apart in ground arith
  ]

  pub update-stays :
      (id k : ℕ) (f : PipelineRun → PipelineRun) (rs : List PipelineRun)
      → KeepsKeys f
      → find_run j w rs ≡ some x
      → is_key j w id k ≡ false
      → find_run j w (update_rows id k f rs) ≡ some x
  update-stays id k f rs keys h e =
      find_run-updated j w id k f rs x keys h ∙ ap (λ b. some (if b then f x else x)) e

  kept-Quiet :
      (db : PipelineDb) (response : Response)
      → find_run j w db.runs ≡ some x
      → Quiet j w x db (db, answers response)
  unfolding NotFor
  kept-Quiet db response h = record { found = h; elsewhere = tt; grows = omega arith }

  started-Quiet :
      (id : ℕ) (by name : String) (o : Option Template) (ss : List RunStepState) (k : ℕ)
      (db db' : PipelineDb)
      → find_run j w db'.runs ≡ some x
      → j < db.next_run
      → db'.next_run ≡ db.next_run + 1
      → Quiet j w x db (spawn_or_finish (starting id by) name o ss 0 db.next_run k db')
  unfolding NotFor
  started-Quiet id by name none ss k db db' h l g = record {
    found = h;
    elsewhere = tt;
    grows = omega arith;
  }
  started-Quiet id by name (some t) ss k db db' h l g = record {
    found = h;
    elsewhere = ground (arith, ==_iff j db.next_run);
    grows = omega arith;
  }

  moved-Quiet :
      (name : String) (o : Option Template) (ss : List RunStepState) (next id k : ℕ)
      (db : PipelineDb)
      → find_run j w db.runs ≡ some x
      → is_key j w id k ≡ false
      → Quiet j w x db (spawn_or_finish advancing name o ss next id k db)
  unfolding NotFor
  moved-Quiet name none ss next id k db h e = record {
    found = update-stays id k (set_progress next ss) db.runs (λ r. (refl, refl)) h e;
    elsewhere = tt;
    grows = omega arith;
  }
  moved-Quiet name (some t) ss next id k db h e = record {
    found = h;
    elsewhere = e;
    grows = omega arith;
  }

  set_run-Quiet :
      (id k : ℕ) (f : PipelineRun → PipelineRun) (db db' : PipelineDb) (response : Response)
      → KeepsKeys f
      → find_run j w db.runs ≡ some x
      → is_key j w id k ≡ false
      → db'.runs ≡ update_rows id k f db.runs
      → db'.next_run ≡ db.next_run
      → Quiet j w x db (db', answers response)
  unfolding NotFor
  set_run-Quiet id k f db db' response keys h e same next = record {
    found =
        subst (λ rs. find_run j w rs ≡ some x) (sym same) (update-stays id k f db.runs keys h e);
    elsewhere = tt;
    grows = omega arith;
  }

  begin_start-Quiet :
      (now id : ℕ) (by : String) (k : ℕ) (db : PipelineDb)
      → find_run j w db.runs ≡ some x
      → j < db.next_run
      → Quiet j w x db (begin_start now id by k db)
  unfolding begin_start
  begin_start-Quiet now id by k db h l = elim (Option-cases (find_pipeline id k db.pipelines)) [
    | inl e ↦ rw (e, begin_start) (kept-Quiet db _ h)
    | inr (p, e) ↦ elim (List-cases p.steps) [
      | inl none_there ↦ rw (e, none_there, begin_start) (kept-Quiet db _ h)
      | inr (first, rest, there) ↦
          let ss = snapshot_from 0 now db.templates (first ∷ rest) in
          let fresh = new_run db.next_run p.id now ss by k in
          let inserted : PipelineDb = record db {
            runs = db.runs ++ fresh ∷ [];
            next_run = db.next_run + 1;
            pipelines = use_pipeline p.id k now db.pipelines;
          } in
          rw (e, there, begin_start)
            (started-Quiet p.id by p.name (find_template first.template_id db.templates) ss k db
              inserted (find_run-append j w db.runs fresh x h) l refl)
    ]
  ]

  begin_advance_step-Quiet :
      (now : ℕ) (success : Bool) (message : Option String) (k : ℕ) (r : PipelineRun)
      (current : RunStepState) (db : PipelineDb)
      → find_run j w db.runs ≡ some x
      → is_key j w r.id k ≡ false
      → Quiet j w x db (begin_advance_step now success message k r current db)
  unfolding begin_advance_step
  begin_advance_step-Quiet now success message k r current db h e =
      elim (Bool-cases (not success && stops current)) [
        | inl b ↦
            rw (b, begin_advance_step)
              (set_run-Quiet r.id k _ db _ _ (λ y. (refl, refl)) h e refl refl)
        | inr b ↦
            elim (Option-cases (
              get_elem? (update_at r.current_step (mark success message now) r.steps_snapshot)
                (r.current_step + 1))) [
                  | inl last ↦
                      rw (b, last, begin_advance_step)
                        (set_run-Quiet r.id k _ db _ _ (λ y. (refl, refl)) h e refl refl)
                  | inr (upcoming, more) ↦
                      rw (b, more, begin_advance_step) (moved-Quiet _ _ _ _ r.id k db h e)
                ]
      ]

  begin_advance_found-Quiet :
      (now : ℕ) (success : Bool) (message : Option String) (id k : ℕ) (r : PipelineRun)
      (db : PipelineDb)
      → find_run j w db.runs ≡ some x
      → find_run id k db.runs ≡ some r
      → Quiet j w x db (begin_advance_found now success message k r db)
  begin_advance_found-Quiet now success message id k r db h found =
      elim (not_running-cases r.status) [
        | inr (text, e) ↦ rw (e, begin_advance_found) (kept-Quiet db _ h)
        | inl e ↦
            let live : not_running r.status ≡ none = ap not_running e in
            elim (Option-cases (get_elem? r.steps_snapshot r.current_step)) [
              | inl lost ↦ rw (live, lost, begin_advance_found) (kept-Quiet db _ h)
              | inr (current, at) ↦
                  rw (live, at, begin_advance_found)
                    (begin_advance_step-Quiet now success message k r current db h
                      (away id k db.runs r h found (inl e)))
            ]
      ]

  begin_advance-Quiet :
      (now : ℕ) (id : Option ℕ) (success : Bool) (message : Option String) (k : ℕ) (db : PipelineDb)
      → find_run j w db.runs ≡ some x
      → Quiet j w x db (begin_advance now id success message k db)
  unfolding begin_advance
  begin_advance-Quiet now none success message k db h = kept-Quiet db _ h
  begin_advance-Quiet now (some id) success message k db h = elim (Bool-cases (id == 0)) [
    | inl e ↦ rw (e, begin_advance) (kept-Quiet db _ h)
    | inr e ↦ elim (Option-cases (find_run id k db.runs)) [
      | inl lost ↦ rw (e, lost, begin_advance) (kept-Quiet db _ h)
      | inr (r, found) ↦
          rw (e, found, begin_advance)
            (begin_advance_found-Quiet now success message id k r db h found)
    ]
  ]

  cancel_found-Quiet :
      (now id k : ℕ) (r : PipelineRun) (db : PipelineDb)
      → find_run j w db.runs ≡ some x
      → find_run id k db.runs ≡ some r
      → Quiet j w x db (answered (cancel_found now k r db))
  cancel_found-Quiet now id k r db h found =
      let moved =
        λ (live : not_cancellable r.status ≡ none)
            (e : (r.status ≡ RunStatus.running) ⊎ (r.status ≡ RunStatus.pending)).
          set_run-Quiet r.id k (set_cancelled (map (cancel_step now) r.steps_snapshot) now) db
            (cancel_found now k r db).0 (cancel_found now k r db).1 (λ y. (refl, refl)) h
            (away id k db.runs r h found e) (rw (live, cancel_found) refl)
            (rw (live, cancel_found) refl) in
      elim (not_cancellable-cases r.status) [
        | inl e ↦ moved (ap not_cancellable e) (inl e)
        | inr (inl e) ↦ moved (ap not_cancellable e) (inr e)
        | inr (inr (text, e)) ↦ rw (e, cancel_found) (kept-Quiet db _ h)
      ]

  cancel_run-Quiet :
      (now : ℕ) (id : Option ℕ) (k : ℕ) (db : PipelineDb)
      → find_run j w db.runs ≡ some x
      → Quiet j w x db (answered (cancel_run now id k db))
  unfolding cancel_run
  cancel_run-Quiet now none k db h = kept-Quiet db _ h
  cancel_run-Quiet now (some id) k db h = elim (Bool-cases (id == 0)) [
    | inl e ↦ rw (e, cancel_run) (kept-Quiet db _ h)
    | inr e ↦ elim (Option-cases (find_run id k db.runs)) [
      | inl lost ↦ rw (e, lost, cancel_run) (kept-Quiet db _ h)
      | inr (r, found) ↦ rw (e, found, cancel_run) (cancel_found-Quiet now id k r db h found)
    ]
  ]

  pub begin-Quiet :
      (c : RoleCheck) (now : ℕ) (a : Action) (db : PipelineDb)
      → find_run j w db.runs ≡ some x
      → j < db.next_run
      → Quiet j w x db (begin c now a db)
  unfolding begin
  begin-Quiet (refused message status) now a db h l = kept-Quiet db _ h
  begin-Quiet (granted u) now (start id) db h l = begin_start-Quiet now id _ u.workspace_id db h l
  begin-Quiet (granted u) now (advance id success message) db h l =
      begin_advance-Quiet now id (or_true success) message u.workspace_id db h
  begin-Quiet (granted u) now (cancel id) db h l = cancel_run-Quiet now id u.workspace_id db h
  begin-Quiet (granted u) now other db h l = kept-Quiet db _ h
