-- ===== src/Tasks/Transaction.antt =====
-- The transaction of the PUT handler for several tasks, against a description of it row by row.
use omni_mission_control.Prelude.{
  ℕ, ◌≡◌, ◌⊎◌, refl, sym, ap, ◌∙◌, inl, inr, Bool, not, ◌&&◌, none, some, List, [], ◌∷◌, map, find?,
  length, if◌then◌else◌, is_some, arith, Bool-cases, Option-cases, find?-ext, map-map,
}
use omni_mission_control.Auth.{granted, User}
use omni_mission_control.Tasks.{
  is_done, Task, Review, TaskDb, Event, Newest, is_task, find_task, update_tasks,
  has_aegis_approval, aegis_required, updated,
}
use omni_mission_control.Tasks.Bulk.{Move, set_status, log_move, move_row, move_all, put_tasks}
use omni_mission_control.Tasks.Core.{core, core-log_move}

-- A move to 'done' of a task that is there and not approved.
abbrev pub is_refused : Newest → ℕ → TaskDb → Move → Bool
is_refused order w db m =
    is_some (find_task m.id w db.tasks)
    && is_done m.status
    && not (has_aegis_approval order m.id w db)

-- What a move does to a row.
abbrev pub move_one : ℕ → ℕ → Move → Task → Task
move_one w now m t = if is_task m.id w t then set_status m.status now t else t

-- What the moves do to a row, one after the other.
abbrev pub move_each : ℕ → ℕ → List Move → Task → Task
move_each w now [] t = t
move_each w now (m ∷ ms) t = move_each w now ms (move_one w now m t)

has_aegis_approval-core :
    (order : Newest) (id w : ℕ) (db db' : TaskDb)
    → db'.reviews ≡ db.reviews
    → has_aegis_approval order id w db' ≡ has_aegis_approval order id w db
unfolding has_aegis_approval
has_aegis_approval-core order id w db db' e = rw e refl

is_some-find_task :
    (id w j v now : ℕ) (m : Move) (ts : List Task)
    → is_some (find_task id w (update_tasks j v (set_status m.status now) ts))
      ≡ is_some (find_task id w ts)
is_some-find_task id w j v now m [] = refl
is_some-find_task id w j v now m (t ∷ ts) = ground (arith, is_some-find_task id w j v now m ts)

is_refused-move :
    (order : Newest) (u : User) (now : ℕ) (m : Move) (t : Task) (db : TaskDb) (x : Move)
    → is_refused order u.workspace_id (log_move u now m t (move_row u now m db)) x
      ≡ is_refused order u.workspace_id db x
is_refused-move order u now m t db x =
    let w : ℕ = u.workspace_id in
    let db' : TaskDb = log_move u now m t (move_row u now m db) in
    let same : core db' ≡ core (move_row u now m db) =
      core-log_move u now m t (move_row u now m db) in
    let there : is_some (find_task x.id w db'.tasks) ≡ is_some (find_task x.id w db.tasks) =
      ap (λ (c : List Task × List Review × ℕ). is_some (find_task x.id w c.0)) same
      ∙ is_some-find_task x.id w m.id w now m db.tasks in
    let granted_too : has_aegis_approval order x.id w db' ≡ has_aegis_approval order x.id w db =
      has_aegis_approval-core order x.id w db db'
        (ap (λ (c : List Task × List Review × ℕ). c.1) same) in
    ap (λ p. p && is_done x.status && not (has_aegis_approval order x.id w db')) there
    ∙ ap (λ p. is_some (find_task x.id w db.tasks) && is_done x.status && not p) granted_too

map-same : (w now : ℕ) (ts : List Task) → map (move_each w now []) ts ≡ ts
map-same w now [] = refl
map-same w now (t ∷ ts) = ap (λ xs. t ∷ xs) (map-same w now ts)

absent :
    (w now : ℕ) (m : Move) (ts : List Task)
    → find_task m.id w ts ≡ none
    → map (move_one w now m) ts ≡ ts
absent w now m [] e = refl
absent w now m (t ∷ ts) e = ground (arith, absent w now m ts)

move_all_lem :
    (order : Newest) (u : User) (now : ℕ) (ms : List Move) (db : TaskDb)
    → ((m : Move)
        → find? (is_refused order u.workspace_id db) ms ≡ some m
        → (move_all order u now ms db).1 ≡ some m.id)
      × (find? (is_refused order u.workspace_id db) ms ≡ none
          → ((move_all order u now ms db).1 ≡ none)
            × (core (move_all order u now ms db).0
                ≡ (map (move_each u.workspace_id now ms) db.tasks, db.reviews, db.next_task)))
unfolding move_all
move_all_lem order u now [] db = (
  λ m e. cc,
  λ e. (
    refl,
    ap (λ (ts : List Task). (ts, db.reviews, db.next_task))
        (sym (map-same u.workspace_id now db.tasks)),
  ),
)
move_all_lem order u now (m ∷ ms) db =
    let w : ℕ = u.workspace_id in
    let steps : map (move_each w now (m ∷ ms)) db.tasks
        ≡ map (move_each w now ms) (map (move_one w now m) db.tasks) =
      sym (map-map (move_each w now ms) (move_one w now m) db.tasks) in
    elim (Option-cases (find_task m.id w db.tasks)) [
      | inl e ↦
          let ih = move_all_lem order u now ms db in
          rw (e, move_all)
            (
              ih.0,
              λ h. (
                (ih.1 h).0,
                (ih.1 h).1
                    ∙ ap
                        (λ (ts : List Task).
                          (map (move_each w now ms) ts, db.reviews, db.next_task))
                        (sym (absent w now m db.tasks e))
                    ∙ ap (λ (ts : List Task). (ts, db.reviews, db.next_task)) (sym steps),
              ),
            )
      | inr (t, e) ↦
          elim (Bool-cases (is_done m.status && not (has_aegis_approval order m.id w db))) [
            | inl g ↦ rw (e, g, move_all) (λ x h. cc, λ h. absurd (cc))
            | inr g ↦
                let db' : TaskDb = log_move u now m t (move_row u now m db) in
                let ih = move_all_lem order u now ms db' in
                let same : find? (is_refused order w db') ms ≡ find? (is_refused order w db) ms =
                  find?-ext (is_refused order w db') (is_refused order w db) ms
                    (is_refused-move order u now m t db) in
                rw (e, g, move_all)
                  (
                    λ x h. ih.0 x (same ∙ h),
                    λ h. (
                      (ih.1 (same ∙ h)).0,
                      (ih.1 (same ∙ h)).1
                          ∙ ap
                              (λ (c : List Task × List Review × ℕ).
                                (map (move_each w now ms) c.0, c.1, c.2))
                              (core-log_move u now m t (move_row u now m db))
                          ∙ ap (λ (ts : List Task). (ts, db.reviews, db.next_task)) (sym steps),
                    ),
                  )
          ]
    ]

-- The answer in each of the two cases.
put_tasks_cases :
    (order : Newest) (u : User) (now sent : ℕ) (ms : List Move) (db : TaskDb)
    → ((m : Move)
        → find? (is_refused order u.workspace_id db) ms ≡ some m
        → ((put_tasks order (granted u) now sent ms db).1 ≡ aegis_required m.id)
          × ((es : List Event) × ((put_tasks order (granted u) now sent ms db).0
                ≡ record db { events = es })))
      × (find? (is_refused order u.workspace_id db) ms ≡ none
          → ((put_tasks order (granted u) now sent ms db).1 ≡ updated (length ms))
            × (core (put_tasks order (granted u) now sent ms db).0
                ≡ (map (move_each u.workspace_id now ms) db.tasks, db.reviews, db.next_task)))
unfolding put_tasks
put_tasks_cases order u now sent ms db =
    let (after, thrown) = move_all order u now ms db in
    let (some_refused, none_refused) = move_all_lem order u now ms db in
    (
      λ m h. rw (some_refused m h, put_tasks) (refl, (after.events, refl)),
      λ h. rw ((none_refused h).0, put_tasks) (refl, (none_refused h).1),
    )

-- All or nothing: if some move would make a task of the workspace done that is not approved, the answer
-- names the first one and every table is as before; otherwise every row gets the statuses that the
-- moves give it in order, and no review and no other column but `updated_at` changes.
pub put_tasks_lem :
    (order : Newest) (u : User) (now sent : ℕ) (ms : List Move) (db : TaskDb)
    → ((m : Move) × (find? (is_refused order u.workspace_id db) ms ≡ some m)
        × ((put_tasks order (granted u) now sent ms db).1 ≡ aegis_required m.id)
        × ((es : List Event) × ((put_tasks order (granted u) now sent ms db).0
              ≡ record db { events = es })))
      ⊎ (find? (is_refused order u.workspace_id db) ms ≡ none)
        × ((put_tasks order (granted u) now sent ms db).1 ≡ updated (length ms))
        × (core (put_tasks order (granted u) now sent ms db).0
            ≡ (map (move_each u.workspace_id now ms) db.tasks, db.reviews, db.next_task))
put_tasks_lem order u now sent ms db =
    let (some_refused, none_refused) = put_tasks_cases order u now sent ms db in
    elim (Option-cases (find? (is_refused order u.workspace_id db) ms)) [
      | inl e ↦ inr (e, (none_refused e).0, (none_refused e).1)
      | inr (m, e) ↦ inl (m, e, (some_refused m e).0, (some_refused m e).1)
    ]
