-- ===== src/Scheduler/Overlap.antt =====
-- Ticks of src/lib/scheduler.ts side by side: the timer starts the next tick while an earlier one still
-- awaits a run. A tick is a walk over the table, and its steps are those between two awaits.
use mathlib.Core.Path.{subst}
use omni_mission_control.Prelude.{
  ℕ, ◌+◌, ◌≤◌, ◌≡◌, refl, ap, ◌∙◌, Bool, true, false, Option, none, some, List, [], ◌∷◌, ◌++◌,
  String, map, count, str_eq, eq_iff, if◌then◌else◌, Bool-cases, Option-cases, inl, inr, Result,
  arith,
}
use omni_mission_control.Scheduler.{
  Report, TaskTable, ScheduledTask, set_task, task_due, marked_running, finished,
}
use omni_mission_control.Scheduler.Config.{Settings}

-- A tick under way: its time, the ids it has still to visit, and the task whose run it awaits.
pub record Ticker : Type 0 where
  pub now : ℕ
  pub left : List String
  pub awaits : Option String

pub record Pool : Type 0 where
  pub tasks : TaskTable
  pub tickers : List Ticker

abbrev pub ids_of : TaskTable → List String
ids_of = map λ e. e.0

-- `tasks.get(id)`
abbrev pub task_of : String → TaskTable → Option ScheduledTask
task_of id [] = none
task_of id ((i, t) ∷ es) = let rest = task_of id es in if str_eq i id then some t else rest

abbrev pub awaits_id : String → Ticker → Bool
awaits_id id k = elim k.awaits [ none ↦ false | some i ↦ str_eq i id ]

abbrev pub walking : ℕ → List String → Ticker
walking now left = record { now = now; left = left; awaits = none }

abbrev pub awaiting : ℕ → String → List String → Ticker
awaiting now id left = record { now = now; left = left; awaits = some id }

-- What can happen to the table and the ticks: the timer starts one; one skips a task, or marks it as
-- running and starts its run; a run ends, with a report or an error. The settings may be others at
-- each visit.
pub data Step : Pool → Pool → Type 0 where
  wakes :
      (now : ℕ) (ts : TaskTable) (ks : List Ticker)
      → Step
          (record { tasks = ts; tickers = ks })
          (record { tasks = ts; tickers = walking now (ids_of ts) ∷ ks })
  skips :
      (set : Settings) (now : ℕ) (id : String) (left : List String) (t : ScheduledTask)
      (ts : TaskTable) (before after : List Ticker)
      → task_of id ts ≡ some t
      → task_due set now (id, t) ≡ false
      → Step
          (record { tasks = ts; tickers = before ++ walking now (id ∷ left) ∷ after })
          (record { tasks = ts; tickers = before ++ walking now left ∷ after })
  starts :
      (set : Settings) (now : ℕ) (id : String) (left : List String) (t : ScheduledTask)
      (ts : TaskTable) (before after : List Ticker)
      → task_of id ts ≡ some t
      → task_due set now (id, t) ≡ true
      → Step
          (record { tasks = ts; tickers = before ++ walking now (id ∷ left) ∷ after })
          (record {
            tasks = set_task id (marked_running t) ts;
            tickers = before ++ awaiting now id left ∷ after;
          })
  ends :
      (r : Result Report) (now : ℕ) (id : String) (left : List String) (t : ScheduledTask)
      (ts : TaskTable) (before after : List Ticker)
      → task_of id ts ≡ some t
      → Step
          (record { tasks = ts; tickers = before ++ awaiting now id left ∷ after })
          (record {
            tasks = set_task id (finished now r t) ts;
            tickers = before ++ walking now left ∷ after;
          })

pub data Steps : Pool → Pool → Type 0 where
  stay : (p : Pool) → Steps p p
  step : (p q r : Pool) → Steps p q → Step q r → Steps p r

abbrev pub bit : Bool → ℕ
bit true = 1
bit false = 0

-- 1 where the table says that the task is running.
abbrev pub running_flag : String → TaskTable → ℕ
running_flag id ts = elim (task_of id ts) [ none ↦ 0 | some t ↦ bit t.running ]

-- The flag of each task says how many ticks await its run.
abbrev pub IsGuarded : Pool → Type 0
IsGuarded p = (id : String) → count (awaits_id id) p.tickers ≡ running_flag id p.tasks

count-append {ℓ} :
    {A : Type ℓ} (p : A → Bool) (xs ys : List A) → count p (xs ++ ys) ≡ count p xs + count p ys
count-append p [] ys = omega arith
count-append p (x ∷ xs) ys = ground (arith, count-append p xs ys)

task_of-set_task :
    (id : String) (t : ScheduledTask) (ts : TaskTable) → task_of id (set_task id t ts) ≡ some t
unfolding set_task
task_of-set_task id t [] = ground (arith, eq_iff id id)
task_of-set_task id t ((i, u) ∷ ts) = ground (arith, task_of-set_task id t ts)

task_of-set_other :
    (id other : String) (t : ScheduledTask) (ts : TaskTable)
    → str_eq id other ≡ false
    → task_of other (set_task id t ts) ≡ task_of other ts
unfolding set_task
task_of-set_other id other t [] h = rw h refl
task_of-set_other id other t ((i, u) ∷ ts) h =
    ground (arith, task_of-set_other id other t ts h, eq_iff i id, eq_iff i other, eq_iff id other)

-- A step changes one tick among others.
module _ (id : String) (before after : List Ticker) (k : Ticker) where
  count-split :
      count (awaits_id id) (before ++ k ∷ after)
      ≡ count (awaits_id id) before + (bit (awaits_id id k) + count (awaits_id id) after)
  count-split =
      count-append (awaits_id id) before (k ∷ after)
      ∙ ap (λ n. count (awaits_id id) before + n) (ground arith)

running_flag-set_task :
    (id other : String) (t : ScheduledTask) (ts : TaskTable)
    → running_flag other (set_task id t ts)
      ≡ (if str_eq id other then bit t.running else running_flag other ts)
running_flag-set_task id other t ts = elim (Bool-cases (str_eq id other)) [
  | inl same ↦
      let found : task_of other (set_task id t ts) ≡ some t =
        subst (λ i. task_of i (set_task id t ts) ≡ some t) ((eq_iff id other).0 same)
          (task_of-set_task id t ts) in
      rw (same, running_flag, found) refl
  | inr differs ↦ rw (differs, running_flag, task_of-set_other id other t ts differs) refl
]

step-IsGuarded : (p q : Pool) → Step p q → IsGuarded p → IsGuarded q
unfolding task_due marked_running finished
step-IsGuarded p q (wakes now ts ks) h other = h other
step-IsGuarded p q (skips set now id left t ts before after found later) h other = ground (
  arith,
  h other,
  count-split other before after (walking now (id ∷ left)),
  count-split other before after (walking now left),
)
step-IsGuarded p q (starts set now id left t ts before after found due) h other = ground (
  arith,
  h other,
  eq_iff id other,
  running_flag-set_task id other (marked_running t) ts,
  count-split other before after (walking now (id ∷ left)),
  count-split other before after (awaiting now id left),
)
step-IsGuarded p q (ends r now id left t ts before after found) h other = ground (
  arith,
  h other,
  eq_iff id other,
  running_flag-set_task id other (finished now r t) ts,
  count-split other before after (awaiting now id left),
  count-split other before after (walking now left),
)

all_steps-IsGuarded : (p q : Pool) → Steps p q → IsGuarded p → IsGuarded q
all_steps-IsGuarded p q (stay _) h = h
all_steps-IsGuarded p q (step _ m _ s e) h = step-IsGuarded m q e (all_steps-IsGuarded p m s h)

-- Whatever steps the ticks take, from a state where this holds (as it does where no tick is under way
-- and no task is running): as many ticks await the run of a task as the table's mark of that task
-- says, at most one.
pub steps-IsGuarded :
    (p q : Pool)
    → Steps p q
    → IsGuarded p
    → (id : String)
    → (count (awaits_id id) q.tickers ≡ running_flag id q.tasks)
      × (count (awaits_id id) q.tickers ≤ 1)
steps-IsGuarded p q s h id =
    let guarded = all_steps-IsGuarded p q s h id in
    elim (Option-cases (task_of id q.tasks)) [
      | inl missing ↦ ground arith
      | inr (t, found) ↦ ground arith
    ]
