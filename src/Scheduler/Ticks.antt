-- ===== src/Scheduler/Ticks.antt =====
-- What one tick does to the table and in the world, against a description by lists.
use omni_mission_control.Prelude.{
  ℕ, ◌+◌, ◌≡◌, refl, true, false, some, [], ◌∷◌, String, filter, ◌⊎◌, Bool-cases, inl, inr,
}
use omni_mission_control.Scheduler.{
  Jobs, TaskTable, ScheduledTask, tick, run_task, task_due, marked_running, finished,
}
use omni_mission_control.Scheduler.Config.{Settings}

-- The task was due and is put off by its interval, or was not and is as before.
abbrev pub IsTicked : Settings → ℕ → String × ScheduledTask → String × ScheduledTask → Type 0
IsTicked set now e e' =
    (task_due set now e ≡ true)
      × (e'.0 ≡ e.0)
      × (e'.1.interval_ms ≡ e.1.interval_ms)
      × (e'.1.running ≡ false)
      × (e'.1.last_run ≡ some now)
      × (e'.1.next_run ≡ now + e.1.interval_ms)
    ⊎ (task_due set now e ≡ false) × (e' ≡ e)

abbrev pub AreTicked : Settings → ℕ → TaskTable → TaskTable → Type 0
AreTicked set now [] [] = Unit
AreTicked set now [] (e' ∷ es') = ⊥
AreTicked set now (e ∷ es) [] = ⊥
AreTicked set now (e ∷ es) (e' ∷ es') = IsTicked set now e e' × AreTicked set now es es'

module _ {ℓ} {W : Type ℓ} (jobs : Jobs W) where
  -- One run after the other.
  abbrev pub run_all : ℕ → TaskTable → W → W
  run_all now [] w = w
  run_all now (e ∷ es) w = run_all now es (run_task jobs e.0 now w).1

  -- A tick does the work of exactly the tasks that are due, each once and in the table's order. Each
  -- of them is then not running, stamped with the tick's time and due again after its interval,
  -- whether its run reported or threw; the other tasks are as before.
  pub tick_lem :
      (set : Settings) (now : ℕ) (es : TaskTable) (w : W)
      → AreTicked set now es (tick jobs set now es w).0
        × ((tick jobs set now es w).1 ≡ run_all now (filter (task_due set now) es) w)
  unfolding tick finished marked_running
  tick_lem set now [] w = (tt, refl)
  tick_lem set now (e ∷ es) w = elim (Bool-cases (task_due set now e)) [
    | inl due ↦
        let ih = tick_lem set now es (run_task jobs e.0 now w).1 in
        rw due ((inl (due, refl, refl, refl, refl, refl), ih.0), ih.1)
    | inr later ↦ let ih = tick_lem set now es w in rw later ((inr (later, refl), ih.0), ih.1)
  ]
