-- ===== src/Scheduler/Alive.antt =====
-- What the heartbeat check of src/lib/scheduler.ts does to the agents, and what it reports.
use mathlib.Core.Path.{subst}
use mathlib.Core.List.{append-nil, append_assoc}
use omni_mission_control.Prelude.{
  ℕ, ◌/◌, ◌≡◌, ◌≢◌, refl, sym, ap, ◌∙◌, Bool, false, List, [], ◌∷◌, ◌++◌, map, filter, any, ◌==◌,
  ==_iff, if◌then◌else◌, Bool-cases, inl, inr, All, All-imp, All-both, All-filter, map-map, map-ext,
  map_same, All-always, All-map, ℤ, arith,
}
use omni_mission_control.Scheduler.Config.{get_setting_number}
use omni_mission_control.Scheduler.Upkeep.{Office, Agent, log_audit}
use omni_mission_control.Scheduler.Upkeep.Heartbeat.{
  threshold, is_stale, taken_offline, report_offline, report_all, offline_activity,
  offline_notification, run_heartbeat_check, heartbeat_effect,
}

-- `id` is the primary key.
abbrev pub HasUniqueIds : List Agent → Type 0
HasUniqueIds [] = Unit
HasUniqueIds (a ∷ xs) = All (λ b. b.id ≢ a.id) xs × HasUniqueIds xs

-- The limit that a check at a time in milliseconds goes by.
abbrev pub stale_limit : ℕ → Office → ℕ
stale_limit ms o =
    threshold (ms / 1_000) (get_setting_number o.settings "general.agent_timeout_minutes" 10)

abbrev has_id : List Agent → Agent → Bool
has_id stale a = any (λ s. a.id == s.id) stale

marked_by : List Agent → ℕ → Agent → Agent
marked_by stale now a = if has_id stale a then taken_offline now a else a

marked_by-step :
    (s : Agent) (stale : List Agent) (now : ℕ) (a : Agent)
    → marked_by stale now (if a.id == s.id then taken_offline now a else a)
      ≡ marked_by (s ∷ stale) now a
unfolding marked_by
marked_by-step s stale now a = elim (Bool-cases (a.id == s.id)) [
  | inl same ↦ ground arith
  | inr differs ↦ rw differs refl
]

-- The updates one by one are one update of the agents whose id is among them.
report_all-agents :
    (now : ℕ) (minutes : ℤ) (stale : List Agent) (o : Office)
    → (report_all now minutes stale o).agents ≡ map (marked_by stale now) o.agents
unfolding report_all marked_by
report_all-agents now minutes [] o = sym (map_same o.agents)
report_all-agents now minutes (s ∷ stale) o =
    report_all-agents now minutes stale (report_offline now minutes s o)
    ∙ map-map (marked_by stale now) (λ a. if a.id == s.id then taken_offline now a else a) o.agents
    ∙ map-ext _ (marked_by (s ∷ stale) now) o.agents
        (All-always _ o.agents (marked_by-step s stale now))

has_id-fresh : (a : Agent) (xs : List Agent) → All (λ b. b.id ≢ a.id) xs → has_id xs a ≡ false
has_id-fresh a [] h = refl
has_id-fresh a (x ∷ xs) (ne, h) = ground (arith, has_id-fresh a xs h, ==_iff a.id x.id)

has_id-selected :
    (p : Agent → Bool) (a b : Agent) (xs : List Agent)
    → (b.id ≢ a.id) × (has_id (filter p xs) b ≡ p b)
    → has_id (filter p (a ∷ xs)) b ≡ p b
has_id-selected p a b xs (ne, h) = ground (arith, ==_iff b.id a.id)

report_all-activities :
    (now : ℕ) (minutes : ℤ) (stale : List Agent) (o : Office)
    → (report_all now minutes stale o).activities
      ≡ o.activities ++ map (offline_activity now minutes) stale
unfolding report_all
report_all-activities now minutes [] o = sym (append-nil o.activities)
report_all-activities now minutes (s ∷ stale) o =
    report_all-activities now minutes stale (report_offline now minutes s o)
    ∙ append_assoc o.activities (offline_activity now minutes s ∷ []) _

report_all-notifications :
    (now : ℕ) (minutes : ℤ) (stale : List Agent) (o : Office)
    → (report_all now minutes stale o).notifications
      ≡ o.notifications ++ map (offline_notification now minutes) stale
unfolding report_all
report_all-notifications now minutes [] o = sym (append-nil o.notifications)
report_all-notifications now minutes (s ∷ stale) o =
    report_all-notifications now minutes stale (report_offline now minutes s o)
    ∙ append_assoc o.notifications (offline_notification now minutes s ∷ []) _

-- The three tables after a check that found some stale agents, or none.
heartbeat_effect_lem :
    (now : ℕ) (minutes : ℤ) (stale : List Agent) (o : Office)
    → ((heartbeat_effect now minutes stale o).agents ≡ map (marked_by stale now) o.agents)
      × ((heartbeat_effect now minutes stale o).activities
          ≡ o.activities ++ map (offline_activity now minutes) stale)
      × ((heartbeat_effect now minutes stale o).notifications
          ≡ o.notifications ++ map (offline_notification now minutes) stale)
unfolding log_audit report_all
heartbeat_effect_lem now minutes [] o = (
  report_all-agents now minutes [] o,
  report_all-activities now minutes [] o,
  report_all-notifications now minutes [] o,
)
heartbeat_effect_lem now minutes (s ∷ stale) o = (
  report_all-agents now minutes (s ∷ stale) o,
  report_all-activities now minutes (s ∷ stale) o,
  report_all-notifications now minutes (s ∷ stale) o,
)

-- Among agents with unique ids, those whose id is in a selection are those of the selection.
has_id-filter :
    (p : Agent → Bool) (xs : List Agent)
    → HasUniqueIds xs
    → All (λ a. has_id (filter p xs) a ≡ p a) xs
has_id-filter p [] u = tt
has_id-filter p (a ∷ xs) (fresh, u) = (
  ground (
    arith,
    ==_iff a.id a.id,
    has_id-fresh a (filter p xs) (All-filter (λ b. b.id ≢ a.id) p xs fresh),
  ),
  All-imp _ (λ b. has_id (filter p (a ∷ xs)) b ≡ p b) xs (λ b. has_id-selected p a b xs)
      (All-both (λ b. b.id ≢ a.id) (λ b. has_id (filter p xs) b ≡ p b) xs fresh
        (has_id-filter p xs u)),
)

-- An agent as the check leaves it.
abbrev pub checked : ℕ → ℕ → Agent → Agent
checked limit now a = if is_stale limit a then taken_offline now a else a

checked-fresh : (limit now : ℕ) (a : Agent) → is_stale limit (checked limit now a) ≡ false
unfolding is_stale
checked-fresh limit now a = elim (Bool-cases (is_stale limit a)) [
  | inl e ↦ rw e refl
  | inr e ↦ rw e e
]

abbrev pub timeout_minutes : Office → ℤ
timeout_minutes o = get_setting_number o.settings "general.agent_timeout_minutes" 10

-- Where no two agents share an id: the check takes exactly the stale agents offline (those that are
-- not offline and were not seen since the limit), with one activity and one notification for each, and
-- leaves the other agents as they are; afterwards no agent is stale.
pub run_heartbeat_check-agents :
    (ms : ℕ) (o : Office)
    → HasUniqueIds o.agents
    → ((run_heartbeat_check ms o).1.agents ≡ map (checked (stale_limit ms o) (ms / 1_000)) o.agents)
      × ((run_heartbeat_check ms o).1.activities
          ≡ o.activities
            ++ map
                (offline_activity (ms / 1_000) (timeout_minutes o))
                (filter (is_stale (stale_limit ms o)) o.agents))
      × ((run_heartbeat_check ms o).1.notifications
          ≡ o.notifications
            ++ map
                (offline_notification (ms / 1_000) (timeout_minutes o))
                (filter (is_stale (stale_limit ms o)) o.agents))
      × All (λ a. is_stale (stale_limit ms o) a ≡ false) (run_heartbeat_check ms o).1.agents
unfolding run_heartbeat_check marked_by
run_heartbeat_check-agents ms o u =
    let now = ms / 1_000 in
    let minutes = timeout_minutes o in
    let limit = stale_limit ms o in
    let stale : List Agent = filter (is_stale limit) o.agents in
    let h = heartbeat_effect_lem now minutes stale o in
    let exact : (heartbeat_effect now minutes stale o).agents ≡ map (checked limit now) o.agents =
      h.0
      ∙ map-ext (marked_by stale now) (checked limit now) o.agents (
          All-imp (λ a. has_id stale a ≡ is_stale limit a)
            (λ a. marked_by stale now a ≡ checked limit now a) o.agents
            (λ a e. ap (λ b. if b then taken_offline now a else a) e)
            (has_id-filter (is_stale limit) o.agents u)) in
    (
      exact,
      h.1,
      h.2,
      subst (All (λ a. is_stale limit a ≡ false)) (sym exact) (
          All-map (λ a. is_stale limit a ≡ false) (checked limit now) o.agents
            (All-always _ o.agents (checked-fresh limit now))),
    )
