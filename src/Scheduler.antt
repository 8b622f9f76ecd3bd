-- ===== src/Scheduler.antt =====
-- src/lib/scheduler.ts: the table of background tasks, the tick that runs the due ones, the status and
-- the manual trigger. What the five tasks do is an interface here; `Upkeep` has three of them. Times are
-- milliseconds.
pub mod Config
pub mod Daily
pub mod Ticks
pub mod Overlap
pub mod Upkeep
pub mod Alive
pub mod Cleaned
mod Tests
use omni_mission_control.Prelude.{
  ℕ, ◌+◌, ◌-◌, ◌*◌, ◌/◌, Bool, true, false, not, ◌&&◌, ◌||◌, Option, none, some, List, [], ◌∷◌,
  String, map, ltb, leb, ◌==◌, str_eq, if◌then◌else◌, concat, Result, ok, throw,
}
use omni_mission_control.Scheduler.Config.{Settings, is_setting_enabled}

-- What a task reports.
pub record Report : Type 0 where
  pub ok : Bool
  pub message : String

pub record LastResult : Type 0 where
  pub ok : Bool
  pub message : String
  pub timestamp : ℕ

pub record ScheduledTask : Type 0 where
  pub name : String
  pub interval_ms : ℕ
  pub last_run : Option ℕ
  pub next_run : ℕ
  pub enabled : Bool
  pub running : Bool
  pub last_result : Option LastResult

-- The map `tasks`, in the order of its keys' insertion, and whether the tick loop is set.
abbrev pub TaskTable : Type 0
TaskTable = List (String × ScheduledTask)

pub record Scheduler : Type 0 where
  pub tasks : TaskTable
  pub ticking : Bool

-- The functions that do the work: from a time, to a report or an error.
pub record Jobs {ℓ} (W : Type ℓ) : Type ℓ where
  pub backup : ℕ → W → Result Report × W
  pub cleanup : ℕ → W → Result Report × W
  pub heartbeat : ℕ → W → Result Report × W
  pub retries : ℕ → W → Result Report × W
  pub scan : ℕ → W → Result Report × W

abbrev pub daily_ms : ℕ
daily_ms = 24 * 60 * 60 * 1_000

abbrev pub five_minutes_ms : ℕ
five_minutes_ms = 5 * 60 * 1_000

abbrev pub tick_ms : ℕ
tick_ms = 60 * 1_000

abbrev pub hour_ms : ℕ
hour_ms = 60 * 60 * 1_000

-- The time of an hour (UTC) on the day of `now`, or on the next day where that is not after `now`.
unfoldable pub next_daily : ℕ → ℕ → ℕ
next_daily hour now =
    let next = now / daily_ms * daily_ms + hour * hour_ms in
    if leb next now then next + daily_ms else next

unfoldable pub get_next_daily_ms : ℕ → ℕ → ℕ
unfolding next_daily
get_next_daily_ms hour now = next_daily hour now - now

abbrev pub scheduled : String → ℕ → ℕ → ScheduledTask
scheduled name interval next = record {
  name = name;
  interval_ms = interval;
  last_run = none;
  next_run = next;
  enabled = true;
  running = false;
  last_result = none;
}

-- `tasks.set(id, task)`
unfoldable pub set_task : String → ScheduledTask → TaskTable → TaskTable
set_task id t [] = (id, t) ∷ []
set_task id t ((i, u) ∷ es) =
    let rest = set_task id t es in if str_eq i id then (i, t) ∷ es else (i, u) ∷ rest

-- `initScheduler`. The clock is read again for each of the two daily tasks.
unfoldable pub init_scheduler : ℕ → ℕ → ℕ → Scheduler → Scheduler
unfolding set_task get_next_daily_ms
init_scheduler now now_backup now_cleanup s = if s.ticking then s else record {
  tasks = set_task "claude_session_scan" (scheduled "Claude Session Scan" tick_ms (now + 5_000)) (
      set_task "webhook_retry" (scheduled "Webhook Retry" tick_ms (now + tick_ms)) (
        set_task "agent_heartbeat"
          (scheduled "Agent Heartbeat Check" five_minutes_ms (now + five_minutes_ms))
          (set_task "auto_cleanup"
            (scheduled "Auto Cleanup" daily_ms (now + get_next_daily_ms 4 now_cleanup))
            (set_task "auto_backup"
              (scheduled "Auto Backup" daily_ms (now + get_next_daily_ms 3 now_backup)) s.tasks))));
  ticking = true;
}

unfoldable pub stop_scheduler : Scheduler → Scheduler
stop_scheduler s = record s { ticking = false }

unfoldable pub setting_key : String → String
setting_key id =
    if str_eq id "auto_backup"
    then "general.auto_backup"
    else if str_eq id "auto_cleanup"
    then "general.auto_cleanup"
    else if str_eq id "webhook_retry"
    then "webhooks.retry_enabled"
    else if str_eq id "claude_session_scan"
    then "general.claude_session_scan"
    else "general.agent_heartbeat"

unfoldable pub default_enabled : String → Bool
default_enabled id =
    str_eq id "agent_heartbeat" || str_eq id "webhook_retry" || str_eq id "claude_session_scan"

unfoldable pub task_enabled : Settings → String → Bool
unfolding setting_key default_enabled is_setting_enabled
task_enabled set id = is_setting_enabled set (setting_key id) (default_enabled id)

-- The tests at the head of the loop's body: the task is run.
unfoldable pub task_due : Settings → ℕ → String × ScheduledTask → Bool
unfolding task_enabled
task_due set now (id, t) = not (t.running || ltb now t.next_run) && task_enabled set id

unfoldable pub marked_running : ScheduledTask → ScheduledTask
marked_running t = record t { running = true }

-- How a run's end is recorded, by the time of the tick that made it.
unfoldable pub as_last_result : ℕ → Result Report → LastResult
as_last_result now (ok r) = record { ok = r.ok; message = r.message; timestamp = now }
as_last_result now (throw e) = record { ok = false; message = e; timestamp = now }

unfoldable pub finished : ℕ → Result Report → ScheduledTask → ScheduledTask
unfolding as_last_result
finished now r t = record t {
  running = false;
  last_run = some now;
  next_run = now + t.interval_ms;
  last_result = some (as_last_result now r);
}

module _ {ℓ} {W : Type ℓ} (jobs : Jobs W) where
  unfoldable pub run_task : String → ℕ → W → Result Report × W
  run_task id now w =
      if str_eq id "auto_backup"
      then jobs.backup now w
      else if str_eq id "agent_heartbeat"
      then jobs.heartbeat now w
      else if str_eq id "webhook_retry"
      then jobs.retries now w
      else if str_eq id "claude_session_scan"
      then jobs.scan now w
      else jobs.cleanup now w

  -- The loop of `tick`, where nothing else happens while a run is awaited.
  unfoldable pub tick : Settings → ℕ → TaskTable → W → TaskTable × W
  unfolding task_due run_task marked_running finished
  tick set now [] w = ([], w)
  tick set now ((id, t) ∷ es) w =
      let (r, w') = run_task id now w in
      let (ran, w_ran) = tick set now es w' in
      let (rest, w_skipped) = tick set now es w in
      if task_due set now (id, t)
      then ((id, finished now r (marked_running t)) ∷ ran, w_ran)
      else ((id, t) ∷ rest, w_skipped)

  unfoldable pub trigger_task : String → ℕ → W → Result Report × W
  trigger_task id now w =
      if str_eq id "auto_backup"
      then jobs.backup now w
      else if str_eq id "auto_cleanup"
      then jobs.cleanup now w
      else if str_eq id "agent_heartbeat"
      then jobs.heartbeat now w
      else if str_eq id "webhook_retry"
      then jobs.retries now w
      else if str_eq id "claude_session_scan"
      then jobs.scan now w
      else (ok (record { ok = false; message = concat "Unknown task: " id }), w)

-- A row of the answer of `getSchedulerStatus`.
pub record SchedulerStatus : Type 0 where
  pub id : String
  pub name : String
  pub enabled : Bool
  pub last_run : Option ℕ
  pub next_run : ℕ
  pub running : Bool
  pub last_result : Option LastResult

unfoldable pub get_scheduler_status : Settings → TaskTable → List SchedulerStatus
unfolding task_enabled
get_scheduler_status set = map λ e. record {
  id = e.0;
  name = e.1.name;
  enabled = task_enabled set e.0;
  last_run = e.1.last_run;
  next_run = e.1.next_run;
  running = e.1.running;
  last_result = e.1.last_result;
}
