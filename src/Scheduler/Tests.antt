-- ===== src/Scheduler/Tests.antt =====
-- Runs of the scheduler's model on concrete tables, and the theorems at them.
use omni_mission_control.Prelude.{
  ℕ, ◌≤◌, ◌<◌, ◌≡◌, refl, true, false, none, some, [], ◌∷◌, String, map, count, filter, All, pos,
  parse_int, ok, throw, arith,
}
use omni_mission_control.Scheduler.{
  TaskTable, Jobs, scheduled, init_scheduler, stop_scheduler, tick, trigger_task, task_due,
  set_task, marked_running, get_next_daily_ms,
}
use omni_mission_control.Scheduler.Daily.{get_next_daily_ms_lem}
use omni_mission_control.Scheduler.Ticks.{AreTicked, run_all, tick_lem}
use omni_mission_control.Scheduler.Overlap.{
  Pool, Steps, stay, step, wakes, starts, awaits_id, running_flag, walking, awaiting, IsGuarded,
  steps-IsGuarded,
}
use omni_mission_control.Scheduler.Upkeep.{Office, log_audit, Agent, idle, offline, busy}
use omni_mission_control.Scheduler.Upkeep.Cleanup.{Retention, run_cleanup}
use omni_mission_control.Scheduler.Upkeep.Heartbeat.{
  is_stale, report_all, run_heartbeat_check, offline_activity, offline_notification,
}
use omni_mission_control.Scheduler.Upkeep.Backup.{prune_backups, run_backup}
use omni_mission_control.Scheduler.Alive.{
  stale_limit, checked, timeout_minutes, run_heartbeat_check-agents,
}
use omni_mission_control.Scheduler.Cleaned.{run_cleanup-settles}

-- At 23:00, three in the morning is four hours away; at three it is a day.
daily_waits : get_next_daily_ms 3 82_800_000 ≡ 14_400_000
unfolding get_next_daily_ms
daily_waits = refl

daily_now : get_next_daily_ms 3 10_800_000 ≡ 86_400_000
unfolding get_next_daily_ms
daily_now = refl

abbrev ada : Agent
ada = record {
  id = 1;
  name = "ada";
  role = "dev";
  status = idle;
  last_seen = some 5_000;
  last_activity = none;
  workspace_id = 2;
  updated_at = 0;
}

abbrev bob : Agent
bob = record ada { id = 2; name = "bob"; status = busy; last_seen = none }

abbrev office : Office
office = record {
  settings = some (("general.agent_timeout_minutes", "5") ∷ []);
  agents = ada ∷ bob ∷ [];
  activities = [];
  audit_log = [];
  notifications = [];
  pipeline_runs = record { id = 1; created_at = 100 } ∷ record { id = 2; created_at = 90_000 } ∷ [];
  usage = none;
  backups =
      record { name = "mc-backup-1.db"; mtime = 1 }
      ∷ record { name = "notes.txt"; mtime = 0 }
      ∷ record { name = "mc-backup-3.db"; mtime = 3 }
      ∷ record { name = "mc-backup-2.db"; mtime = 2 }
      ∷ [];
}

abbrev a_day : Retention
a_day = record {
  activities = pos 1;
  audit_log = pos 1;
  notifications = pos 1;
  pipeline_runs = pos 1;
  token_usage = pos 1;
}

-- The three upkeep tasks; the other two have nothing to do.
abbrev jobs : Jobs Office
jobs = record {
  backup = run_backup (throw "disk full") "backups" "mc-backup-4.db";
  cleanup = run_cleanup a_day;
  heartbeat = run_heartbeat_check;
  retries = λ now w. (ok (record { ok = true; message = "No pending retries" }), w);
  scan = λ now w. (throw "no home", w);
}

abbrev table : TaskTable
table =
    ("agent_heartbeat", scheduled "Agent Heartbeat Check" 300_000 5_250_000)
    ∷ ("auto_cleanup", scheduled "Auto Cleanup" 86_400_000 5_250_000)
    ∷ ("claude_session_scan", scheduled "Claude Session Scan" 60_000 5_250_000)
    ∷ []

-- Cleanup is off by default; bob, never seen, is taken offline; the scan's error is recorded.
tick_runs :
    map {B = String × ℕ}
      (λ e. (e.0, e.1.next_run))
      (tick jobs office.settings 5_250_000 table office).0
    ≡ ("agent_heartbeat", 5_550_000)
      ∷ ("auto_cleanup", 5_250_000)
      ∷ ("claude_session_scan", 5_310_000)
      ∷ []
unfolding tick
tick_runs = refl

tick_agents :
    (tick jobs office.settings 5_250_000 table office).1.agents
    ≡ ada ∷ record bob { status = offline; updated_at = 5_250 } ∷ []
unfolding tick run_heartbeat_check parse_int log_audit report_all
tick_agents = refl

tick_lem_example :
    AreTicked office.settings 5_250_000 table (tick jobs office.settings 5_250_000 table office).0
    × ((tick jobs office.settings 5_250_000 table office).1
        ≡ run_all jobs 5_250_000 (filter (task_due office.settings 5_250_000) table) office)
tick_lem_example = tick_lem jobs office.settings 5_250_000 table office

trigger_unknown :
    trigger_task jobs "nap" 0 office
    ≡ (ok (record { ok = false; message = "Unknown task: nap" }), office)
unfolding trigger_task
trigger_unknown = refl

-- After a stop and a new start the times are set anew, in the old order.
restarted :
    map {B = String × ℕ}
      (λ e. (e.0, e.1.next_run))
      (init_scheduler 1_000 1_000 1_000
        (stop_scheduler (record { tasks = table; ticking = true }))).tasks
    ≡ ("agent_heartbeat", 301_000)
      ∷ ("auto_cleanup", 14_400_000)
      ∷ ("claude_session_scan", 6_000)
      ∷ ("auto_backup", 10_800_000)
      ∷ ("webhook_retry", 61_000)
      ∷ []
unfolding init_scheduler stop_scheduler
restarted = refl

waits_at_night : 0 < get_next_daily_ms 3 82_800_000
waits_at_night = (get_next_daily_ms_lem 3 82_800_000 (omega arith)).0

-- Two of the three copies stay, and the other file.
pruned :
    prune_backups (pos 2) office.backups
    ≡ record { name = "notes.txt"; mtime = 0 }
      ∷ record { name = "mc-backup-3.db"; mtime = 3 }
      ∷ record { name = "mc-backup-2.db"; mtime = 2 }
      ∷ []
unfolding prune_backups
pruned = refl

run_heartbeat_check-agents_example :
    ((run_heartbeat_check 5_250_000 office).1.agents
      ≡ map (checked (stale_limit 5_250_000 office) 5_250) office.agents)
    × ((run_heartbeat_check 5_250_000 office).1.activities
        ≡ map
            (offline_activity 5_250 (timeout_minutes office))
            (filter (is_stale (stale_limit 5_250_000 office)) office.agents))
    × ((run_heartbeat_check 5_250_000 office).1.notifications
        ≡ map
            (offline_notification 5_250 (timeout_minutes office))
            (filter (is_stale (stale_limit 5_250_000 office)) office.agents))
    × All
        (λ a. is_stale (stale_limit 5_250_000 office) a ≡ false)
        (run_heartbeat_check 5_250_000 office).1.agents
run_heartbeat_check-agents_example =
    run_heartbeat_check-agents 5_250_000 office ((ground arith, tt), (tt, tt))

run_cleanup-settles_example :
    run_cleanup a_day 100_000_000 (run_cleanup a_day 100_000_000 office).1 ≡ (
      ok (record { ok = true; message = "Cleaned 0 stale records" }),
      (run_cleanup a_day 100_000_000 office).1,
    )
run_cleanup-settles_example = run_cleanup-settles a_day 100_000_000 office

cleanup_deletes : map (λ r. r.id) (run_cleanup a_day 100_000_000 office).1.pipeline_runs ≡ 2 ∷ []
unfolding run_cleanup
cleanup_deletes = refl

-- Two ticks are under way: the first runs the heartbeat check, the second can only skip it.
abbrev heartbeat_only : TaskTable
heartbeat_only = ("agent_heartbeat", scheduled "Agent Heartbeat Check" 300_000 0) ∷ []

abbrev quiet : Pool
quiet = record { tasks = heartbeat_only; tickers = [] }

abbrev one_awake : Pool
one_awake = record quiet { tickers = walking 10 ("agent_heartbeat" ∷ []) ∷ [] }

abbrev one_runs : Pool
one_runs = record {
  tasks =
      set_task "agent_heartbeat" (marked_running (scheduled "Agent Heartbeat Check" 300_000 0))
        heartbeat_only;
  tickers = awaiting 10 "agent_heartbeat" [] ∷ [];
}

started_once : Steps quiet one_runs
unfolding task_due set_task marked_running
started_once =
    step quiet one_awake one_runs
      (step quiet quiet one_awake (stay quiet) (wakes 10 heartbeat_only []))
      (starts none 10 "agent_heartbeat" [] (scheduled "Agent Heartbeat Check" 300_000 0)
        heartbeat_only [] [] refl refl)

quiet-IsGuarded : IsGuarded quiet
quiet-IsGuarded id = ground arith

steps-IsGuarded_example :
    (count (awaits_id "agent_heartbeat") one_runs.tickers
      ≡ running_flag "agent_heartbeat" one_runs.tasks)
    × (count (awaits_id "agent_heartbeat") one_runs.tickers ≤ 1)
steps-IsGuarded_example =
    steps-IsGuarded quiet one_runs started_once quiet-IsGuarded "agent_heartbeat"
