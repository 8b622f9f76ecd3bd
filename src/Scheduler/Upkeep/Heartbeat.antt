-- ===== src/Scheduler/Upkeep/Heartbeat.antt =====
-- `runHeartbeatCheck` of src/lib/scheduler.ts: agents not seen for too long are marked offline.
use omni_mission_control.Prelude.{
  ℕ, suc, ◌+◌, ◌-◌, ◌*◌, ◌/◌, Bool, true, false, not, ◌&&◌, Option, none, some, List, [], ◌∷◌, ◌++◌,
  map, filter, length, ltb, ◌==◌, if◌then◌else◌, String, concat, ℤ, pos, negsuc, decimal,
  decimal_int, Result, ok,
}
use omni_mission_control.Scheduler.{Report}
use omni_mission_control.Scheduler.Config.{get_setting_number}
use omni_mission_control.Scheduler.Upkeep.{
  Office, Agent, AgentStatus, offline, ActivityRow, NotificationRow, log_audit, marked_offline,
}

-- `now - timeoutMinutes * 60`; below 0 it is as good as 0, since no agent is seen before 0.
unfoldable pub threshold : ℕ → ℤ → ℕ
threshold now (pos minutes) = now - minutes * 60
threshold now (negsuc n) = now + suc n * 60

abbrev pub is_offline : AgentStatus → Bool
is_offline offline = true
is_offline _ = false

abbrev pub unseen_since : ℕ → Option ℕ → Bool
unseen_since limit none = true
unseen_since limit (some seen) = ltb seen limit

-- `status != 'offline' AND (last_seen IS NULL OR last_seen < ?)`
unfoldable pub is_stale : ℕ → Agent → Bool
is_stale limit a = not (is_offline a.status) && unseen_since limit a.last_seen

abbrev pub taken_offline : ℕ → Agent → Agent
taken_offline now a = record a { status = offline; updated_at = now }

-- `UPDATE agents SET status = 'offline', updated_at = ? WHERE id = ?`
unfoldable pub mark_offline : ℕ → ℕ → List Agent → List Agent
mark_offline now id = map λ a. if a.id == id then taken_offline now a else a

-- The activity and the notification of one agent. The statements name no workspace: it is the
-- column's default, 1.
unfoldable pub offline_activity : ℕ → ℤ → Agent → ActivityRow
offline_activity now minutes a = record {
  kind = "agent_status_change";
  entity_type = "agent";
  entity_id = a.id;
  actor = "heartbeat";
  description = concat "Agent \"" (
      concat a.name
        (concat "\" marked offline (no heartbeat for " (concat (decimal_int minutes) "m)")));
  created_at = now;
  workspace_id = 1;
}

unfoldable pub offline_notification : ℕ → ℤ → Agent → NotificationRow
offline_notification now minutes a = record {
  recipient = "system";
  kind = "heartbeat";
  title = concat "Agent offline: " a.name;
  message = concat "Agent \"" (
      concat a.name (
        concat "\" was marked offline after "
          (concat (decimal_int minutes) " minutes without heartbeat")));
  source_type = "agent";
  source_id = a.id;
  created_at = now;
  workspace_id = 1;
}

-- The body of the loop over the stale agents.
unfoldable pub report_offline : ℕ → ℤ → Agent → Office → Office
unfolding mark_offline offline_activity offline_notification
report_offline now minutes a o = record o {
  agents = mark_offline now a.id o.agents;
  activities = o.activities ++ offline_activity now minutes a ∷ [];
  notifications = o.notifications ++ offline_notification now minutes a ∷ [];
}

unfoldable pub report_all : ℕ → ℤ → List Agent → Office → Office
unfolding report_offline
report_all now minutes [] o = o
report_all now minutes (a ∷ stale) o = report_all now minutes stale (report_offline now minutes a o)

-- `names.join(', ')`
abbrev pub join_names : List String → String
join_names [] = ""
join_names (n ∷ []) = n
join_names (n ∷ m ∷ ns) = concat n (concat ", " (join_names (m ∷ ns)))

abbrev pub names_of : List Agent → List String
names_of = map λ a. a.name

abbrev pub heartbeat_report : List Agent → Report
heartbeat_report [] = record { ok = true; message = "All agents healthy" }
heartbeat_report (a ∷ stale) = record {
  ok = true;
  message = concat "Marked " (
      concat (decimal (length (a ∷ stale)))
        (concat " agent(s) offline: " (join_names (names_of (a ∷ stale)))));
}

abbrev pub heartbeat_effect : ℕ → ℤ → List Agent → Office → Office
heartbeat_effect now minutes [] o = o
heartbeat_effect now minutes (a ∷ stale) o =
    log_audit "heartbeat_check" (marked_offline (names_of (a ∷ stale))) now
      (report_all now minutes (a ∷ stale) o)

unfoldable pub run_heartbeat_check : ℕ → Office → Result Report × Office
unfolding get_setting_number threshold is_stale
run_heartbeat_check ms o =
    let now = ms / 1_000 in
    let minutes = get_setting_number o.settings "general.agent_timeout_minutes" 10 in
    let stale = filter (is_stale (threshold now minutes)) o.agents in
    (ok (heartbeat_report stale), heartbeat_effect now minutes stale o)
