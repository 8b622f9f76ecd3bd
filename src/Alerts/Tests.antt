-- ===== src/Alerts/Tests.antt =====
-- Alert rules on concrete tables, and the theorems at them.
use omni_mission_control.Prelude.{decimal, ◌≡◌, refl, true, false, none, some, [], ◌∷◌, map, arith}
use omni_mission_control.Alerts.{AlertRule, AgentRow, AlertDb, Values}
use omni_mission_control.Alerts.Conditions.{evaluate_agent_rule}
use omni_mission_control.Alerts.Rules.{deleted, delete_rule, audit}
use omni_mission_control.Alerts.Evaluate.{evaluate_rules}
use omni_mission_control.Alerts.Cooldown.{Holds, evaluate_at, evaluate_at-Holds}

abbrev values : Values
values = record { as_integer = λ s. none; text_below = λ s n. false; above = λ a b. false }

abbrev ada : AgentRow
ada = record {
  id = 1;
  workspace_id = 1;
  status = "error";
  role = "dev";
  name = "ada";
  last_seen = some 100;
  last_activity = none;
}

abbrev failing : AlertRule
failing = record {
  id = 3;
  workspace_id = 1;
  name = "errors";
  description = none;
  enabled = true;
  entity_type = "agent";
  condition_field = "status";
  condition_operator = "equals";
  condition_value = "error";
  action_type = "notification";
  recipient = none;
  cooldown_minutes = 10;
  last_triggered_at = some 5_000;
  trigger_count = 1;
  created_by = "ada";
  updated_at = 0;
}

abbrev db : AlertDb
db = record {
  rules = failing ∷ record failing { id = 4; last_triggered_at = none; trigger_count = 0 } ∷ [];
  next_rule = 5;
  agents = ada ∷ record ada { id = 2 } ∷ [];
  tasks = [];
  activities = [];
  notifications = [];
  audit_log = [];
}

-- The first rule cools down, the second fires.
evaluated :
    map (λ e. e.reason) (evaluate_rules values 5_100 1 db).0 ≡ "In cooldown" ∷ "Condition met" ∷ []
unfolding evaluate_rules
evaluated = refl

notified :
    map (λ n. n.message) (evaluate_rules values 5_100 1 db).1.notifications
    ≡ "Rule \"errors\" triggered" ∷ []
unfolding evaluate_rules
notified = refl

-- Two agents are in error, which is more than one: but no status is the text `1`.
abbrev counting : AlertRule
counting = record failing { condition_operator = "count_above"; condition_value = "1" }

not_counted : evaluate_agent_rule values db counting 5_100 1 ≡ false
unfolding evaluate_agent_rule
not_counted = refl

-- Deleting a rule that is not there is written into the audit log as well.
delete_missing :
    delete_rule 9 "ada" 1 db
    ≡ (deleted false, audit "alert_rule_deleted" "ada" "Deleted alert rule #9" db)
unfolding delete_rule audit decimal
delete_missing = refl

evaluate_at-Holds_example : Holds 3 failing (evaluate_at values 1 (5_100 ∷ 5_599 ∷ []) db).rules
evaluate_at-Holds_example =
    evaluate_at-Holds values 1 3 5_000 failing (5_100 ∷ 5_599 ∷ []) db refl (omega arith)
      (omega arith, (omega arith, tt)) ((λ e. refl), ((λ e. absurd (ground arith)), tt))

abbrev below_zero : AlertRule
below_zero = record counting { condition_value = "-1" }

always : evaluate_agent_rule values db below_zero 5_100 1 ≡ true
unfolding evaluate_agent_rule
always = refl
