-- ===== src/Alerts/Evaluate.antt =====
-- `evaluateRules` of src/app/api/alerts/route.ts: the enabled rules of a workspace, with their cooldown.
use omni_mission_control.Prelude.{
  ℕ, ◌+◌, ◌*◌, Bool, false, not, ◌&&◌, Option, none, some, List, [], ◌∷◌, ◌++◌, map, filter, String,
  str_or, concat, ltb, ◌==◌, if◌then◌else◌,
}
use omni_mission_control.Alerts.{AlertRule, AlertNotification, AlertDb, Values}
use omni_mission_control.Alerts.Conditions.{evaluate_rule}

-- `last_triggered_at && now - last_triggered_at < cooldown_minutes * 60`
abbrev pub cools : ℕ → Option ℕ → ℕ → Bool
cools now none minutes = false
cools now (some last) minutes = not (last == 0) && ltb now (last + minutes * 60)

abbrev pub in_cooldown : ℕ → AlertRule → Bool
in_cooldown now r = cools now r.last_triggered_at r.cooldown_minutes

pub record Evaluation : Type 0 where
  pub rule_id : ℕ
  pub rule_name : String
  pub triggered : Bool
  pub reason : String

abbrev pub triggered_at : ℕ → AlertRule → AlertRule
triggered_at now r = record r { last_triggered_at = some now; trigger_count = r.trigger_count + 1 }

-- `UPDATE alert_rules SET last_triggered_at = ?, trigger_count = trigger_count + 1 WHERE id = ?`
unfoldable pub track_trigger : ℕ → ℕ → List AlertRule → List AlertRule
track_trigger now id = map λ r. if r.id == id then triggered_at now r else r

unfoldable pub alert_notification : AlertRule → ℕ → AlertNotification
alert_notification r w = record {
  recipient = str_or r.recipient "system";
  title = concat "Alert: " r.name;
  message = str_or r.description (concat "Rule \"" (concat r.name "\" triggered"));
  source_id = r.id;
  workspace_id = w;
}

unfoldable pub trigger : ℕ → ℕ → AlertRule → AlertDb → AlertDb
unfolding track_trigger alert_notification
trigger now w r db = record db {
  rules = track_trigger now r.id db.rules;
  notifications = db.notifications ++ alert_notification r w ∷ [];
}

-- The body of the loop, on a rule as it was read before the loop.
unfoldable pub rule_fires : Values → ℕ → ℕ → AlertDb → AlertRule → Bool
unfolding evaluate_rule
rule_fires values now w db r = not (in_cooldown now r) && evaluate_rule values db r now w

unfoldable pub evaluation : Values → ℕ → ℕ → AlertDb → AlertRule → Evaluation
unfolding rule_fires
evaluation values now w db r =
    let fired = rule_fires values now w db r in
    record {
      rule_id = r.id;
      rule_name = r.name;
      triggered = fired;
      reason =
          if in_cooldown now r
          then "In cooldown"
          else if fired
          then "Condition met"
          else "Condition not met";
    }

unfoldable pub evaluate_all : Values → ℕ → ℕ → List AlertRule → AlertDb → List Evaluation × AlertDb
unfolding evaluation rule_fires trigger
evaluate_all values now w [] db = ([], db)
evaluate_all values now w (r ∷ rs) db =
    let e = evaluation values now w db r in
    let (met, db_met) = evaluate_all values now w rs (trigger now w r db) in
    let (unmet, db_unmet) = evaluate_all values now w rs db in
    if rule_fires values now w db r then (e ∷ met, db_met) else (e ∷ unmet, db_unmet)

abbrev pub is_active : ℕ → AlertRule → Bool
is_active w r = r.enabled && r.workspace_id == w

unfoldable pub evaluate_rules : Values → ℕ → ℕ → AlertDb → List Evaluation × AlertDb
unfolding evaluate_all
evaluate_rules values now w db = evaluate_all values now w (filter (is_active w) db.rules) db
