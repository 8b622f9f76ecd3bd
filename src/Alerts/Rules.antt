-- ===== src/Alerts/Rules.antt =====
-- Creating, changing and deleting alert rules in src/app/api/alerts/route.ts, after the role check and
-- the rate limiter. A new rule is one that the schema of src/lib/validation.ts accepts.
use omni_mission_control.Prelude.{
  ℕ, ◌+◌, Bool, true, not, ◌&&◌, ◌||◌, Option, none, some, [], ◌∷◌, ◌++◌, map, filter, find?, any,
  String, is_some, str_or, truthy, concat, decimal, ◌==◌, if◌then◌else◌,
}
use omni_mission_control.Alerts.{AlertRule, AlertDb}

pub record NewRule : Type 0 where
  pub name : String
  pub description : Option String
  pub entity_type : String
  pub condition_field : String
  pub condition_operator : String
  pub condition_value : String
  pub action_type : Option String
  pub recipient : Option String
  pub cooldown_minutes : Option ℕ

-- The keys of a PUT that are allowed, where the body has them; a column takes what is given.
pub record RuleUpdates : Type 0 where
  pub name : Option String
  pub description : Option (Option String)
  pub enabled : Option Bool
  pub entity_type : Option String
  pub condition_field : Option String
  pub condition_operator : Option String
  pub condition_value : Option String
  pub action_type : Option String
  pub recipient : Option (Option String)
  pub cooldown_minutes : Option ℕ

pub data AlertAnswer : Type 0 where
  rule : AlertRule → ℕ → AlertAnswer
  deleted : Bool → AlertAnswer
  error : String → ℕ → AlertAnswer

-- `n || d`
abbrev pub number_or : Option ℕ → ℕ → ℕ
number_or none d = d
number_or (some n) d = if n == 0 then d else n

unfoldable pub new_rule : NewRule → String → ℕ → ℕ → ℕ → AlertRule
new_rule r user id w now = record {
  id = id;
  workspace_id = w;
  name = r.name;
  description = truthy r.description;
  enabled = true;
  entity_type = r.entity_type;
  condition_field = r.condition_field;
  condition_operator = r.condition_operator;
  condition_value = r.condition_value;
  action_type = str_or r.action_type "notification";
  recipient = r.recipient;
  cooldown_minutes = number_or r.cooldown_minutes 60;
  last_triggered_at = none;
  trigger_count = 0;
  created_by = user;
  updated_at = now;
}

unfoldable pub audit : String → String → String → AlertDb → AlertDb
audit action user detail db = record db {
  audit_log = db.audit_log ++ record { action = action; actor = user; detail = detail } ∷ [];
}

-- POST with a new rule
unfoldable pub create_rule : NewRule → String → ℕ → ℕ → AlertDb → AlertAnswer × AlertDb
unfolding new_rule audit
create_rule r user w now db =
    let made = new_rule r user db.next_rule w now in
    (
      rule made 201,
      audit "alert_rule_created" user (concat "Created alert rule: " r.name)
          (record db { rules = db.rules ++ made ∷ []; next_rule = db.next_rule + 1 }),
    )

-- `WHERE id = ? AND workspace_id = ?`
abbrev pub is_rule : ℕ → ℕ → AlertRule → Bool
is_rule id w r = r.id == id && r.workspace_id == w

unfoldable pub has_updates : RuleUpdates → Bool
has_updates u =
    is_some u.name
    || is_some u.description
    || is_some u.enabled
    || is_some u.entity_type
    || is_some u.condition_field
    || is_some u.condition_operator
    || is_some u.condition_value
    || is_some u.action_type
    || is_some u.recipient
    || is_some u.cooldown_minutes

abbrev pub updated {ℓ} : {A : Type ℓ} → Option A → A → A
updated none old = old
updated (some new) old = new

unfoldable pub apply_updates : RuleUpdates → ℕ → AlertRule → AlertRule
apply_updates u now r = record r {
  name = updated u.name r.name;
  description = updated u.description r.description;
  enabled = updated u.enabled r.enabled;
  entity_type = updated u.entity_type r.entity_type;
  condition_field = updated u.condition_field r.condition_field;
  condition_operator = updated u.condition_operator r.condition_operator;
  condition_value = updated u.condition_value r.condition_value;
  action_type = updated u.action_type r.action_type;
  recipient = updated u.recipient r.recipient;
  cooldown_minutes = updated u.cooldown_minutes r.cooldown_minutes;
  updated_at = now;
}

-- PUT, which answers the row that it finds afterwards
unfoldable pub update_rule : ℕ → RuleUpdates → ℕ → ℕ → AlertDb → AlertAnswer × AlertDb
unfolding has_updates apply_updates
update_rule id u w now db =
    if id == 0 then (error "id is required" 400, db) else elim (find? (is_rule id w) db.rules) [
      | none ↦ (error "Rule not found" 404, db)
      | some r ↦
          if has_updates u
          then (
            rule (apply_updates u now r) 200,
            record db {
              rules = map (λ r. if is_rule id w r then apply_updates u now r else r) db.rules;
            },
          )
          else (error "No valid fields to update" 400, db)
    ]

-- DELETE, which writes its audit row whether a rule was there or not
unfoldable pub delete_rule : ℕ → String → ℕ → AlertDb → AlertAnswer × AlertDb
unfolding audit
delete_rule id user w db = if id == 0 then (error "id is required" 400, db) else (
  deleted (any (is_rule id w) db.rules),
  audit "alert_rule_deleted" user (concat "Deleted alert rule #" (decimal id))
      (record db { rules = filter (λ r. not (is_rule id w r)) db.rules }),
)
