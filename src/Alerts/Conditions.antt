-- ===== src/Alerts/Conditions.antt =====
-- The conditions of alert rules in src/app/api/alerts/route.ts.
use omni_mission_control.Prelude.{
  ℕ, suc, ◌+◌, ◌-◌, ◌*◌, Bool, true, false, not, ◌&&◌, Option, none, some, any, count, String,
  str_eq, ltb, ◌==◌, if◌then◌else◌, ℤ, pos, negsuc, parse_int, decimal, includes, to_lower,
}
use omni_mission_control.Alerts.{
  AlertRule, AgentRow, TaskRow, ActivityRow, AlertDb, Cell, null, integer, text, Values,
}

abbrev pub optional_text : Option String → Cell
optional_text none = null
optional_text (some s) = text s

abbrev pub optional_integer : Option ℕ → Cell
optional_integer none = null
optional_integer (some n) = integer n

-- `safeColumn('agents', field)`: the columns of the whitelist, and `id` for any other.
unfoldable pub agent_column : String → AgentRow → Cell
agent_column field a =
    if str_eq field "status"
    then text a.status
    else if str_eq field "role"
    then text a.role
    else if str_eq field "name"
    then text a.name
    else if str_eq field "last_seen"
    then optional_integer a.last_seen
    else if str_eq field "last_activity"
    then optional_text a.last_activity
    else integer a.id

unfoldable pub task_column : String → TaskRow → Cell
task_column field t =
    if str_eq field "status"
    then text t.status
    else if str_eq field "priority"
    then text t.priority
    else if str_eq field "assigned_to"
    then optional_text t.assigned_to
    else if str_eq field "title"
    then text t.title
    else integer t.id

unfoldable pub activity_column : String → ActivityRow → Cell
activity_column field a =
    if str_eq field "type"
    then text a.kind
    else if str_eq field "actor"
    then text a.actor
    else if str_eq field "entity_type"
    then text a.entity_type
    else integer a.id

module _ (values : Values) where
  -- `column = ?` with a text
  unfoldable pub equals_text : String → Cell → Bool
  equals_text v null = false
  equals_text v (integer n) = elim (values.as_integer v) [ none ↦ false | some k ↦ n == k ]
  equals_text v (text s) = str_eq s v

  -- `column < ?` with a number that may be below 0
  unfoldable pub is_below : ℤ → Cell → Bool
  is_below limit null = false
  is_below (pos k) (integer n) = ltb n k
  is_below (negsuc k) (integer n) = false
  is_below limit (text s) = values.text_below s limit

  -- `compareValue`; `Number(a) < Number(b)` is the other one turned round.
  unfoldable pub compare_texts : String → String → String → Bool
  unfolding includes to_lower
  compare_texts actual operator expected =
      if str_eq operator "equals"
      then str_eq actual expected
      else if str_eq operator "not_equals"
      then not (str_eq actual expected)
      else if str_eq operator "greater_than"
      then values.above actual expected
      else if str_eq operator "less_than"
      then values.above expected actual
      else if str_eq operator "contains"
      then includes (to_lower expected) (to_lower actual)
      else false

  unfoldable pub compare_value : Cell → String → String → Bool
  unfolding compare_texts decimal
  compare_value null operator expected = false
  compare_value (integer n) operator expected = compare_texts (decimal n) operator expected
  compare_value (text s) operator expected = compare_texts s operator expected

  -- `count > parseInt(value)` and `count < parseInt(value)`; a comparison with `NaN` is false.
  unfoldable pub exceeds : ℕ → Option ℤ → Bool
  exceeds n none = false
  exceeds n (some (pos k)) = ltb k n
  exceeds n (some (negsuc k)) = true

  unfoldable pub falls_short : ℕ → Option ℤ → Bool
  falls_short n none = false
  falls_short n (some (pos k)) = ltb n k
  falls_short n (some (negsuc k)) = false

  -- `now - minutes * 60`
  unfoldable pub minutes_ago : ℕ → ℤ → ℤ
  minutes_ago now (pos m) =
      if ltb now (m * 60) then negsuc (m * 60 - now - 1) else pos (now - m * 60)
  minutes_ago now (negsuc m) = pos (now + suc m * 60)

  unfoldable pub is_aged : ℕ → Option ℤ → Cell → Bool
  unfolding is_below minutes_ago
  is_aged now none cell = false
  is_aged now (some minutes) cell = is_below (minutes_ago now minutes) cell

  unfoldable pub evaluate_agent_rule : AlertDb → AlertRule → ℕ → ℕ → Bool
  unfolding agent_column equals_text exceeds falls_short is_aged compare_value parse_int
  evaluate_agent_rule db r now w =
      let number = parse_int r.condition_value in
      let matching =
        count
          (λ (a : AgentRow).
            a.workspace_id == w && equals_text r.condition_value (agent_column r.condition_field a))
          db.agents in
      let online = λ (a : AgentRow). a.workspace_id == w && not (str_eq a.status "offline") in
      let aged =
        any (λ (a : AgentRow). online a && is_aged now number (agent_column r.condition_field a))
          db.agents in
      if str_eq r.condition_operator "count_above"
      then exceeds matching number
      else if str_eq r.condition_operator "count_below"
      then falls_short matching number
      else if str_eq r.condition_operator "age_minutes_above"
      then aged
      else any
          (λ (a : AgentRow).
            online a
            && compare_value (agent_column r.condition_field a) r.condition_operator
                r.condition_value)
          db.agents

  unfoldable pub evaluate_task_rule : AlertDb → AlertRule → ℕ → Bool
  unfolding task_column equals_text exceeds falls_short compare_value parse_int
  evaluate_task_rule db r w =
      let number = parse_int r.condition_value in
      let matching =
        count
          (λ (t : TaskRow).
            t.workspace_id == w && equals_text r.condition_value (task_column r.condition_field t))
          db.tasks in
      let all_tasks = count (λ (t : TaskRow). t.workspace_id == w) db.tasks in
      if str_eq r.condition_operator "count_above"
      then exceeds matching number
      else if str_eq r.condition_operator "count_below"
      then falls_short all_tasks number
      else any
          (λ (t : TaskRow).
            t.workspace_id == w
            && compare_value (task_column r.condition_field t) r.condition_operator
                r.condition_value)
          db.tasks

  unfoldable pub evaluate_session_rule : AlertDb → AlertRule → ℕ → Bool
  unfolding exceeds parse_int
  evaluate_session_rule db r w =
      let busy =
        count (λ (a : AgentRow). a.workspace_id == w && str_eq a.status "busy") db.agents in
      str_eq r.condition_operator "count_above" && exceeds busy (parse_int r.condition_value)

  -- Those of the last hour count.
  unfoldable pub evaluate_activity_rule : AlertDb → AlertRule → ℕ → ℕ → Bool
  unfolding activity_column equals_text exceeds parse_int
  evaluate_activity_rule db r now w =
      let matching =
        count
          (λ (a : ActivityRow).
            a.workspace_id == w
            && ltb now (a.created_at + 3_600)
            && equals_text r.condition_value (activity_column r.condition_field a))
          db.activities in
      str_eq r.condition_operator "count_above" && exceeds matching (parse_int r.condition_value)

  unfoldable pub evaluate_rule : AlertDb → AlertRule → ℕ → ℕ → Bool
  unfolding evaluate_agent_rule evaluate_task_rule evaluate_session_rule evaluate_activity_rule
  evaluate_rule db r now w =
      if str_eq r.entity_type "agent"
      then evaluate_agent_rule db r now w
      else if str_eq r.entity_type "task"
      then evaluate_task_rule db r w
      else if str_eq r.entity_type "session"
      then evaluate_session_rule db r w
      else if str_eq r.entity_type "activity"
      then evaluate_activity_rule db r now w
      else false
