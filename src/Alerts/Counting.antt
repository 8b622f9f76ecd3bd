-- ===== src/Alerts/Counting.antt =====
-- The `count_above` rules of src/app/api/alerts/route.ts use one value as the text that the column must
-- have and as the number that the count must exceed.
use omni_mission_control.Prelude.{
  ℕ, ◌≡◌, ◌≢◌, ◌⊎◌, refl, sym, ap, ◌∙◌, inl, inr, Bool, true, false, ◌&&◌, Option, none, some, List,
  [], ◌∷◌, count, String, str_eq, eq_iff, ◌==◌, Bool-cases, Option-cases, All, ℤ, pos, negsuc,
  parse_int, arith,
}
use omni_mission_control.Alerts.{AlertRule, AgentRow, AlertDb, Values}
use omni_mission_control.Alerts.Cooldown.{false-ne-true}
use omni_mission_control.Alerts.Conditions.{agent_column, equals_text, exceeds, evaluate_agent_rule}

-- What the program writes into the column `status` of `agents`.
abbrev pub IsAgentStatus : String → Type 0
IsAgentStatus s = (s ≡ "offline") ⊎ (s ≡ "idle") ⊎ (s ≡ "busy") ⊎ (s ≡ "error")

-- None of them is a number.
parse_int-IsAgentStatus : (s : String) → IsAgentStatus s → parse_int s ≡ none
unfolding parse_int
parse_int-IsAgentStatus s (inl e) = rw e refl
parse_int-IsAgentStatus s (inr (inl e)) = rw e refl
parse_int-IsAgentStatus s (inr (inr (inl e))) = rw e refl
parse_int-IsAgentStatus s (inr (inr (inr e))) = rw e refl

none-ne-some : (n : ℤ) → none ≢ some n
none-ne-some n e = cc

abbrev matches : Values → ℕ → String → AgentRow → Bool
matches values w v a = a.workspace_id == w && equals_text values v (agent_column "status" a)

matches-none :
    (values : Values) (w : ℕ) (v : String) (n : ℤ) (a : AgentRow)
    → parse_int v ≡ some n
    → IsAgentStatus a.status
    → matches values w v a ≡ false
unfolding equals_text agent_column
matches-none values w v n a e s = elim (Bool-cases (str_eq a.status v)) [
  | inl same ↦ absurd (
      none-ne-some n
        (sym (parse_int-IsAgentStatus a.status s) ∙ ap parse_int ((eq_iff a.status v).0 same) ∙ e))
  | inr other ↦ ground (arith, other)
]

count-matches :
    (values : Values) (w : ℕ) (v : String) (n : ℤ) (xs : List AgentRow)
    → parse_int v ≡ some n
    → All (λ a. IsAgentStatus a.status) xs
    → count (matches values w v) xs ≡ 0
count-matches values w v n [] e s = refl
count-matches values w v n (a ∷ xs) e (s, ss) =
    rw (matches-none values w v n a e s) (count-matches values w v n xs e ss)

counts :
    (values : Values) (db : AlertDb) (r : AlertRule) (now w : ℕ)
    → r.condition_operator ≡ "count_above"
    → r.condition_field ≡ "status"
    → evaluate_agent_rule values db r now w
      ≡ exceeds values
          (count (matches values w r.condition_value) db.agents)
          (parse_int r.condition_value)
unfolding evaluate_agent_rule
counts values db r now w o f = rw (o, f) refl

exceeds-zero :
    (values : Values) (number : Option ℤ)
    → exceeds values 0 number ≡ true
    → (k : ℕ) × (number ≡ some (negsuc k))
unfolding exceeds
exceeds-zero values none h = cc
exceeds-zero values (some (pos k)) h = absurd (ground arith)
exceeds-zero values (some (negsuc k)) h = (k, refl)

exceeds-nan : (values : Values) (n : ℕ) → exceeds values n none ≡ false
unfolding exceeds
exceeds-nan values n = refl

-- A rule that counts the agents of a status above a number, where each agent has one of the four
-- statuses: if it holds, its number is below 0. So it never holds for a number from 0 on, however many
-- agents have whatever status.
pub count_above-negative :
    (values : Values) (db : AlertDb) (r : AlertRule) (now w : ℕ)
    → All (λ a. IsAgentStatus a.status) db.agents
    → r.condition_operator ≡ "count_above"
    → r.condition_field ≡ "status"
    → evaluate_agent_rule values db r now w ≡ true
    → (k : ℕ) × (parse_int r.condition_value ≡ some (negsuc k))
count_above-negative values db r now w s o f h =
    let matching = count (matches values w r.condition_value) db.agents in
    let holds = sym (counts values db r now w o f) ∙ h in
    elim (Option-cases (parse_int r.condition_value)) [
      | inl e ↦ absurd (
          false-ne-true
            (sym (exceeds-nan values matching) ∙ ap (exceeds values matching) (sym e) ∙ holds))
      | inr (n, e) ↦ exceeds-zero values (parse_int r.condition_value) (
          ap (λ m. exceeds values m (parse_int r.condition_value))
            (sym (count-matches values w r.condition_value n db.agents e s))
          ∙ holds)
    ]
