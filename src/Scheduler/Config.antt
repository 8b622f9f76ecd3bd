-- ===== src/Scheduler/Config.antt =====
-- The two readers of the table `settings` in src/lib/scheduler.ts, with their defaults.
use omni_mission_control.Prelude.{
  ℕ, zero, Bool, Option, none, some, List, find?, String, str_eq, ℤ, pos, parse_int,
}

-- The rows of `settings`, by key; `none` where the table cannot be read.
abbrev pub Settings : Type 0
Settings = Option (List (String × String))

unfoldable pub setting : Settings → String → Option String
setting none key = none
setting (some rows) key = elim (find? (λ r. str_eq r.0 key) rows) [
  | none ↦ none
  | some r ↦ some r.1
]

unfoldable pub is_setting_enabled : Settings → String → Bool → Bool
unfolding setting
is_setting_enabled set key fallback = elim (setting set key) [
  | none ↦ fallback
  | some v ↦ str_eq v "true"
]

-- `parseInt(value) || fallback`
abbrev pub nonzero_or : Option ℤ → ℕ → ℤ
nonzero_or none fallback = pos fallback
nonzero_or (some (pos zero)) fallback = pos fallback
nonzero_or (some n) fallback = n

unfoldable pub get_setting_number : Settings → String → ℕ → ℤ
unfolding setting
get_setting_number set key fallback = elim (setting set key) [
  | none ↦ pos fallback
  | some v ↦ nonzero_or (parse_int v) fallback
]
