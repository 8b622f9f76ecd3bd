-- ===== src/Webhooks/Delay.antt =====
-- How long a failed delivery waits.
use omni_mission_control.Prelude.{ℕ, zero, suc, ◌*◌, ◌≤◌, ◌<◌, ◌≡◌, min, arith}
use omni_mission_control.Webhooks.{random_range, next_retry_delay}

-- The step of the schedule; the last one serves all later attempts.
abbrev pub base_of : ℕ → ℕ
base_of zero = 30
base_of (suc zero) = 300
base_of (suc (suc zero)) = 1800
base_of (suc (suc (suc zero))) = 7200
base_of (suc (suc (suc (suc n)))) = 28800

-- The wait is within a fifth of the schedule's step, whatever the random number.
pub next_retry_delay-bounds :
    (attempt random : ℕ)
    → random < random_range
    → (4 * base_of attempt ≤ 5 * next_retry_delay attempt random)
      × (5 * next_retry_delay attempt random ≤ 6 * base_of attempt)
unfolding next_retry_delay
next_retry_delay-bounds zero random l = (omega arith, omega arith)
next_retry_delay-bounds (suc zero) random l = (omega arith, omega arith)
next_retry_delay-bounds (suc (suc zero)) random l = (omega arith, omega arith)
next_retry_delay-bounds (suc (suc (suc zero))) random l = (omega arith, omega arith)
next_retry_delay-bounds (suc (suc (suc (suc n)))) random l =
    let last : min (suc (suc (suc (suc n)))) 4 ≡ 4 = omega arith in
    rw (last, next_retry_delay) (omega arith, omega arith)
