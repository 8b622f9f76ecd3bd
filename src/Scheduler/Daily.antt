-- ===== src/Scheduler/Daily.antt =====
-- When the two daily tasks of src/lib/scheduler.ts run first.
use omni_mission_control.Prelude.{ℕ, ◌+◌, ◌*◌, ◌%◌, ◌<◌, ◌≤◌, ◌≡◌, arith}
use omni_mission_control.Scheduler.{next_daily, get_next_daily_ms, daily_ms, hour_ms}

-- The wait until an hour of the day, below 24, is longer than 0 ms and at most a day, and ends at
-- exactly that hour.
pub get_next_daily_ms_lem :
    (hour now : ℕ)
    → hour < 24
    → (0 < get_next_daily_ms hour now)
      × (get_next_daily_ms hour now ≤ daily_ms)
      × ((now + get_next_daily_ms hour now) % daily_ms ≡ hour * hour_ms)
unfolding get_next_daily_ms next_daily
get_next_daily_ms_lem hour now h = ground arith
