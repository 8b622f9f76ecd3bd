-- ===== src/RateLimit/Verdict.antt =====
-- How many requests of one address pass within a window.
use omni_mission_control.Prelude.{
  ℕ, ◌+◌, ◌-◌, ◌≤◌, ◌≡◌, refl, min, Option, none, some, List, [], ◌∷◌, String, arith, leb, str_eq,
  eq_iff, if◌then◌else◌, All, is_some, Bool-cases, Option-cases, inl, inr,
}
use omni_mission_control.RateLimit.{
  RateLimitEntry, RateLimiterOptions, Store, get, put, cleanup, check_ip, live,
}

pub get-put :
    (i j : String) (e : RateLimitEntry) (s : Store)
    → get j (put i e s) ≡ (if str_eq i j then some e else get j s)
unfolding get put
get-put i j e [] = refl
get-put i j e ((k, d) ∷ s) = ground (arith, eq_iff i j, eq_iff k i, eq_iff k j, get-put i j e s)

-- A live entry outlives a cleanup, as the first entry of its key.
pub get-cleanup :
    (now : ℕ) (i : String) (s : Store) {e : RateLimitEntry}
    → get i s ≡ some e
    → now ≤ e.reset_at
    → get i (cleanup now s) ≡ some e
unfolding get cleanup
get-cleanup now i [] h l = ground arith
get-cleanup now i ((k, d) ∷ s) {e} h l = ground (arith, eq_iff k i, get-cleanup now i s {e = e})

-- What happens to a limiter: a request from an address, or the periodic cleanup.
pub data Event : Type 0 where
  request : String → ℕ → Event
  sweep : ℕ → Event

abbrev pub time : Event → ℕ
time (request ip now) = now
time (sweep now) = now

abbrev pub step : RateLimiterOptions → Event → Store → Store
step o (request ip now) s = (check_ip o ip now s).0
step o (sweep now) s = cleanup now s

abbrev passes : RateLimiterOptions → String → Event → Store → ℕ
passes o ip (request j now) s =
    if str_eq j ip then (if is_some (check_ip o j now s).1 then 0 else 1) else 0
passes o ip (sweep now) s = 0

-- How many requests of `ip` a run of events lets through, and how many it holds.
unfoldable pub passed : RateLimiterOptions → String → List Event → Store → ℕ
passed o ip [] s = 0
passed o ip (ev ∷ evs) s = passes o ip ev s + passed o ip evs (step o ev s)

abbrev sent : String → Event → ℕ
sent ip (request j now) = if str_eq j ip then 1 else 0
sent ip (sweep now) = 0

sent-le-one : (ip : String) (ev : Event) → sent ip ev ≤ 1
sent-le-one ip (request j now) = ground arith
sent-le-one ip (sweep now) = omega arith

unfoldable pub requests : String → List Event → ℕ
requests ip [] = 0
requests ip (ev ∷ evs) = sent ip ev + requests ip evs

-- The entry that a request leaves behind.
abbrev pub bumped : RateLimiterOptions → ℕ → Option RateLimitEntry → RateLimitEntry
bumped o now none = record { count = 1; reset_at = now + o.window_ms }
bumped o now (some e) = record e { count = e.count + 1 }

-- A request rewrites the entry of its own address and no other.
pub get-check_ip :
    (o : RateLimiterOptions) (j ip : String) (now : ℕ) (s : Store)
    → get ip (check_ip o j now s).0
      ≡ (if str_eq j ip then some (bumped o now (live now (get j s))) else get ip s)
unfolding check_ip
get-check_ip o j ip now s = elim (Option-cases (live now (get j s))) [
  | inl e ↦ rw (e, check_ip) (get-put j ip (bumped o now none) s)
  | inr (d, e) ↦ rw (e, check_ip) (get-put j ip (bumped o now (some d)) s)
]

-- An entry in its window stays the entry of its address, with one more request counted for each.
live_step :
    (o : RateLimiterOptions) (ip : String) (ev : Event) (s : Store) {e : RateLimitEntry}
    → get ip s ≡ some e
    → time ev ≤ e.reset_at
    → (get ip (step o ev s) ≡ some (record e { count = e.count + sent ip ev }))
      × (passes o ip ev s ≡ (if leb (e.count + 1) o.max_requests then sent ip ev else 0))
live_step o ip (request j now) s {e} h l = elim (Bool-cases (str_eq j ip)) [
  | inl same ↦ (
    ground (arith, eq_iff j ip, get-check_ip o j ip now s),
    unfold check_ip in ground (arith, eq_iff j ip),
  )
  | inr other ↦ (ground (arith, get-check_ip o j ip now s), ground arith)
]
live_step o ip (sweep now) s {e} h l = (ground (arith, get-cleanup now ip s {e = e}), ground arith)

-- While a window lasts, of the requests of an address exactly those pass that the count leaves.
pub passed_live :
    (o : RateLimiterOptions) (ip : String) (evs : List Event) (s : Store) (e : RateLimitEntry)
    → get ip s ≡ some e
    → All (λ ev. time ev ≤ e.reset_at) evs
    → passed o ip evs s ≡ min (requests ip evs) (o.max_requests - e.count)
unfolding passed requests
passed_live o ip [] s e h l = omega arith
passed_live o ip (ev ∷ evs) s e h (l, ls) =
    let (kept, here) = live_step o ip ev s h l in
    ground (
      arith,
      passed_live o ip evs (step o ev s) (record e { count = e.count + sent ip ev }) kept ls,
      here,
      sent-le-one ip ev,
    )

-- If an address has no entry, or one whose window is over, then its next request, at time t, passes,
-- and of its requests up to the time t + window_ms exactly the first max_requests - 1 pass, whatever
-- other addresses send and whenever the cleanup runs.
pub window_quota :
    (o : RateLimiterOptions) (ip : String) (t : ℕ) (evs : List Event) (s : Store)
    → live t (get ip s) ≡ none
    → All (λ ev. time ev ≤ t + o.window_ms) evs
    → passed o ip (request ip t ∷ evs) s ≡ 1 + min (requests ip evs) (o.max_requests - 1)
unfolding passed check_ip
window_quota o ip t evs s h ls =
    let e : RateLimitEntry = bumped o t none in
    let opened : get ip (check_ip o ip t s).0 ≡ some e =
      ground (arith, eq_iff ip ip, get-check_ip o ip ip t s) in
    let verdict : (check_ip o ip t s).1 ≡ none = rw (h, check_ip) refl in
    ground
      (arith, eq_iff ip ip, opened, verdict, passed_live o ip evs (check_ip o ip t s).0 e opened ls)
