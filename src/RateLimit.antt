-- ===== src/RateLimit.antt =====
-- src/lib/rate-limit.ts: the in-memory limiter that guards the API routes. `Date.now()` is an
-- argument, in milliseconds; the `Map` of a limiter is an association list in insertion order.
pub mod Client
pub mod Verdict
pub mod Cleanup
mod Tests
use omni_mission_control.Prelude.{
  ℕ, ◌+◌, Bool, true, false, not, ◌&&◌, Option, none, some, List, [], ◌∷◌, String, reverse, map,
  filter, ltb, str_eq, if◌then◌else◌, any, find?, trim, split, truthy, str_or,
}

pub record RateLimitEntry : Type 0 where
  pub count : ℕ
  pub reset_at : ℕ

pub record RateLimiterOptions : Type 0 where
  pub window_ms : ℕ
  pub max_requests : ℕ
  pub message : Option String
  pub critical : Bool

-- The headers that the limiter reads.
pub record Headers : Type 0 where
  pub x_forwarded_for : Option String
  pub x_real_ip : Option String

-- What `NextResponse.json` is given.
pub record Response : Type 0 where
  pub error : String
  pub status : ℕ

abbrev pub Store : Type 0
Store = List (String × RateLimitEntry)

-- `Set.has`
unfoldable pub has : List String → String → Bool
has trusted ip = any (λ t. str_eq t ip) trusted

-- `(MC_TRUSTED_PROXIES || '').split(',').map(trim).filter(Boolean)`
unfoldable pub trusted_proxies : Option String → List String
trusted_proxies env = filter (λ s. not (str_eq s "")) (map trim (split b',' (str_or env "")))

-- The loop from the right end of the chain to the first address that is no trusted proxy.
unfoldable pub rightmost_untrusted : List String → List String → Option String
unfolding has
rightmost_untrusted trusted ips = find? (λ ip. not (has trusted ip)) (reverse ips)

abbrev or_real_ip : Option String → Headers → String
or_real_ip (some ip) h = ip
or_real_ip none h = elim h.x_real_ip [
  | none ↦ "unknown"
  | some s ↦ str_or (some (trim s)) "unknown"
]

abbrev any_trusted : List String → Bool
any_trusted [] = false
any_trusted (t ∷ ts) = true

unfoldable pub extract_client_ip : List String → Headers → String
unfolding rightmost_untrusted
extract_client_ip trusted h = elim (truthy h.x_forwarded_for) [
  | none ↦ or_real_ip none h
  | some xff ↦
      if any_trusted trusted
      then or_real_ip (rightmost_untrusted trusted (map trim (split b',' xff))) h
      else or_real_ip none h
]

-- `Map.get` and `Map.set`
unfoldable pub get : String → Store → Option RateLimitEntry
get ip [] = none
get ip ((k, e) ∷ store) = if str_eq k ip then some e else get ip store

unfoldable pub put : String → RateLimitEntry → Store → Store
put ip e [] = (ip, e) ∷ []
put ip e ((k, d) ∷ store) = if str_eq k ip then (k, e) ∷ store else (k, d) ∷ put ip e store

-- One run of the periodic cleanup.
unfoldable pub cleanup : ℕ → Store → Store
cleanup now [] = []
cleanup now ((k, e) ∷ store) =
    let rest = cleanup now store in if ltb e.reset_at now then rest else (k, e) ∷ rest

-- The entry that `store.get(ip)` gives, unless there is none or its window is over.
abbrev pub live : ℕ → Option RateLimitEntry → Option RateLimitEntry
live now none = none
live now (some e) = if ltb e.reset_at now then none else some e

abbrev pub refusal : RateLimiterOptions → Response
refusal o = record {
  error = str_or o.message "Too many requests. Please try again later.";
  status = 429;
}

-- The body of `checkRateLimit` once the address is known.
unfoldable pub check_ip : RateLimiterOptions → String → ℕ → Store → Store × Option Response
unfolding get put
check_ip o ip now store = elim (live now (get ip store)) [
  | none ↦ (put ip (record { count = 1; reset_at = now + o.window_ms }) store, none)
  | some e ↦ (
    put ip (record e { count = e.count + 1 }) store,
    if ltb o.max_requests (e.count + 1) then some (refusal o) else none,
  )
]

-- `disabled` is `MC_DISABLE_RATE_LIMIT === '1'`.
unfoldable pub check_rate_limit :
    RateLimiterOptions → List String → Bool → Headers → ℕ → Store → Store × Option Response
unfolding check_ip extract_client_ip
check_rate_limit o trusted disabled h now store =
    if disabled && not o.critical
    then (store, none)
    else check_ip o (extract_client_ip trusted h) now store

abbrev pub login_limiter : RateLimiterOptions
login_limiter = record {
  window_ms = 60000;
  max_requests = 5;
  message = some "Too many login attempts. Try again in a minute.";
  critical = true;
}

abbrev pub mutation_limiter : RateLimiterOptions
mutation_limiter = record { window_ms = 60000; max_requests = 60; message = none; critical = false }

abbrev pub read_limiter : RateLimiterOptions
read_limiter = record { window_ms = 60000; max_requests = 120; message = none; critical = false }

abbrev pub heavy_limiter : RateLimiterOptions
heavy_limiter = record {
  window_ms = 60000;
  max_requests = 10;
  message = some "Too many requests for this resource. Please try again later.";
  critical = false;
}
