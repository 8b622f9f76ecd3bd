-- ===== src/RateLimit/Tests.antt =====
-- Runs of the limiter, and instances of its theorems.
use omni_mission_control.Prelude.{
  ◌+◌, ◌≡◌, refl, min, true, none, some, List, [], ◌∷◌, String, arith, ◌⊎◌, map, trim, split,
}
use omni_mission_control.RateLimit.{
  Headers, RateLimiterOptions, login_limiter, mutation_limiter, check_rate_limit, check_ip, cleanup,
  get, trusted_proxies, extract_client_ip, or_real_ip,
}
use omni_mission_control.RateLimit.Client.{IsRightmostUntrusted, AllTrusted, extract_client_ip_lem}
use omni_mission_control.RateLimit.Verdict.{Event, request, sweep, passed, requests, window_quota}
use omni_mission_control.RateLimit.Cleanup.{verdicts, without_sweeps, verdicts-without_sweeps}

abbrev chain : Headers
chain = record { x_forwarded_for = some "6.6.6.6, 1.2.3.4 ,10.0.0.1"; x_real_ip = some " 9.9.9.9 " }

abbrev proxies : List String
proxies = "10.0.0.1" ∷ "10.0.0.2" ∷ []

proxies_parsed : trusted_proxies (some "10.0.0.1, 10.0.0.2,,") ≡ proxies
unfolding trusted_proxies trim split
proxies_parsed = refl

chain_client : extract_client_ip proxies chain ≡ "1.2.3.4"
unfolding extract_client_ip trim split
chain_client = refl

chain_no_proxies : extract_client_ip [] chain ≡ "9.9.9.9"
unfolding extract_client_ip trim split
chain_no_proxies = refl

abbrev one_left : RateLimiterOptions
one_left = record login_limiter { max_requests = 2 }

abbrev busy : List Event
busy =
    request "a" 10
    ∷ request "b" 20
    ∷ sweep 30
    ∷ request "a" 40
    ∷ request "a" 50
    ∷ request "a" 60
    ∷ []

busy-passed : passed one_left "a" busy [] ≡ 2
unfolding passed check_ip cleanup
busy-passed = refl

disabled_limiters :
    ((check_rate_limit mutation_limiter [] true chain 5 []).0 ≡ [])
    × ((check_rate_limit login_limiter [] true chain 5 []).0
        ≡ ("9.9.9.9", record { count = 1; reset_at = 60005 }) ∷ [])
unfolding check_rate_limit trim split
disabled_limiters = (refl, refl)

window_quota_example :
    passed one_left "a" busy []
    ≡ 1
      + min
          (requests "a"
            (request "b" 20 ∷ sweep 30 ∷ request "a" 40 ∷ request "a" 50 ∷ request "a" 60 ∷ []))
          1
unfolding get
window_quota_example = window_quota one_left "a" 10 _ [] refl (omega arith)

verdicts-without_sweeps_example :
    verdicts one_left busy [] ≡ verdicts one_left (without_sweeps busy) []
verdicts-without_sweeps_example = verdicts-without_sweeps one_left 0 busy [] (omega arith) tt

extract_client_ip_lem_example :
    let ips = map trim (split b',' "6.6.6.6, 1.2.3.4 ,10.0.0.1") in
    IsRightmostUntrusted proxies ips (extract_client_ip proxies chain)
    ⊎ (AllTrusted proxies ips × (extract_client_ip proxies chain ≡ or_real_ip none chain))
extract_client_ip_lem_example =
    extract_client_ip_lem proxies chain "6.6.6.6, 1.2.3.4 ,10.0.0.1" refl refl
