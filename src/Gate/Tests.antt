-- ===== src/Gate/Tests.antt =====
-- Requests at the gate, and the theorem at one of them.
use omni_mission_control.Prelude.{◌≡◌, ◌↔◌, ◌⊎◌, refl, true, false, none, some, starts_with}
use omni_mission_control.Gate.{
  GateEnv, GateRequest, next, forbidden, unauthorized, redirect_to_login, proxy, host_matches,
  is_open_path,
}
use omni_mission_control.Gate.Carried.{HasApiKey, HasSession}
use omni_mission_control.Gate.Passes.{HasAllowedHost, IsForged, proxy_iff}

abbrev production : GateEnv
production = record {
  allow_any_host = none;
  node_env = some "production";
  allowed_hosts = some "mc.example.com, 100.*";
  api_key = some "sesame";
  url_host = λ u. some "evil.example.org";
}

abbrev listing : GateRequest
listing = record {
  method = "get";
  pathname = "/api/tasks";
  url_host = "localhost:3000";
  host = some "mc.example.com:443";
  x_forwarded_host = none;
  origin = none;
  x_api_key = some "sesame";
  session = none;
}

key_passes : proxy production listing ≡ next
unfolding proxy
key_passes = refl

wrong_key : proxy production (record listing { x_api_key = some "open" }) ≡ unauthorized
unfolding proxy
wrong_key = refl

wrong_host : proxy production (record listing { host = some "10.0.0.1" }) ≡ forbidden "Forbidden"
unfolding proxy
wrong_host = refl

forged :
    proxy production (record listing { method = "post"; origin = some "https://evil.example.org" })
    ≡ forbidden "CSRF origin mismatch"
unfolding proxy
forged = refl

page_without_session :
    proxy production (record listing { pathname = "/tasks"; host = some "100.64.0.1" })
    ≡ redirect_to_login
unfolding proxy
page_without_session = refl

-- `*.example.com` is for its subdomains only.
subdomain : host_matches "*.Example.com" "a.example.com" ≡ true
unfolding host_matches
subdomain = refl

bare_domain : host_matches "*.example.com" "example.com" ≡ false
unfolding host_matches
bare_domain = refl

proxy_iff_example : (proxy production listing ≡ next) ↔ (
    HasAllowedHost production listing
    × ¬ IsForged production listing
    × ((is_open_path "/api/tasks" ≡ true)
        ⊎ HasSession listing
        ⊎ (starts_with "/api/" "/api/tasks" ≡ true) × HasApiKey production listing))
proxy_iff_example = proxy_iff production listing
