-- ===== src/Gate.antt =====
-- src/proxy.ts: what every request passes before its handler. The environment and the parts of the
-- request are arguments; so is the host of an origin's URL, which the platform parses.
pub mod Carried
pub mod Passes
mod Tests
use omni_mission_control.Prelude.{
  ℕ, Bool, true, false, not, ◌&&◌, ◌||◌, Option, none, some, List, [], ◌∷◌, map, filter, any,
  String, str_eq, is_empty, is_some, get_or, str_or, truthy, trim, split, before_sep, but_last,
  to_lower, to_upper, starts_with, ends_with, concat, if◌then◌else◌,
}
use omni_mission_control.Auth.{safe_compare}

-- `process.env`, and `new URL(origin).host`, `none` where it throws.
pub record GateEnv : Type 0 where
  pub allow_any_host : Option String
  pub node_env : Option String
  pub allowed_hosts : Option String
  pub api_key : Option String
  pub url_host : String → Option String

pub record GateRequest : Type 0 where
  pub method : String
  pub pathname : String
  pub url_host : String
  pub host : Option String
  pub x_forwarded_host : Option String
  pub origin : Option String
  pub x_api_key : Option String
  pub session : Option String

pub data GateAnswer : Type 0 where
  next : GateAnswer
  forbidden : String → GateAnswer
  unauthorized : GateAnswer
  redirect_to_login : GateAnswer

unfoldable pub flag_value : String → Bool
flag_value v = str_eq v "1" || str_eq v "true" || str_eq v "yes" || str_eq v "on"

unfoldable pub env_flag : Option String → Bool
unfolding flag_value trim to_lower
env_flag none = false
env_flag (some raw) = flag_value (to_lower (trim raw))

unfoldable pub get_request_hostname : GateRequest → String
unfolding before_sep trim
get_request_hostname r =
    before_sep 58 (trim (before_sep 44 (str_or r.x_forwarded_host (str_or r.host ""))))

abbrev pub drop_two : String → String
drop_two String.[] = ""
drop_two (String.◌∷◌ c String.[]) = ""
drop_two (String.◌∷◌ c (String.◌∷◌ d s)) = s

unfoldable pub pattern_matches : String → String → Bool
unfolding starts_with ends_with but_last
pattern_matches p h =
    if is_empty p || is_empty h
    then false
    else if starts_with "*." p
    then ends_with (concat "." (drop_two p)) h
    else if ends_with ".*" p
    then starts_with (but_last p) h
    else str_eq h p

unfoldable pub host_matches : String → String → Bool
unfolding pattern_matches trim to_lower
host_matches pattern hostname = pattern_matches (to_lower (trim pattern)) (to_lower (trim hostname))

-- `MC_ALLOWED_HOSTS`, split at its commas.
unfoldable pub allowed_patterns : GateEnv → List String
unfolding split trim
allowed_patterns env =
    filter (λ s. not (is_empty s)) (map trim (split 44 (str_or env.allowed_hosts "")))

unfoldable pub is_allowed_host : GateEnv → GateRequest → Bool
unfolding env_flag get_request_hostname host_matches allowed_patterns
is_allowed_host env r =
    env_flag env.allow_any_host
    || not (str_eq (get_or env.node_env "") "production")
    || any (λ p. host_matches p (get_request_hostname r)) (allowed_patterns env)

unfoldable pub is_mutating : GateRequest → Bool
unfolding to_upper
is_mutating r =
    let method = to_upper r.method in
    str_eq method "POST" || str_eq method "PUT" || str_eq method "DELETE" || str_eq method "PATCH"

-- `request.headers.get('host')?.split(',')[0]?.trim() || request.nextUrl.host || ''`
unfoldable pub request_host : GateRequest → String
unfolding before_sep trim
request_host r = elim r.host [
  | none ↦ r.url_host
  | some h ↦ str_or (some (trim (before_sep 44 h))) r.url_host
]

-- The origin names another host than the request; an origin whose host is not known is let through.
unfoldable pub origin_mismatch : GateEnv → GateRequest → Bool
unfolding request_host
origin_mismatch env r = elim (truthy r.origin) [
  | none ↦ false
  | some origin ↦
      let origin_host = get_or (env.url_host origin) "" in
      not (is_empty origin_host)
      && not (is_empty (request_host r))
      && not (str_eq origin_host (request_host r))
]

unfoldable pub is_open_path : String → Bool
unfolding starts_with
is_open_path path =
    str_eq path "/login"
    || starts_with "/api/auth/" path
    || str_eq path "/api/docs"
    || str_eq path "/docs"

-- `apiKey && safeCompare(apiKey, process.env.API_KEY || '')`
unfoldable pub has_api_key : GateEnv → GateRequest → Bool
unfolding safe_compare
has_api_key env r = elim (truthy r.x_api_key) [
  | none ↦ false
  | some key ↦ safe_compare key (str_or env.api_key "")
]

unfoldable pub proxy : GateEnv → GateRequest → GateAnswer
unfolding is_allowed_host is_mutating origin_mismatch is_open_path has_api_key starts_with
proxy env r =
    let session = is_some (truthy r.session) in
    if not (is_allowed_host env r)
    then forbidden "Forbidden"
    else if is_mutating r && origin_mismatch env r
    then forbidden "CSRF origin mismatch"
    else if is_open_path r.pathname
    then next
    else if starts_with "/api/" r.pathname
    then (if session || has_api_key env r then next else unauthorized)
    else if session
    then next
    else redirect_to_login
