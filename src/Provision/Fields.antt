-- ===== src/Provision/Fields.antt =====
-- The fields of a bootstrap request in src/lib/super-admin.ts, and how they are read and checked.
-- `path.join` and the working directory are arguments.
use Prim.Native.Char.{code}
use omni_mission_control.Prelude.{
  ℕ, Bool, true, false, ◌&&◌, ◌||◌, Option, none, some, List, [], ◌∷◌, map, String, ltb, leb, ◌==◌,
  if◌then◌else◌, get_or, str_or, is_empty, trim, to_lower, js_length, concat,
}

-- A port of a request: left out (or null, or an empty text), an integer from 0, or another value.
pub data PortField : Type 0 where
  absent : PortField
  port : ℕ → PortField
  no_port : PortField

pub record BootstrapRequest : Type 0 where
  pub slug : String
  pub display_name : String
  pub linux_user : Option String
  pub plan_tier : Option String
  pub gateway_port : PortField
  pub dashboard_port : PortField
  pub dry_run : Option Bool
  pub config : Option String
  pub owner_gateway : Option String

-- `process.env` and the platform.
pub record BootstrapEnv : Type 0 where
  pub template_openclaw_json : Option String
  pub openclaw_home : Option String
  pub repo_root : Option String
  pub cwd : String
  pub tenant_home_root : Option String
  pub tenant_workspace_dirname : Option String
  pub default_owner_gateway : Option String
  pub default_gateway_name : Option String
  pub data_dir : String
  pub join : List String → String

unfoldable pub get_tenant_home_root : BootstrapEnv → String
unfolding trim
get_tenant_home_root env = str_or (some (trim (str_or env.tenant_home_root "/home"))) "/home"

unfoldable pub get_tenant_workspace_dirname : BootstrapEnv → String
unfolding trim
get_tenant_workspace_dirname env =
    str_or (some (trim (str_or env.tenant_workspace_dirname "workspace"))) "workspace"

-- `.replace(/\/+$/g, '')`
unfoldable pub trim_slashes : String → String
trim_slashes String.[] = ""
trim_slashes (String.◌∷◌ c s) =
    let rest = trim_slashes s in if code c == 47 && is_empty rest then "" else String.◌∷◌ c rest

unfoldable pub join_posix : BootstrapEnv → List String → String
unfolding trim_slashes
join_posix env parts = env.join (map trim_slashes parts)

unfoldable pub normalize_slug : String → String
unfolding trim to_lower
normalize_slug input = to_lower (trim input)

unfoldable pub is_alnum : ℕ → Bool
is_alnum c = leb 97 c && leb c 122 || leb 48 c && leb c 57

unfoldable pub is_slug_char : ℕ → Bool
unfolding is_alnum
is_slug_char c = is_alnum c || c == 45

unfoldable pub is_user_char : ℕ → Bool
unfolding is_alnum
is_user_char c = is_alnum c || c == 45 || c == 95

abbrev pub all_chars : (ℕ → Bool) → String → Bool
all_chars p String.[] = true
all_chars p (String.◌∷◌ c s) = p (code c) && all_chars p s

abbrev pub starts_by : (ℕ → Bool) → String → Bool
starts_by p String.[] = false
starts_by p (String.◌∷◌ c s) = p (code c)

abbrev pub ends_by : (ℕ → Bool) → String → Bool
ends_by p String.[] = false
ends_by p (String.◌∷◌ c s) = let rest = ends_by p s in if is_empty s then p (code c) else rest

-- `/^[a-z0-9][a-z0-9-]{1,30}[a-z0-9]$/`
unfoldable pub is_valid_slug : String → Bool
unfolding is_alnum is_slug_char js_length
is_valid_slug s =
    leb 3 (js_length s)
    && leb (js_length s) 32
    && all_chars is_slug_char s
    && starts_by is_alnum s
    && ends_by is_alnum s

-- `/^[a-z_][a-z0-9_-]{1,30}$/`
unfoldable pub is_valid_user : String → Bool
unfolding is_user_char js_length
is_valid_user s =
    leb 2 (js_length s)
    && leb (js_length s) 31
    && all_chars is_user_char s
    && starts_by (λ c. leb 97 c && leb c 122 || c == 95) s

-- `ensurePort` throws.
unfoldable pub is_bad_port : PortField → Bool
is_bad_port absent = false
is_bad_port (port n) = ltb n 1024 || ltb 65535 n
is_bad_port no_port = true

-- What `ensurePort` returns otherwise.
unfoldable pub ensure_port : PortField → Option ℕ
ensure_port absent = none
ensure_port (port n) = some n
ensure_port no_port = none

abbrev pub is_absent : PortField → Bool
is_absent absent = true
is_absent _ = false

unfoldable pub home_template : BootstrapEnv → String
home_template env = elim env.openclaw_home [
  | none ↦ ""
  | some h ↦ if is_empty h then "" else env.join (h ∷ "openclaw.json" ∷ [])
]

unfoldable pub template_path : BootstrapEnv → String
unfolding trim home_template
template_path env = trim (str_or env.template_openclaw_json (home_template env))

unfoldable pub fallback_gateway : BootstrapEnv → String
unfolding trim
fallback_gateway env =
    str_or
      (some (trim (str_or env.default_owner_gateway (str_or env.default_gateway_name "primary"))))
      "primary"

unfoldable pub normalize_owner_gateway : BootstrapEnv → Option String → String
unfolding fallback_gateway trim
normalize_owner_gateway env value = str_or (some (trim (get_or value ""))) (fallback_gateway env)

unfoldable pub linux_user_of : BootstrapRequest → String
unfolding normalize_slug trim to_lower
linux_user_of r = to_lower (trim (str_or r.linux_user (concat "oc-" (normalize_slug r.slug))))
