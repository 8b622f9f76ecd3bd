-- ===== src/Provision/Plan.antt =====
-- `buildBootstrapPlan` and `buildDecommissionPlan` of src/lib/super-admin.ts. `artifact_dir` and
-- `home_dir` are the tenant's directories below the data directory and the home root.
use omni_mission_control.Prelude.{
  ℕ, ◌≡◌, refl, Bool, true, false, not, ◌&&◌, some, List, [], ◌∷◌, ◌++◌, String, concat, str_eq,
  any, if◌then◌else◌,
}
use omni_mission_control.Provision.{ProvisionStep}

pub record PlanTenant : Type 0 where
  pub slug : String
  pub linux_user : String
  pub openclaw_home : String
  pub workspace_root : String

abbrev pub root_step : String → String → List String → ℕ → ProvisionStep
root_step key title command timeout = record {
  key = key;
  title = title;
  command = command;
  requires_root = true;
  timeout_ms = some timeout;
}

-- `/usr/bin/install -d -m 0750 -o owner -g owner dir`
abbrev pub install_dir : String → String → List String
install_dir owner dir =
    "/usr/bin/install" ∷ "-d" ∷ "-m" ∷ "0750" ∷ "-o" ∷ owner ∷ "-g" ∷ owner ∷ dir ∷ []

abbrev pub service_of : PlanTenant → String
service_of t = concat "openclaw-gateway@" (concat t.linux_user ".service")

abbrev pub env_file_of : PlanTenant → String
env_file_of t = concat "/etc/openclaw-tenants/" (concat t.linux_user ".env")

unfoldable pub build_bootstrap_plan :
    String → String → String → String → PlanTenant → List ProvisionStep
build_bootstrap_plan artifact_dir home_dir template_json systemd_template t =
    root_step "create-linux-user" (concat "Create linux user " t.linux_user)
      ("/usr/sbin/useradd" ∷ "-m" ∷ "-s" ∷ "/bin/bash" ∷ t.linux_user ∷ []) 10000
    ∷ root_step "create-openclaw-state" (concat "Create OpenClaw state directory " t.openclaw_home)
        (install_dir t.linux_user t.openclaw_home) 10000
    ∷ root_step "create-workspace-root" (concat "Create workspace root " t.workspace_root)
        (install_dir t.linux_user t.workspace_root) 10000
    ∷ root_step "seed-openclaw-template" "Seed base OpenClaw config scaffold"
        ("/usr/bin/cp" ∷ "-n" ∷ template_json ∷ concat t.openclaw_home "/openclaw.json" ∷ []) 12000
    ∷ root_step "set-owner-home" (concat "Ensure ownership of " home_dir)
        ("/usr/bin/chown" ∷ "-R" ∷ concat t.linux_user (concat ":" t.linux_user) ∷ home_dir ∷ [])
        20000
    ∷ root_step "ensure-openclaw-tenants-dir" "Ensure /etc/openclaw-tenants exists"
        (install_dir "root" "/etc/openclaw-tenants") 5000
    ∷ root_step "install-gateway-systemd-template" "Install openclaw-gateway@.service template"
        ("/usr/bin/cp" ∷ "-n" ∷ systemd_template ∷ "/etc/systemd/system/openclaw-gateway@.service"
          ∷ [])
        5000
    ∷ root_step "install-tenant-gateway-env" "Install tenant gateway env file"
        ("/usr/bin/cp" ∷ "-f" ∷ concat artifact_dir "/openclaw-gateway.env" ∷ env_file_of t ∷ [])
        5000
    ∷ root_step "systemd-daemon-reload" "Reload systemd units"
        ("/usr/bin/systemctl" ∷ "daemon-reload" ∷ []) 10000
    ∷ root_step "enable-start-gateway" (concat "Enable/start " (service_of t))
        ("/usr/bin/systemctl" ∷ "enable" ∷ "--now" ∷ service_of t ∷ []) 5000
    ∷ []

abbrev pub remove_dir : String → String → ProvisionStep
remove_dir key dir = root_step key (concat "Remove " dir) ("/usr/bin/rm" ∷ "-rf" ∷ dir ∷ []) 10000

unfoldable pub build_decommission_plan : Bool → Bool → PlanTenant → List ProvisionStep
build_decommission_plan remove_linux_user remove_state_dirs t =
    root_step "disable-stop-gateway" (concat "Disable/stop " (service_of t))
        ("/usr/bin/systemctl" ∷ "disable" ∷ "--now" ∷ service_of t ∷ []) 10000
      ∷ root_step "remove-tenant-gateway-env" (concat "Remove " (env_file_of t))
          ("/usr/bin/rm" ∷ "-f" ∷ env_file_of t ∷ []) 5000
      ∷ (if remove_state_dirs && not remove_linux_user
          then remove_dir "remove-openclaw-state-dir" t.openclaw_home
            ∷ remove_dir "remove-workspace-dir" t.workspace_root
            ∷ []
          else [])
    ++ (if remove_linux_user
        then root_step "remove-linux-user" (concat "Remove linux user " t.linux_user)
            ("/usr/sbin/userdel" ∷ "-r" ∷ t.linux_user ∷ []) 15000
          ∷ []
        else [])

-- Whether a command begins with a program and an option.
abbrev pub begins_with : String → String → List String → Bool
begins_with program option (p ∷ o ∷ args) = str_eq p program && str_eq o option
begins_with program option _ = false

abbrev pub deletes_dirs : ProvisionStep → Bool
deletes_dirs s = begins_with "/usr/bin/rm" "-rf" s.command

abbrev pub deletes_user : ProvisionStep → Bool
deletes_user s = begins_with "/usr/sbin/userdel" "-r" s.command

-- A decommission deletes the tenant's directories, or the linux user with its home, exactly when the
-- request asks for it; where it asks for both, only the user is deleted.
pub build_decommission_plan-deletes :
    (user dirs : Bool) (t : PlanTenant)
    → (any deletes_dirs (build_decommission_plan user dirs t) ≡ (dirs && not user))
      × (any deletes_user (build_decommission_plan user dirs t) ≡ user)
unfolding build_decommission_plan
build_decommission_plan-deletes true true t = (refl, refl)
build_decommission_plan-deletes true false t = (refl, refl)
build_decommission_plan-deletes false true t = (refl, refl)
build_decommission_plan-deletes false false t = (refl, refl)
