-- ===== src/Provision/Accepted.antt =====
-- What a request for a bootstrap must be to be accepted, and what it then stores.
use Prim.Native.Char.{code}
use omni_mission_control.Prelude.{
  ℕ, ◌≤◌, ◌≡◌, ◌⊎◌, refl, sym, ap, inl, inr, true, false, none, some, [], ◌∷◌, ◌++◌, String,
  js_length, ok, Bool-cases, Option-cases, arith, All,
}
use omni_mission_control.Provision.{
  Tenant, JobType, JobStatus, ProvisionJob, ProvisionDb, append_provision_event,
}
use omni_mission_control.Provision.Fields.{
  PortField, port, absent, no_port, BootstrapEnv, BootstrapRequest, is_alnum, is_slug_char,
  is_user_char, all_chars, is_valid_slug, is_valid_user, is_bad_port, ensure_port, is_absent,
  normalize_slug, linux_user_of,
}
use omni_mission_control.Provision.Bootstrap.{
  bootstrap_guards, new_tenant, bootstrap_job, insert_bootstrap, log_tenant_audit, has_slug,
  has_linux_user, create_tenant_and_bootstrap_job,
}
use omni_mission_control.Provision.Execute.{first_holding}
use omni_mission_control.Provision.Refusals.{first_holding-none}
use omni_mission_control.Provision.Kept.{ok_inj, not_ok}

-- Every character satisfies a predicate on its code.
abbrev pub AllChars : (ℕ → Type 0) → String → Type 0
AllChars P String.[] = Unit
AllChars P (String.◌∷◌ c s) = P (code c) × AllChars P s

-- A small letter, a digit, a dash, or an underscore: nothing that a shell or a path reads.
abbrev pub IsPlain : ℕ → Type 0
IsPlain c = (97 ≤ c) × (c ≤ 122) ⊎ (48 ≤ c) × (c ≤ 57) ⊎ (c ≡ 45) ⊎ (c ≡ 95)

slug_chars : (s : String) → all_chars is_slug_char s ≡ true → AllChars IsPlain s
unfolding is_slug_char is_alnum
slug_chars String.[] h = tt
slug_chars (String.◌∷◌ c s) h = (ground arith, slug_chars s (ground arith))

user_chars : (s : String) → all_chars is_user_char s ≡ true → AllChars IsPlain s
unfolding is_user_char is_alnum
user_chars String.[] h = tt
user_chars (String.◌∷◌ c s) h = (ground arith, user_chars s (ground arith))

valid_slug :
    (s : String)
    → is_valid_slug s ≡ true
    → AllChars IsPlain s × ((3 ≤ js_length s) × (js_length s ≤ 32))
unfolding is_valid_slug
valid_slug s h = (slug_chars s (ground arith), (ground arith, ground arith))

valid_user :
    (s : String)
    → is_valid_user s ≡ true
    → AllChars IsPlain s × ((2 ≤ js_length s) × (js_length s ≤ 31))
unfolding is_valid_user
valid_user s h = (user_chars s (ground arith), (ground arith, ground arith))

-- An accepted port is in the range of ports that need no privilege.
abbrev pub IsPort : ℕ → Type 0
IsPort n = (1_024 ≤ n) × (n ≤ 65_535)

-- The tenant and the job that a request stores.
pub record IsStored (db db' : ProvisionDb) (actor : String) (t : Tenant) (j : ProvisionJob)
    : Type 0 where
  pub tenants : db'.tenants ≡ db.tenants ++ t ∷ []
  pub jobs : db'.jobs ≡ db.jobs ++ j ∷ []
  pub new_slug : has_slug t.slug db.tenants ≡ false
  pub new_user : has_linux_user t.linux_user db.tenants ≡ false
  pub plain_slug : AllChars IsPlain t.slug
  pub plain_user : AllChars IsPlain t.linux_user
  pub slug_length : (3 ≤ js_length t.slug) × (js_length t.slug ≤ 32)
  pub user_length : (2 ≤ js_length t.linux_user) × (js_length t.linux_user ≤ 31)
  pub gateway : (n : ℕ) × (t.gateway_port ≡ some n) × IsPort n
  pub of_tenant : (j.tenant_id ≡ t.id) × (j.job_type ≡ JobType.bootstrap)
  pub unapproved : (j.status ≡ JobStatus.queued) × (j.approved_by ≡ none) × (j.requested_by ≡ actor)

ensure_port-IsPort :
    (f : PortField)
    → is_bad_port f ≡ false
    → is_absent f ≡ false
    → (n : ℕ) × (ensure_port f ≡ some n) × IsPort n
unfolding is_bad_port ensure_port
ensure_port-IsPort absent b a = cc
ensure_port-IsPort (port n) b a = (n, refl, (ground arith, ground arith))
ensure_port-IsPort no_port b a = cc

-- What an insertion that succeeds has checked and done.
Inserted : BootstrapEnv → BootstrapRequest → String → ℕ → ProvisionDb → ProvisionDb → Type 0
Inserted env r actor now db db' =
    (has_slug (new_tenant env r actor db.next_tenant now).slug db.tenants ≡ false)
    × (has_linux_user (new_tenant env r actor db.next_tenant now).linux_user db.tenants ≡ false)
    × (db'.tenants ≡ db.tenants ++ new_tenant env r actor db.next_tenant now ∷ [])
    × (db'.jobs
        ≡ db.jobs
          ++ bootstrap_job env r actor db.next_job now (new_tenant env r actor db.next_tenant now)
            ∷ [])

insert_bootstrap-Inserted :
    (env : BootstrapEnv) (r : BootstrapRequest) (actor : String) (now : ℕ) (db db' : ProvisionDb)
    → insert_bootstrap env r actor now db ≡ ok db'
    → Inserted env r actor now db db'
unfolding insert_bootstrap Inserted append_provision_event log_tenant_audit
insert_bootstrap-Inserted env r actor now db db' e =
    let t : Tenant = new_tenant env r actor db.next_tenant now in
    elim (Bool-cases (has_slug t.slug db.tenants)) [
      | inl taken ↦ absurd (not_ok (rw taken at e))
      | inr new ↦ elim (Bool-cases (has_linux_user t.linux_user db.tenants)) [
        | inl taken ↦ absurd (not_ok (rw (new, taken) at e))
        | inr user ↦
            let same = ok_inj _ db' (rw (new, user) at e) in
            (
              new,
              user,
              sym (ap (λ (d : ProvisionDb). d.tenants) same),
              sym (ap (λ (d : ProvisionDb). d.jobs) same),
            )
      ]
    ]

new_tenant-IsStored :
    (env : BootstrapEnv) (r : BootstrapRequest) (actor : String) (now : ℕ) (db db' : ProvisionDb)
    → All (λ g. g.0 ≡ false) (bootstrap_guards env r)
    → Inserted env r actor now db db'
    → (t : Tenant) × (j : ProvisionJob) × IsStored db db' actor t j
unfolding bootstrap_guards Inserted new_tenant bootstrap_job
new_tenant-IsStored env r actor now db db'
      (template, (slug, (name, (user, (gateway, (dashboard, (owner, (given, rest))))))))
      (new_slug, new_user, tenants, jobs) =
    let s = valid_slug (normalize_slug r.slug) (ground arith) in
    let u = valid_user (linux_user_of r) (ground arith) in
    (
      new_tenant env r actor db.next_tenant now,
      bootstrap_job env r actor db.next_job now (new_tenant env r actor db.next_tenant now),
      record {
        tenants = tenants;
        jobs = jobs;
        new_slug = new_slug;
        new_user = new_user;
        plain_slug = s.0;
        plain_user = u.0;
        slug_length = s.1;
        user_length = u.1;
        gateway = ensure_port-IsPort r.gateway_port gateway given;
        of_tenant = (refl, refl);
        unapproved = (refl, refl, refl);
      },
    )

-- A request that is accepted stores one tenant, with a slug and a linux user that no other tenant has,
-- made of small letters, digits, dashes and underscores only, of the lengths that the messages give, and
-- with a gateway port from 1024 to 65535; and one job for its bootstrap, which waits for an approval.
pub create_tenant_and_bootstrap_job-IsStored :
    (env : BootstrapEnv) (r : BootstrapRequest) (actor : String) (now : ℕ) (db db' : ProvisionDb)
    → create_tenant_and_bootstrap_job env r actor now db ≡ ok db'
    → (t : Tenant) × (j : ProvisionJob) × IsStored db db' actor t j
unfolding create_tenant_and_bootstrap_job
create_tenant_and_bootstrap_job-IsStored env r actor now db db' e =
    elim (Option-cases (first_holding (bootstrap_guards env r))) [
      | inr (message, f) ↦ absurd (not_ok (rw (create_tenant_and_bootstrap_job, f) at e))
      | inl f ↦
          new_tenant-IsStored env r actor now db db' (first_holding-none (bootstrap_guards env r) f)
            (insert_bootstrap-Inserted env r actor now db db'
              (rw (create_tenant_and_bootstrap_job, f) at e))
    ]
