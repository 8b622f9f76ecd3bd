-- ===== src/Provision/Final.antt =====
-- A job that is completed or cancelled stays as it is.
use omni_mission_control.Prelude.{
  some_inj, ℕ, ◌≡◌, refl, sym, ap, ◌∙◌, ◌⊎◌, inl, inr, false, Option, some, List, [], ◌∷◌, String,
  ◌==◌, Result, ok, throw, arith, ==_iff, Bool-cases, Option-cases, trim, get_or,
}
use mathlib.Core.Path.{subst}
use omni_mission_control.Provision.{
  JobStatus, ProvisionJob, ProvisionDb, find_job, get_provision_job, update_job,
  append_provision_event, log_audit_event,
}
use omni_mission_control.Provision.Transition.{
  JobAction, approve, reject, cancel, is_immutable, allows, apply_action, note_action,
  transition_found, transition_provision_job_status,
}
use omni_mission_control.Provision.Execute.{is_approved, execute_provision_job}
use omni_mission_control.Provision.Steps.{ProvisionEnv}
use omni_mission_control.Provision.TwoPerson.{execute-found, execute-missing}
use omni_mission_control.Provision.Kept.{
  update-OthersKept, get_provision_job-found, unequal, execute_found-OthersKept,
  execute_found-unapproved,
}

abbrev pub IsFinal : JobStatus → Type 0
IsFinal s = (s ≡ JobStatus.completed) ⊎ (s ≡ JobStatus.cancelled)

final-not_approved : (s : JobStatus) → IsFinal s → is_approved s ≡ false
final-not_approved s h = ground arith

-- A request to the provisioning routes, with the clock.
pub data Request : Type 0 where
  transition : ℕ → String → JobAction → Option String → ℕ → Request
  execute : ProvisionEnv → ℕ → String → ℕ → ℕ → Request

abbrev pub after : ProvisionDb → Result ProvisionDb → ProvisionDb
after db (ok db') = db'
after db (throw message) = db

unfoldable pub serve : List Request → ProvisionDb → ProvisionDb
serve [] db = db
serve (transition id actor action reason now ∷ qs) db =
    serve qs (after db (transition_provision_job_status id actor action reason now db))
serve (execute env id actor now later ∷ qs) db =
    serve qs (execute_provision_job env id actor now later db).0

-- The job that a request does not name is found as before, and the one that it names is not final.
abbrev Keeps : ProvisionDb → ProvisionDb → Type 0
Keeps db db' =
    (k : ℕ) (x : ProvisionJob)
    → find_job k db.jobs ≡ some x
    → IsFinal x.status
    → find_job k db'.jobs ≡ some x

same_job :
    (k i : ℕ) (js : List ProvisionJob) (x j : ProvisionJob)
    → find_job k js ≡ some x
    → find_job i js ≡ some j
    → k ≡ i
    → x ≡ j
same_job k i js x j e f g = some_inj x j (sym e ∙ ap (λ n. find_job n js) g ∙ f)

execute-Keeps :
    (env : ProvisionEnv) (id : ℕ) (actor : String) (now later : ℕ) (db : ProvisionDb)
    → Keeps db (execute_provision_job env id actor now later db).0
execute-Keeps env id actor now later db k x e h = elim (Option-cases (get_provision_job id db)) [
  | inl n ↦
      ap (λ (d : ProvisionDb). find_job k d.jobs) (execute-missing env id actor now later db n) ∙ e
  | inr ((j, t), f) ↦
      let (found, at_id) = get_provision_job-found id db j t f in
      let eq = execute-found env id actor now later db j t f in
      ap (λ (r : ProvisionDb × Option String). find_job k r.0.jobs) eq
      ∙ elim (Bool-cases (k == j.id)) [
        | inl s ↦
            let same : x ≡ j = same_job k id db.jobs x j e found ((==_iff k j.id).0 s ∙ at_id) in
            ap (λ (d : ProvisionDb). find_job k d.jobs)
              (execute_found-unapproved env actor now later j t db (
                final-not_approved j.status
                  (subst (λ (z : ProvisionJob). IsFinal z.status) same h)))
            ∙ e
        | inr s ↦ execute_found-OthersKept env actor now later j t db k (unequal k j.id s) ∙ e
      ]
]

update-Keeps :
    (id : ℕ) (f : ProvisionJob → ProvisionJob) (db : ProvisionDb) (j : ProvisionJob)
    → ((x : ProvisionJob) → (f x).id ≡ x.id)
    → find_job id db.jobs ≡ some j
    → (IsFinal j.status → ⊥)
    → Keeps db (update_job id f db)
update-Keeps id f db j keep found open_job k x e h = elim (Bool-cases (k == id)) [
  | inl s ↦
      let same : x ≡ j = same_job k id db.jobs x j e found ((==_iff k id).0 s) in
      absurd (open_job (subst (λ (z : ProvisionJob). IsFinal z.status) same h))
  | inr s ↦ update-OthersKept id f db.jobs keep k (unequal k id s) ∙ e
]

action-id :
    (a : JobAction) (actor : String) (now : ℕ) (x : ProvisionJob)
    → (apply_action a actor now x).id ≡ x.id
action-id approve actor now x = refl
action-id reject actor now x = refl
action-id cancel actor now x = refl

note-jobs :
    (a : JobAction) (id : ℕ) (actor reason : String) (db : ProvisionDb)
    → (note_action a id actor reason db).jobs ≡ db.jobs
unfolding append_provision_event
note-jobs approve id actor reason db = refl
note-jobs reject id actor reason db = refl
note-jobs cancel id actor reason db = refl

final-immutable : (s : JobStatus) → is_immutable s ≡ false → IsFinal s → ⊥
final-immutable s e h = ground arith

transition_found-Keeps :
    (id : ℕ) (actor : String) (a : JobAction) (reason : String) (j : ProvisionJob) (now : ℕ)
    (db : ProvisionDb)
    → find_job id db.jobs ≡ some j
    → Keeps db (after db (transition_found id actor a reason j now db))
unfolding log_audit_event
transition_found-Keeps id actor a reason j now db found k x e h =
    elim (Bool-cases (is_immutable j.status)) [
      | inl i ↦ rw i e
      | inr i ↦ elim (Bool-cases (allows a j.status)) [
        | inl g ↦
            rw (i, g)
              (ap (find_job k)
                  (note-jobs a id actor reason (update_job id (apply_action a actor now) db))
                ∙ update-Keeps id (apply_action a actor now) db j (action-id a actor now) found
                    (final-immutable j.status i) k x e h)
        | inr g ↦ rw (i, g) e
      ]
    ]

transition-Keeps :
    (id : ℕ) (actor : String) (a : JobAction) (reason : Option String) (now : ℕ) (db : ProvisionDb)
    → Keeps db (after db (transition_provision_job_status id actor a reason now db))
unfolding transition_provision_job_status
transition-Keeps id actor a reason now db k x e h = elim (Option-cases (get_provision_job id db)) [
  | inl n ↦ rw (n, transition_provision_job_status) e
  | inr ((j, t), f) ↦
      rw (f, transition_provision_job_status)
        (transition_found-Keeps id actor a (trim (get_or reason "")) j now db
          (get_provision_job-found id db j t f).0 k x e h)
]

-- Whatever transitions and runs are asked for: a job that is completed or cancelled stays as it is.
pub serve-IsFinal :
    (qs : List Request) (db : ProvisionDb) (k : ℕ) (x : ProvisionJob)
    → find_job k db.jobs ≡ some x
    → IsFinal x.status
    → find_job k (serve qs db).jobs ≡ some x
unfolding serve
serve-IsFinal [] db k x e h = e
serve-IsFinal (transition id actor a reason now ∷ qs) db k x e h =
    serve-IsFinal qs (after db (transition_provision_job_status id actor a reason now db)) k x
      (transition-Keeps id actor a reason now db k x e h) h
serve-IsFinal (execute env id actor now later ∷ qs) db k x e h =
    serve-IsFinal qs (execute_provision_job env id actor now later db).0 k x
      (execute-Keeps env id actor now later db k x e h) h
