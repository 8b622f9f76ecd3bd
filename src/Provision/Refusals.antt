-- ===== src/Provision/Refusals.antt =====
-- The refusals of `executeProvisionJob`: what a job that is not refused has.
use omni_mission_control.Prelude.{
  ◌≡◌, ◌≢◌, refl, inl, inr, Bool, true, false, not, ◌&&◌, Option, none, some, List, [], ◌∷◌, String,
  str_eq, is_empty, get_or, arith, eq_iff, All, Bool-cases,
}
use mathlib.Core.Path.{subst}
use omni_mission_control.Provision.{ProvisionJob, JobStatus}
use omni_mission_control.Provision.Execute.{refusal, first_holding, guards, is_approved}

pub status-approved : (s : JobStatus) → is_approved s ≡ true → s ≡ JobStatus.approved
status-approved s e = ground arith

pub not-false : (b : Bool) → not b ≡ false → b ≡ true
not-false true e = refl
not-false false e = absurd (cc)

pub some-none : {s : String} → some s ≡ none → ⊥
some-none e = cc

pub first_holding-none :
    (gs : List (Bool × String)) → first_holding gs ≡ none → All (λ g. g.0 ≡ false) gs
first_holding-none [] e = tt
first_holding-none (g ∷ gs) e = elim (Bool-cases (g.0)) [
  | inl h ↦ absurd (some-none (rw h at e))
  | inr h ↦ (h, first_holding-none gs (rw h at e))
]

pub approver :
    (o : Option String)
    → is_empty (get_or o "") ≡ false
    → (a : String) × (o ≡ some a) × (get_or o "" ≡ a)
approver none e = absurd (cc)
approver (some a) e = (a, refl, refl)

pub apart : (dry : Bool) (s t : String) → not dry && str_eq s t ≡ false → dry ≡ false → s ≢ t
apart true s t g d = absurd (cc)
apart false s t g d = λ e. ground (arith, eq_iff s t)

pub refusal-none :
    (j : ProvisionJob) (actor : String)
    → refusal j actor ≡ none
    → j.dry_run ≡ false
    → (is_approved j.status ≡ true)
      × ((a : String) × (j.approved_by ≡ some a) × (a ≢ j.requested_by) × (a ≢ actor))
refusal-none j actor r d =
    let by : String = get_or j.approved_by "" in
    let (status, (plan, (dry, (named, (requester, (runner, rest)))))) =
      first_holding-none (guards j actor) r in
    let (a, given, same) = approver j.approved_by named in
    (
      not-false (is_approved j.status) status,
      (
        a,
        given,
        subst (λ s. s ≢ j.requested_by) same (apart j.dry_run by j.requested_by requester d),
        subst (λ s. s ≢ actor) same (apart j.dry_run by actor runner d),
      ),
    )
