-- ===== src/Scheduler/Cleaned.antt =====
-- What a cleanup of src/lib/scheduler.ts leaves, and that it settles.
use omni_mission_control.Prelude.{
  ℕ, zero, suc, ◌-◌, ◌*◌, ◌/◌, ◌≡◌, refl, ap, ◌∙◌, Bool, true, not, Option, none, some, List, [],
  ◌∷◌, ◌++◌, filter, ltb, Bool-cases, ℤ, pos, negsuc, decimal, ok, inl, inr, arith,
}
use omni_mission_control.Scheduler.Upkeep.{Office, UsageRow, log_audit, total_deleted}
use omni_mission_control.Scheduler.Upkeep.Cleanup.{
  Retention, keep_recent, keep_usage, delete_old, stored, cleaned, run_cleanup,
}

module _ {ℓ} {A : Type ℓ} where
  filter_twice : (p : A → Bool) (xs : List A) → filter p (filter p xs) ≡ filter p xs
  filter_twice p [] = refl
  filter_twice p (x ∷ xs) = elim (Bool-cases (p x)) [
    | inl e ↦ rw (e, e) (ap (λ ys. x ∷ ys) (filter_twice p xs))
    | inr e ↦ rw e (filter_twice p xs)
  ]

  filter-append_last :
      (p : A → Bool) (xs : List A) (x : A)
      → p x ≡ true
      → filter p (xs ++ x ∷ []) ≡ filter p xs ++ x ∷ []
  filter-append_last p [] x e = rw e refl
  filter-append_last p (y ∷ xs) x e = elim (Bool-cases (p y)) [
    | inl k ↦ rw k (ap (λ zs. y ∷ zs) (filter-append_last p xs x e))
    | inr k ↦ rw k (filter-append_last p xs x e)
  ]

  keep_recent_twice :
      (created : A → ℕ) (unit now : ℕ) (days : ℤ) (xs : List A)
      → keep_recent created unit now days (keep_recent created unit now days xs)
        ≡ keep_recent created unit now days xs
  unfolding keep_recent
  keep_recent_twice created unit now (pos zero) xs = refl
  keep_recent_twice created unit now (pos (suc d)) xs = filter_twice _ xs
  keep_recent_twice created unit now (negsuc n) xs = refl

  -- A row of the present stays.
  keep_recent-append :
      (created : A → ℕ) (unit now : ℕ) (days : ℤ) (xs : List A) (x : A)
      → created x ≡ now
      → keep_recent created unit now days (xs ++ x ∷ [])
        ≡ keep_recent created unit now days xs ++ x ∷ []
  unfolding keep_recent
  keep_recent-append created unit now (pos zero) xs x e = refl
  keep_recent-append created unit now (pos (suc d)) xs x e =
      filter-append_last (λ r. not (ltb (created r) (now - suc d * unit))) xs x (ground arith)
  keep_recent-append created unit now (negsuc n) xs x e = refl

keep_usage_twice :
    (now : ℕ) (days : ℤ) (us : Option (List UsageRow))
    → keep_usage now days (keep_usage now days us) ≡ keep_usage now days us
unfolding keep_usage
keep_usage_twice now days none = refl
keep_usage_twice now days (some rows) = ap some (keep_recent_twice _ 86_400_000 now days rows)

module _ (ret : Retention) (ms : ℕ) where
  delete_old_twice : (o : Office) → delete_old ret ms (delete_old ret ms o) ≡ delete_old ret ms o
  unfolding delete_old
  delete_old_twice o =
      rw
        (
          keep_recent_twice (λ r. r.created_at) 86_400 (ms / 1_000) ret.activities o.activities,
          keep_recent_twice (λ r. r.created_at) 86_400 (ms / 1_000) ret.audit_log o.audit_log,
          keep_recent_twice (λ r. r.created_at) 86_400 (ms / 1_000) ret.notifications
              o.notifications,
          keep_recent_twice (λ r. r.created_at) 86_400 (ms / 1_000) ret.pipeline_runs
              o.pipeline_runs,
          keep_usage_twice ms ret.token_usage o.usage,
        )
        refl

  -- The audit row of this cleanup is of the present.
  delete_old-log_audit :
      (n : ℕ) (o : Office)
      → delete_old ret ms (log_audit "auto_cleanup" (total_deleted n) (ms / 1_000) o)
        ≡ log_audit "auto_cleanup" (total_deleted n) (ms / 1_000) (delete_old ret ms o)
  unfolding delete_old log_audit
  delete_old-log_audit n o =
      ap (λ rows. record (delete_old ret ms o) { audit_log = rows })
        (keep_recent-append (λ r. r.created_at) 86_400 (ms / 1_000) ret.audit_log o.audit_log
          (record {
            action = "auto_cleanup";
            actor = "scheduler";
            detail = total_deleted n;
            created_at = ms / 1_000;
          })
          refl)

  -- A second cleanup.
  cleanup_settled :
      (o : Office)
      → delete_old ret ms o ≡ o
      → run_cleanup ret ms o ≡ (ok (record { ok = true; message = "Cleaned 0 stale records" }), o)
  unfolding run_cleanup cleaned decimal
  cleanup_settled o e =
      let none_deleted : stored o - stored o ≡ 0 = omega arith in
      ap (λ kept. cleaned (stored o - stored kept) ms kept) e
      ∙ ap (λ n. cleaned n ms o) none_deleted

  -- A cleanup settles: a second one at the same time deletes nothing, not even the audit row of the
  -- first, reports `Cleaned 0 stale records` and leaves all as it is.
  pub run_cleanup-settles :
      (o : Office)
      → run_cleanup ret ms (run_cleanup ret ms o).1
        ≡ (ok (record { ok = true; message = "Cleaned 0 stale records" }), (run_cleanup ret ms o).1)
  unfolding run_cleanup cleaned
  run_cleanup-settles o = elim (Bool-cases (ltb 0 (stored o - stored (delete_old ret ms o)))) [
    | inl some_deleted ↦ rw some_deleted (
        cleanup_settled _ (
          delete_old-log_audit (stored o - stored (delete_old ret ms o)) (delete_old ret ms o)
          ∙ ap (log_audit "auto_cleanup" _ (ms / 1_000)) (delete_old_twice o)))
    | inr none_deleted ↦ rw none_deleted (cleanup_settled _ (delete_old_twice o))
  ]
