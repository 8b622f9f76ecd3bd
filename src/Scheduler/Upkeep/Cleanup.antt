-- ===== src/Scheduler/Upkeep/Cleanup.antt =====
-- `runCleanup` of src/lib/scheduler.ts: what is older than its retention is deleted.
use omni_mission_control.Prelude.{
  ℕ, zero, suc, ◌+◌, ◌-◌, ◌*◌, ◌/◌, true, not, Option, none, some, List, filter, length, ltb, ◌==◌,
  if◌then◌else◌, concat, ℤ, pos, negsuc, decimal, Result, ok,
}
use omni_mission_control.Scheduler.{Report}
use omni_mission_control.Scheduler.Upkeep.{Office, UsageRow, log_audit, total_deleted}

-- `config.retention`, in days.
pub record Retention : Type 0 where
  pub activities : ℤ
  pub audit_log : ℤ
  pub notifications : ℤ
  pub pipeline_runs : ℤ
  pub token_usage : ℤ

module _ {ℓ} {A : Type ℓ} (created : A → ℕ) where
  -- What a table keeps: all of it where the days are not above 0, else the rows that are not before
  -- the cutoff. No row is before 0, so a cutoff below 0 is as good as 0.
  unfoldable pub keep_recent : ℕ → ℕ → ℤ → List A → List A
  keep_recent unit now (pos zero) rows = rows
  keep_recent unit now (pos (suc days)) rows =
      filter (λ r. not (ltb (created r) (now - suc days * unit))) rows
  keep_recent unit now (negsuc n) rows = rows

-- The same for the file of token usage, if it can be read.
unfoldable pub keep_usage : ℕ → ℤ → Option (List UsageRow) → Option (List UsageRow)
unfolding keep_recent
keep_usage now days none = none
keep_usage now days (some rows) = some (keep_recent (λ r. r.timestamp) 86_400_000 now days rows)

unfoldable pub usage_size : Option (List UsageRow) → ℕ
usage_size none = 0
usage_size (some rows) = length rows

-- The tables with a retention, and the file, after the deletions of a cleanup at a time in
-- milliseconds.
unfoldable pub delete_old : Retention → ℕ → Office → Office
unfolding keep_recent keep_usage
delete_old ret ms o =
    let now = ms / 1_000 in
    record o {
      activities = keep_recent (λ r. r.created_at) 86_400 now ret.activities o.activities;
      audit_log = keep_recent (λ r. r.created_at) 86_400 now ret.audit_log o.audit_log;
      notifications = keep_recent (λ r. r.created_at) 86_400 now ret.notifications o.notifications;
      pipeline_runs = keep_recent (λ r. r.created_at) 86_400 now ret.pipeline_runs o.pipeline_runs;
      usage = keep_usage ms ret.token_usage o.usage;
    }

-- The rows of the tables and the file that a cleanup works on.
unfoldable pub stored : Office → ℕ
unfolding usage_size
stored o =
    length o.activities
    + length o.audit_log
    + length o.notifications
    + length o.pipeline_runs
    + usage_size o.usage

-- The report on a number of deleted rows; a cleanup that deletes none leaves no audit row.
unfoldable pub cleaned : ℕ → ℕ → Office → Result Report × Office
unfolding log_audit
cleaned deleted ms kept =
    let logged = log_audit "auto_cleanup" (total_deleted deleted) (ms / 1_000) kept in
    let plural = if deleted == 1 then "" else "s" in
    (
      ok (record {
        ok = true;
        message = concat "Cleaned " (concat (decimal deleted) (concat " stale record" plural));
      }),
      if ltb 0 deleted then logged else kept,
    )

unfoldable pub run_cleanup : Retention → ℕ → Office → Result Report × Office
unfolding delete_old stored cleaned
run_cleanup ret ms o = cleaned (stored o - stored (delete_old ret ms o)) ms (delete_old ret ms o)
