-- ===== src/Scheduler/Upkeep/Backup.antt =====
-- `runBackup` of src/lib/scheduler.ts: a copy of the database, and the pruning of old copies.
use omni_mission_control.Prelude.{
  drop, ℕ, suc, ◌+◌, ◌-◌, ◌/◌, Bool, true, false, not, ◌&&◌, List, [], ◌∷◌, filter, length, leb,
  str_eq, if◌then◌else◌, String, concat, ℤ, pos, negsuc, decimal, starts_with, ends_with, Result,
  ok, throw,
}
use omni_mission_control.Scheduler.{Report}
use omni_mission_control.Scheduler.Config.{get_setting_number}
use omni_mission_control.Scheduler.Upkeep.{Office, BackupFile, log_audit, backed_up}

unfoldable pub is_backup : BackupFile → Bool
unfolding starts_with ends_with
is_backup f = starts_with "mc-backup-" f.name && ends_with ".db" f.name

-- `sort((a, b) => b.mtime - a.mtime)`, which is stable.
unfoldable pub insert_newest : BackupFile → List BackupFile → List BackupFile
insert_newest f [] = f ∷ []
insert_newest f (g ∷ gs) =
    let rest = insert_newest f gs in if leb g.mtime f.mtime then f ∷ g ∷ gs else g ∷ rest

unfoldable pub newest_first : List BackupFile → List BackupFile
unfolding insert_newest
newest_first [] = []
newest_first (f ∷ fs) = insert_newest f (newest_first fs)

-- `files.slice(n)`: from the end where `n` is below 0.
unfoldable pub slice_from : ℤ → List BackupFile → List BackupFile
slice_from (pos n) fs = drop n fs
slice_from (negsuc n) fs = drop (length fs - suc n) fs

-- `unlinkSync`
unfoldable pub unlink : String → List BackupFile → List BackupFile
unlink name = filter λ f. not (str_eq f.name name)

unfoldable pub unlink_all : List BackupFile → List BackupFile → List BackupFile
unfolding unlink
unlink_all [] files = files
unlink_all (f ∷ fs) files = unlink_all fs (unlink f.name files)

unfoldable pub prune_backups : ℤ → List BackupFile → List BackupFile
unfolding is_backup newest_first slice_from unlink_all
prune_backups max files = unlink_all (slice_from max (newest_first (filter is_backup files))) files

-- `db.backup` is of a library: what it and `statSync` give, the size or an error, is an argument, and
-- so is the name that the date makes. A file of that name is overwritten.
unfoldable pub run_backup : Result ℕ → String → String → ℕ → Office → Result Report × Office
unfolding get_setting_number unlink prune_backups log_audit
run_backup (throw e) folder name ms o =
    (ok (record { ok = false; message = concat "Backup failed: " e }), o)
run_backup (ok size) folder name ms o =
    let path = concat folder (concat "/" name) in
    let written = record { name = name; mtime = ms } ∷ unlink name o.backups in
    let logged =
      log_audit "auto_backup" (backed_up path size) (ms / 1_000) (record o { backups = written }) in
    let max = get_setting_number o.settings "general.backup_retention_count" 10 in
    (
      ok (record {
        ok = true;
        message = concat "Backup created (" (concat (decimal ((size + 512) / 1_024)) "KB)");
      }),
      record logged { backups = prune_backups max logged.backups },
    )
