-- ===== src/Backup.antt =====
-- The types of apps/web/lib/backups.ts, backup-report.ts and backup-incident-context.ts: the runs of
-- backups, the policy of a target with its evidence, and what was open before the history begins. The
-- seconds of a policy, which the database keeps positive, are natural numbers.
pub mod Report
pub mod Target
pub mod Runs
pub mod Rounds
pub mod Episodes
pub mod Active
pub mod Center
use ivrm_dashboard.Prelude.{ℕ, Bool, Option, none, some, List, String}
use ivrm_dashboard.Incident.{BackupType}

pub data BackupOutcome : Type 0 where
  success failed running unknown : BackupOutcome

pub data BackupDestination : Type 0 where
  local s3 : BackupDestination

pub data BackupHealth : Type 0 where
  healthy warning critical unknown : BackupHealth

pub data RestoreReadiness : Type 0 where
  ready warning unknown : RestoreReadiness

pub data BackupFailureCode : Type 0 where
  source_unavailable archive_failed checksum_failed remote_sync_failed retention_failed timeout :
      BackupFailureCode
  permission_denied insufficient_space unknown : BackupFailureCode

pub record BackupRunSummary : Type 0 where
  pub run_id : String
  pub outcome : BackupOutcome
  pub started_at : String
  pub completed_at : Option String
  pub duration_seconds : Option ℕ
  pub size_bytes : Option ℕ
  pub sha256_verified : Option Bool
  pub destination_type : BackupDestination
  pub remote_synced_at : Option String
  pub restore_tested_at : Option String
  pub retention_expires_at : Option String
  pub failure_code : Option BackupFailureCode

pub record BackupSuccessSummary : Type 0 where
  pub run_id : String
  pub completed_at : String
  pub size_bytes : Option ℕ
  pub sha256_verified : Option Bool
  pub destination_type : BackupDestination
  pub remote_synced_at : Option String
  pub restore_tested_at : Option String
  pub retention_expires_at : Option String

-- A target before it is evaluated.
pub record BackupPolicy : Type 0 where
  pub policy_id : ℕ
  pub host_id : String
  pub server_id : String
  pub host_display_name : String
  pub backup_target : String
  pub game_mode : String
  pub backup_type : BackupType
  pub remote_sync_required : Bool
  pub warning_after_seconds : ℕ
  pub critical_after_seconds : ℕ
  pub remote_sync_warning_seconds : ℕ
  pub restore_test_warning_seconds : ℕ
  pub age_paused_until : Option String
  pub age_pause_reason : Option String
  pub latest : Option BackupRunSummary
  pub latest_success : Option BackupSuccessSummary

pub record BackupTargetSnapshot : Type 0 where
  pub policy : BackupPolicy
  pub open policy use *
  pub health : BackupHealth
  pub health_reasons : List String
  pub backup_age_seconds : Option ℕ
  pub remote_sync_pending : Bool
  pub restore_readiness : RestoreReadiness

pub record BackupHistoryRun : Type 0 where
  pub summary : BackupRunSummary
  pub open summary use *
  pub row_id : ℕ
  pub host_id : String
  pub server_id : String
  pub host_display_name : String
  pub backup_target : String
  pub game_mode : String
  pub backup_type : BackupType

pub record BackupIncidentContext : Type 0 where
  pub host_id : String
  pub server_id : String
  pub host_display_name : String
  pub backup_target : String
  pub game_mode : String
  pub backup_type : BackupType
  pub failure_started_at : Option String
  pub consecutive_failure_count : ℕ
  pub checksum_started_at : Option String
  pub related_run_count : ℕ

abbrev pub failure_code_text : BackupFailureCode → String
failure_code_text BackupFailureCode.source_unavailable = "source_unavailable"
failure_code_text BackupFailureCode.archive_failed = "archive_failed"
failure_code_text BackupFailureCode.checksum_failed = "checksum_failed"
failure_code_text BackupFailureCode.remote_sync_failed = "remote_sync_failed"
failure_code_text BackupFailureCode.retention_failed = "retention_failed"
failure_code_text BackupFailureCode.timeout = "timeout"
failure_code_text BackupFailureCode.permission_denied = "permission_denied"
failure_code_text BackupFailureCode.insufficient_space = "insufficient_space"
failure_code_text BackupFailureCode.unknown = "unknown"

-- `failureCode ?? "unknown"`
abbrev pub failure_text : Option BackupFailureCode → String
failure_text none = "unknown"
failure_text (some code) = failure_code_text code
