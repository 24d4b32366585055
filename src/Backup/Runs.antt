-- ===== src/Backup/Runs.antt =====
-- The runs of a backup and the signals of `deriveRunEpisodes` of apps/web/lib/unified-incidents.ts, with
-- what was active before the history.
use ivrm_dashboard.Prelude.{
  ℕ, Bool, true, false, ◌&&◌, ◌||◌, [], ◌∷◌, Option, none, some, String, Runtime, concat, or_else,
  leb, if◌then◌else◌, truthy,
}
use ivrm_dashboard.Incident.{IncidentSeverity, BackupType}
use ivrm_dashboard.Incident.Active.{no_later}
use ivrm_dashboard.Backup.{
  BackupOutcome, BackupFailureCode, BackupHistoryRun, BackupIncidentContext, failure_text,
}
use ivrm_dashboard.Backup.Target.{is_true, is_false}

pub record BackupEpisode : Type 0 where
  pub started_at : String
  pub severity : IncidentSeverity
  pub start_reason : String
  pub event_count : ℕ

-- The set `activeSignals` as two tests.
pub record BackupSignalState : Type 0 where
  pub run_failure : Bool
  pub checksum : Bool
  pub episode : Option BackupEpisode
  pub consecutive_failures : ℕ

abbrev pub is_failed : BackupOutcome → Bool
is_failed BackupOutcome.failed = true
is_failed _ = false

abbrev pub is_success : BackupOutcome → Bool
is_success BackupOutcome.success = true
is_success _ = false

abbrev is_checksum_failure : Option BackupFailureCode → Bool
is_checksum_failure (some BackupFailureCode.checksum_failed) = true
is_checksum_failure _ = false

-- `checksumFailed`
abbrev pub checksum_failed_in : BackupHistoryRun → Bool
checksum_failed_in run =
    is_checksum_failure run.failure_code || (is_success run.outcome && is_false run.sha256_verified)

-- `run.outcome === "success" && run.sha256Verified === true`
abbrev pub is_verified : BackupHistoryRun → Bool
is_verified run = is_success run.outcome && is_true run.sha256_verified

-- `firstStartReason`
abbrev pub first_start_reason : BackupHistoryRun → String
first_start_reason run =
    if is_checksum_failure run.failure_code
    then "Checksum検証を伴うBackup Runが失敗"
    else if is_failed run.outcome
    then concat ("Backup失敗: " ∷ failure_text run.failure_code ∷ [])
    else if is_false run.sha256_verified
    then "SHA-256検証失敗"
    else "Backup保護シグナル異常"

-- `backupEntityKey`
abbrev backup_type_text : BackupType → String
backup_type_text BackupType.world = "world"
backup_type_text BackupType.config = "config"
backup_type_text BackupType.permissions = "permissions"
backup_type_text BackupType.full = "full"

abbrev pub backup_entity_key : String → String → String → BackupType → String
backup_entity_key host_id backup_target game_mode backup_type = concat (
    "backup:"
    ∷ host_id
    ∷ ":"
    ∷ backup_target
    ∷ ":"
    ∷ game_mode
    ∷ ":"
    ∷ backup_type_text backup_type
    ∷ [])

abbrev pub run_key : BackupHistoryRun → String
run_key run = backup_entity_key run.host_id run.backup_target run.game_mode run.backup_type

abbrev pub context_key : BackupIncidentContext → String
context_key context =
    backup_entity_key context.host_id context.backup_target context.game_mode context.backup_type

abbrev pub is_set : Option String → Bool
is_set none = false
is_set (some _) = true

abbrev pub is_truthy : Option String → Bool
is_truthy text = is_set (truthy text)

abbrev pub quiet : BackupSignalState
quiet = record { run_failure = false; checksum = false; episode = none; consecutive_failures = 0 }

module _ ⦃runtime : Runtime⦄ where
  -- The earlier of the starts that are set.
  abbrev pub first_start : Option String → Option String → Option String
  first_start none none = none
  first_start (some failure) none = some failure
  first_start none (some checksum) = some checksum
  first_start (some failure) (some checksum) =
      if no_later (runtime.parse failure) (runtime.parse checksum)
      then some failure
      else some checksum

  abbrev is_not_after : Option ℕ → Option ℕ → Bool
  is_not_after (some a) (some b) = leb a b
  is_not_after _ _ = false

  -- `checksumFirst`
  abbrev pub checksum_first : Option String → Option String → Bool
  checksum_first failure none = false
  checksum_first failure (some checksum) =
      is_not_after (runtime.parse checksum) (runtime.parse (or_else failure checksum))

  abbrev pub seed_episode : BackupIncidentContext → Option String → Option BackupEpisode
  seed_episode context none = none
  seed_episode context (some started_at) = some (record {
    started_at = started_at;
    severity =
        (if is_set context.checksum_started_at || leb 2 context.consecutive_failure_count
          then IncidentSeverity.critical
          else IncidentSeverity.warning);
    start_reason =
        (if checksum_first context.failure_started_at context.checksum_started_at
          then "SHA-256検証失敗が境界以前から継続"
          else "Backup失敗が境界以前から継続");
    event_count = context.related_run_count;
  })

  -- `seedSignalState`
  unfoldable pub seed_signal_state : Option BackupIncidentContext → BackupSignalState
  seed_signal_state none = quiet
  seed_signal_state (some context) =
      let started_at =
        truthy (first_start context.failure_started_at context.checksum_started_at) in
      record {
        run_failure = is_truthy context.failure_started_at;
        checksum = is_truthy context.checksum_started_at;
        episode = seed_episode context started_at;
        consecutive_failures = (if is_set started_at then context.consecutive_failure_count else 0);
      }
