-- ===== src/Backup/Report/Parse.antt =====
-- `normalizeRun` and `parseBackupReport` of apps/web/lib/backup-report.ts.
pub mod Laws
pub mod Accepted
use ivrm_dashboard.Prelude.{
  ℕ, ◌+◌, ◌*◌, Bool, true, false, not, ◌&&◌, ◌||◌, List, [], ◌∷◌, Option, none, some, String,
  Runtime, any, length, str_eq, leb, ltb, if◌then◌else◌, truthy,
}
use ivrm_dashboard.Prelude.Ascii.{matches, is_name}
use ivrm_dashboard.Operation.Json.{
  Json, JsonItems, JsonFields, json_number, json_string, json_array, json_object, no_items, item,
  lookup,
}
use ivrm_dashboard.Backup.{BackupOutcome}
use ivrm_dashboard.Backup.Report.{
  BackupRunReport, BackupReportPayload, ReportError, ReportResult, invalid_json, invalid_payload,
  expired_request, duplicate_run_id, refused, accepted, ◌>>=◌, max_clock_skew, max_age, max_runs,
  max_duration_seconds, max_safe_bytes, is_uuid, is_identifier, string_in, backup_type_of,
  destination_of, outcome_of, member, nullable, boolean_of, failure_code_of, has_only_keys,
  run_keys, is_finished, is_failed, is_null, is_misplaced, is_expired, ends_badly,
}

-- `REPORT_KEYS`
abbrev pub report_keys : List String
report_keys = "serverId" ∷ "reportedAt" ∷ "runs" ∷ []

abbrev pub count_items : JsonItems → ℕ
count_items no_items = 0
count_items (item _ rest) = 1 + count_items rest

abbrev pub items_of : Option Json → Option JsonItems
items_of (some (json_array items)) = some items
items_of _ = none

-- The check of `seen`.
unfoldable pub has_duplicate : List String → List BackupRunReport → Bool
has_duplicate seen [] = false
has_duplicate seen (run ∷ rest) =
    any (str_eq run.run_id) seen || has_duplicate (run.run_id ∷ seen) rest

-- The end of the function, from the runs on.
unfoldable pub finish : String → String → Option (List BackupRunReport) → ReportResult
unfolding has_duplicate
finish server_id reported_at none = refused invalid_payload
finish server_id reported_at (some runs) =
    if has_duplicate [] runs
    then refused duplicate_run_id
    else accepted (record { server_id = server_id; reported_at = reported_at; runs = runs })

module _ ⦃runtime : Runtime⦄ where
  abbrev timestamp : Json → Option String
  timestamp (json_string text) = if is_null (runtime.parse text) then none else some text
  timestamp _ = none

  -- `requiredTimestamp`, with the test `!startedAt`
  abbrev required_timestamp : Option Json → Option String
  required_timestamp none = none
  required_timestamp (some value) = timestamp value >>= λ text. truthy (some text)

  -- `completedAt ? Date.parse(completedAt) : null`
  abbrev pub time_of : Option String → Option ℕ
  time_of at = truthy at >>= λ text. runtime.parse text

  -- The second test of `normalizeRun`, of the parsed times of the report and of the start.
  unfoldable pub is_inconsistent : ℕ → ℕ → BackupRunReport → Bool
  is_inconsistent report_time started_time run =
      let completed_time = time_of run.completed_at in
      let latest = report_time + max_clock_skew in
      ltb latest started_time
      || ltb (started_time + max_age) report_time
      || (is_finished run.outcome && (is_null completed_time || is_null run.duration_seconds))
      || (not (is_finished run.outcome)
          && (not (is_null completed_time) || not (is_null run.duration_seconds)))
      || ends_badly completed_time started_time latest
      || (is_failed run.outcome && is_null run.failure_code)
      || (not (is_failed run.outcome) && not (is_null run.failure_code))
      || is_misplaced (time_of run.remote_synced_at) completed_time latest
      || is_misplaced (time_of run.restore_tested_at) completed_time latest
      || is_expired (time_of run.retention_expires_at) completed_time

  unfoldable pub checked_run : ℕ → BackupRunReport → Option ℕ → Option BackupRunReport
  unfolding is_inconsistent
  checked_run report_time run none = none
  checked_run report_time run (some started_time) =
      if is_inconsistent report_time started_time run then none else some run

module _ ⦃runtime : Runtime⦄ (safe_integer : String → Option ℕ) where
  abbrev bounded : ℕ → ℕ → Option ℕ
  bounded maximum n = if leb n maximum then some n else none

  -- `nullableSafeInteger`, of a value that is there
  abbrev integer_up_to : ℕ → Json → Option ℕ
  integer_up_to maximum (json_number literal) = safe_integer literal >>= bounded maximum
  integer_up_to maximum _ = none

  -- The first test of `normalizeRun`: every field has its form.
  unfoldable pub run_fields : JsonFields → Option BackupRunReport
  unfolding is_uuid is_identifier
  run_fields entries = do
    started_at ← required_timestamp (lookup "startedAt" entries)
    completed_at ← nullable timestamp (lookup "completedAt" entries)
    remote_synced_at ← nullable timestamp (lookup "remoteSyncedAt" entries)
    restore_tested_at ← nullable timestamp (lookup "restoreTestedAt" entries)
    retention_expires_at ← nullable timestamp (lookup "retentionExpiresAt" entries)
    duration_seconds ←
        nullable (integer_up_to max_duration_seconds) (lookup "durationSeconds" entries)
    size_bytes ← nullable (integer_up_to max_safe_bytes) (lookup "sizeBytes" entries)
    run_id ← string_in is_uuid (lookup "runId" entries)
    backup_target ← string_in is_identifier (lookup "backupTarget" entries)
    game_mode ← string_in is_identifier (lookup "gameMode" entries)
    backup_type ← member backup_type_of (lookup "backupType" entries)
    destination_type ← member destination_of (lookup "destinationType" entries)
    outcome ← member outcome_of (lookup "outcome" entries)
    sha256_verified ← nullable boolean_of (lookup "sha256Verified" entries)
    failure_code ← nullable failure_code_of (lookup "failureCode" entries)
    some (record {
      run_id = run_id;
      backup_target = backup_target;
      game_mode = game_mode;
      backup_type = backup_type;
      destination_type = destination_type;
      started_at = started_at;
      completed_at = completed_at;
      outcome = outcome;
      duration_seconds = duration_seconds;
      size_bytes = size_bytes;
      sha256_verified = sha256_verified;
      remote_synced_at = remote_synced_at;
      restore_tested_at = restore_tested_at;
      retention_expires_at = retention_expires_at;
      failure_code = failure_code;
    })

  -- `normalizeRun`; `report_time` is `Date.parse(reportedAt)`, which was checked.
  unfoldable pub normalize_run : ℕ → Json → Option BackupRunReport
  unfolding run_fields checked_run
  normalize_run report_time (json_object entries) =
      if has_only_keys run_keys entries
      then (run_fields entries >>= λ run.
          checked_run report_time run (runtime.parse run.started_at))
      else none
  normalize_run report_time _ = none

  -- `rawRuns.map(…)`, none where one run is null
  unfoldable pub normalize_runs : ℕ → JsonItems → Option (List BackupRunReport)
  unfolding normalize_run
  normalize_runs report_time no_items = some []
  normalize_runs report_time (item value rest) = normalize_run report_time value >>= λ run.
      normalize_runs report_time rest >>= λ others. some (run ∷ others)

  unfoldable pub with_time : ℕ → String → String → JsonItems → Option ℕ → ReportResult
  unfolding finish normalize_runs
  with_time now server_id reported_at items none = refused invalid_payload
  with_time now server_id reported_at items (some report_time) =
      if ltb (count_items items) 1 || ltb max_runs (count_items items)
      then refused invalid_payload
      else if ltb (report_time + max_clock_skew) now || ltb (now + max_clock_skew) report_time
      then refused expired_request
      else finish server_id reported_at (normalize_runs report_time items)

  -- The three members of a report, where they have their types, and whether it has others.
  unfoldable pub with_members :
      ℕ → Bool → Option String → Option String → Option JsonItems → ReportResult
  unfolding with_time matches
  with_members now only_keys (some server_id) (some reported_at) (some items) =
      if not only_keys || not (matches is_name 1 64 server_id)
      then refused invalid_payload
      else with_time now server_id reported_at items (runtime.parse reported_at)
  with_members now only_keys _ _ _ = refused invalid_payload

  -- `parseBackupReport`, none where the body is no JSON
  unfoldable pub parse_backup_report : ℕ → Option Json → ReportResult
  unfolding with_members
  parse_backup_report now none = refused invalid_json
  parse_backup_report now (some (json_object entries)) =
      with_members now (has_only_keys report_keys entries) (member some (lookup "serverId" entries))
        (member some (lookup "reportedAt" entries)) (items_of (lookup "runs" entries))
  parse_backup_report now (some _) = refused invalid_payload
