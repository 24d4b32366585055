-- ===== src/Tests/Reports.antt =====
-- A report of one backup.
use ivrm_dashboard.Prelude.{
  ℕ, ◌+◌, ◌≡◌, refl, [], ◌∷◌, Option, some, none, String, Runtime, str_eq, if◌then◌else◌,
}
use ivrm_dashboard.Operation.Json.{
  Json, json_number, json_string, json_array, json_object, no_items, item, no_fields, field,
}
use ivrm_dashboard.Incident.{BackupType}
use ivrm_dashboard.Backup.{BackupOutcome, BackupDestination}
use ivrm_dashboard.Backup.Report.{BackupReportPayload, accepted, refused, duplicate_run_id}
use ivrm_dashboard.Backup.Report.Parse.{parse_backup_report}
use ivrm_dashboard.Backup.Report.Parse.Accepted.{IsAcceptable, parse_backup_report-IsAcceptable}
use ivrm_dashboard.Tests.Fixtures.{midnight, minutes, calendar}

instance abbrev runtime : Runtime
runtime = calendar

abbrev safe_integer : String → Option ℕ
safe_integer text = if str_eq text "600" then some 600 else none

abbrev run : Json
run = json_object (
    field "runId" (json_string "00000000-0000-4000-8000-00000000000A") (
      field "backupTarget" (json_string "mc-main") (
        field "gameMode" (json_string "survival") (
          field "backupType" (json_string "world") (
            field "destinationType" (json_string "s3") (
              field "startedAt" (json_string "2026-08-01T00:10:00.000Z") (
                field "completedAt" (json_string "2026-08-01T00:20:00.000Z") (
                  field "outcome" (json_string "success") (
                    field "durationSeconds" (json_number "600") (
                      field "retentionExpiresAt" (json_string "2026-08-01T01:00:00.000Z")
                        no_fields))))))))))

abbrev report : Json
report = json_object (
    field "serverId" (json_string "oci-main") (
      field "reportedAt" (json_string "2026-08-01T00:30:00.000Z")
        (field "runs" (json_array (item run no_items)) no_fields)))

abbrev twice : Json
twice = json_object (
    field "serverId" (json_string "oci-main") (
      field "reportedAt" (json_string "2026-08-01T00:30:00.000Z")
        (field "runs" (json_array (item run (item run no_items))) no_fields)))

abbrev payload : BackupReportPayload
payload = record {
  server_id = "oci-main";
  reported_at = "2026-08-01T00:30:00.000Z";
  runs =
      record {
        run_id = "00000000-0000-4000-8000-00000000000A";
        backup_target = "mc-main";
        game_mode = "survival";
        backup_type = BackupType.world;
        destination_type = BackupDestination.s3;
        started_at = "2026-08-01T00:10:00.000Z";
        completed_at = some "2026-08-01T00:20:00.000Z";
        outcome = BackupOutcome.success;
        duration_seconds = some 600;
        size_bytes = none;
        sha256_verified = none;
        remote_synced_at = none;
        restore_tested_at = none;
        retention_expires_at = some "2026-08-01T01:00:00.000Z";
        failure_code = none;
      }
      ∷ [];
}

report_run :
    parse_backup_report safe_integer (midnight + minutes 30) (some report) ≡ accepted payload
unfolding parse_backup_report
report_run = refl

twice_run :
    parse_backup_report safe_integer (midnight + minutes 30) (some twice) ≡ refused duplicate_run_id
unfolding parse_backup_report
twice_run = refl

parse_backup_report-IsAcceptable_example : IsAcceptable (midnight + minutes 30) payload
parse_backup_report-IsAcceptable_example =
    parse_backup_report-IsAcceptable safe_integer (midnight + minutes 30) (some report) payload
      report_run
