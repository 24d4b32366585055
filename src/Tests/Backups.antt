-- ===== src/Tests/Backups.antt =====
-- A backup that fails twice, and a target whose evidence is all there.
use ivrm_dashboard.Prelude.{
  ℕ, ◌+◌, ◌-◌, ◌*◌, ◌++◌, Perm, length, true, not, ◌&&◌, ◌||◌, ◌≡◌, refl, List, [], ◌∷◌, Option,
  some, none, String, Runtime, All, map,
}
use ivrm_dashboard.Monitoring.Types.{MonitoringSnapshot}
use ivrm_dashboard.Incident.{BackupType, IncidentRange, range_hours}
use ivrm_dashboard.Incident.Center.{get_incident_center_snapshot}
use ivrm_dashboard.Incident.Center.Counts.{critical_first}
use ivrm_dashboard.Backup.{
  BackupOutcome, BackupDestination, BackupHealth, BackupFailureCode, BackupRunSummary, BackupPolicy,
  BackupHistoryRun, BackupIncidentContext,
}
use ivrm_dashboard.Backup.Target.{is_critical, is_healthy, latest_failed, evaluate_target}
use ivrm_dashboard.Backup.Target.Health.{is_breached, is_proven, holds, evaluate_target-health}
use ivrm_dashboard.Backup.Runs.{seed_signal_state}
use ivrm_dashboard.Backup.Rounds.{runs_from}
use ivrm_dashboard.Backup.Rounds.Laws.{
  IsSettled, HasTimes, stays_open, fails, succeeds, corrupts, verifies, seed_signal_state-IsSettled,
  runs_from-open,
}
use ivrm_dashboard.Backup.Episodes.{derive_run_episodes}
use ivrm_dashboard.Backup.Episodes.Laws.{IsRecovery, derive_run_episodes-IsRecovery}
use ivrm_dashboard.Backup.Center.{BackupResult, get_unified_incident_center_snapshot}
use ivrm_dashboard.Backup.Center.Keys.{IsKeySet}
use ivrm_dashboard.Backup.Active.{derive_active_backup_incidents}
use ivrm_dashboard.Backup.Center.Counts.{get_unified_incident_center_snapshot-counts}
use ivrm_dashboard.Tests.Fixtures.{midnight, minutes, calendar}

instance abbrev runtime : Runtime
runtime = calendar

abbrev summary : BackupOutcome → String → Option BackupFailureCode → BackupRunSummary
summary outcome completed_at failure_code = record {
  run_id = "run";
  outcome = outcome;
  started_at = "2026-08-01T00:00:00.000Z";
  completed_at = some completed_at;
  duration_seconds = some 60;
  size_bytes = some 1024;
  sha256_verified = some true;
  destination_type = BackupDestination.s3;
  remote_synced_at = none;
  restore_tested_at = none;
  retention_expires_at = none;
  failure_code = failure_code;
}

abbrev run : ℕ → BackupOutcome → String → Option BackupFailureCode → BackupHistoryRun
run row_id outcome completed_at failure_code = record {
  summary = summary outcome completed_at failure_code;
  row_id = row_id;
  host_id = "host-1";
  server_id = "oci-main";
  host_display_name = "OCI";
  backup_target = "mc-main";
  game_mode = "survival";
  backup_type = BackupType.world;
}

abbrev history : List BackupHistoryRun
history =
    run 3 BackupOutcome.success "2026-08-01T00:30:00.000Z" none
    ∷ run 2 BackupOutcome.failed "2026-08-01T00:20:00.000Z" (some BackupFailureCode.timeout)
    ∷ run 1 BackupOutcome.failed "2026-08-01T00:10:00.000Z" (some BackupFailureCode.checksum_failed)
    ∷ []

abbrev context : BackupIncidentContext
context = record {
  host_id = "host-1";
  server_id = "oci-main";
  host_display_name = "OCI";
  backup_target = "mc-main";
  game_mode = "survival";
  backup_type = BackupType.world;
  failure_started_at = some "2026-08-01T00:00:00.000Z";
  consecutive_failure_count = 1;
  checksum_started_at = none;
  related_run_count = 1;
}

abbrev policy : BackupPolicy
policy = record {
  policy_id = 1;
  host_id = "host-1";
  server_id = "oci-main";
  host_display_name = "OCI";
  backup_target = "mc-main";
  game_mode = "survival";
  backup_type = BackupType.world;
  remote_sync_required = true;
  warning_after_seconds = 3600;
  critical_after_seconds = 7200;
  remote_sync_warning_seconds = 600;
  restore_test_warning_seconds = 86400;
  age_paused_until = none;
  age_pause_reason = none;
  latest = some (summary BackupOutcome.success "2026-08-01T00:10:00.000Z" none);
  latest_success = some (record {
    run_id = "run";
    completed_at = "2026-08-01T00:10:00.000Z";
    size_bytes = some 1024;
    sha256_verified = some true;
    destination_type = BackupDestination.s3;
    remote_synced_at = some "2026-08-01T00:20:00.000Z";
    restore_tested_at = some "2026-08-01T00:20:00.000Z";
    retention_expires_at = some "2026-08-01T01:00:00.000Z";
  });
}

policy_run : (evaluate_target policy (midnight + minutes 30)).health ≡ BackupHealth.healthy
unfolding evaluate_target
policy_run = refl

history_run :
    map (λ i. i.duration_seconds) (derive_run_episodes midnight history (context ∷ [])).recovered
    ≡ 1800 ∷ []
unfolding derive_run_episodes
history_run = refl

evaluate_target-health_example :
    let now = midnight + minutes 30 in
    (is_critical (evaluate_target policy now).health ≡ (
      latest_failed policy.latest
      || holds (λ success. is_breached policy success now) policy.latest_success))
    × (is_healthy (evaluate_target policy now).health ≡ (
        not (latest_failed policy.latest)
        && holds (λ success. is_proven policy success now) policy.latest_success))
evaluate_target-health_example = evaluate_target-health policy (midnight + minutes 30)

abbrev ended : List (String × BackupHistoryRun)
ended =
    (
      "2026-08-01T00:10:00.000Z",
      run 1 BackupOutcome.failed "2026-08-01T00:10:00.000Z"
          (some BackupFailureCode.checksum_failed),
    )
    ∷ ("2026-08-01T00:30:00.000Z", run 3 BackupOutcome.success "2026-08-01T00:30:00.000Z" none)
    ∷ []

context-HasTimes : HasTimes context
context-HasTimes = (refl, refl)

runs_from-open_example :
    let state = seed_signal_state (some context) in
    let final = (runs_from midnight state ended).0 in
    (final.run_failure ≡ stays_open state.run_failure fails succeeds ended)
    × (final.checksum ≡ stays_open state.checksum corrupts verifies ended)
    × IsSettled final
runs_from-open_example =
    runs_from-open midnight (seed_signal_state (some context)) ended
      (seed_signal_state-IsSettled context context-HasTimes)

derive_run_episodes-IsRecovery_example :
    All (IsRecovery midnight) (derive_run_episodes midnight history (context ∷ [])).recovered
derive_run_episodes-IsRecovery_example =
    derive_run_episodes-IsRecovery midnight history (context ∷ [])

abbrev nothing : MonitoringSnapshot ℕ
nothing = record { hosts = []; containers = []; generated_at = "2026-08-01T00:30:00.000Z" }

abbrev result : BackupResult
result = record {
  generated_at = "2026-08-01T00:30:00.000Z";
  now = midnight + minutes 30;
  targets = [];
  history = history;
  contexts = context ∷ [];
}

get_unified_incident_center_snapshot-counts_example :
    let generated = midnight + minutes 30 in
    let base = get_incident_center_snapshot IncidentRange.range_7d generated nothing [] [] [] in
    let episodes =
      derive_run_episodes
        (generated - range_hours IncidentRange.range_7d * 3600000)
        history
        (context ∷ []) in
    let backups =
      derive_active_backup_incidents result.generated_at result.now episodes.open_states history
        [] in
    let center =
      get_unified_incident_center_snapshot IncidentRange.range_7d generated base (some result) in
    Perm center.active (base.active ++ backups)
    × Perm center.recovered (base.recovered ++ episodes.recovered)
    × critical_first center.active ≡ true
    × center.summary.active_critical_count + center.summary.active_warning_count
      ≡ center.summary.active_count
    × center.summary.active_count ≡ base.summary.active_count + length backups
    × center.summary.recovered_count ≡ base.summary.recovered_count + length episodes.recovered
    × center.backup_active_count ≡ length backups
    × center.backup_recovered_count ≡ length episodes.recovered
    × ((keys : List String) × (center.summary.affected_entity_count ≡ length keys)
        × IsKeySet keys center.active center.recovered)
get_unified_incident_center_snapshot-counts_example =
    get_unified_incident_center_snapshot-counts IncidentRange.range_7d (midnight + minutes 30)
      nothing [] [] [] result
