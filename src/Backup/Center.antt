-- ===== src/Backup/Center.antt =====
-- `getUnifiedIncidentCenterSnapshot` of apps/web/lib/unified-incidents.ts, from the results of its queries
-- on: the incident center together with the incidents of the backups, if these could be fetched.
-- `generated` and `now` are the parsed `generatedAt` of the two snapshots.
pub mod Counts
pub mod Keys
use ivrm_dashboard.Prelude.{
  ℕ, ◌-◌, ◌*◌, Bool, true, false, List, [], ◌∷◌, ◌++◌, map, Option, none, some, String, Runtime,
  filter, first, length, sort_by,
}
use ivrm_dashboard.Incident.{
  IncidentRange, range_hours, IncidentSubject, ActiveIncident, RecoveredIncident, is_critical,
  is_warning, BackupType,
}
use ivrm_dashboard.Incident.Active.{entity_key}
use ivrm_dashboard.Incident.Center.{
  IncidentSummary, IncidentCenterSnapshot, active_order, recovered_order, add_key, longest,
  opt_recovered_at,
}
use ivrm_dashboard.Reliability.Metrics.{median}
use ivrm_dashboard.Backup.{BackupHistoryRun, BackupTargetSnapshot, BackupIncidentContext}
use ivrm_dashboard.Backup.Runs.{backup_entity_key}
use ivrm_dashboard.Backup.Episodes.{derive_run_episodes}
use ivrm_dashboard.Backup.Active.{derive_active_backup_incidents}

-- The backups as they were fetched, with their context.
pub record BackupResult : Type 0 where
  pub generated_at : String
  pub now : ℕ
  pub targets : List BackupTargetSnapshot
  pub history : List BackupHistoryRun
  pub contexts : List BackupIncidentContext

pub record UnifiedIncidentCenterSnapshot : Type 0 where
  pub generated_at : String
  pub range : IncidentRange
  pub backup_data_available : Bool
  pub active : List ActiveIncident
  pub recovered : List RecoveredIncident
  pub summary : IncidentSummary
  pub backup_active_count : ℕ
  pub backup_recovered_count : ℕ

-- `backupEntityKey` of a backup, `monitoringEntityKey` of another incident
abbrev affected_key :
    String → Option String → Option String → Option String → Option BackupType → String
unfolding entity_key
affected_key host_id container_name (some backup_target) (some game_mode) (some backup_type) =
    backup_entity_key host_id backup_target game_mode backup_type
affected_key host_id container_name _ _ _ = entity_key host_id container_name

abbrev pub subject_key : IncidentSubject → String
unfolding affected_key
subject_key subject =
    affected_key subject.host_id subject.container_name subject.backup_target subject.game_mode
      subject.backup_type

unfoldable pub subject_keys : List String → List IncidentSubject → List String
unfolding subject_key
subject_keys keys [] = keys
subject_keys keys (subject ∷ rest) = subject_keys (add_key (subject_key subject) keys) rest

module _ ⦃runtime : Runtime⦄ where
  unfoldable pub unified_summary :
      IncidentSummary → List ActiveIncident → List RecoveredIncident → IncidentSummary
  unfolding subject_keys median
  unified_summary base active recovered =
      let durations = map (λ incident. incident.duration_seconds) recovered in
      record {
        active_count = length active;
        active_critical_count = length (filter (λ incident. is_critical incident.severity) active);
        active_warning_count = length (filter (λ incident. is_warning incident.severity) active);
        recovered_count = length recovered;
        critical_event_count = base.critical_event_count;
        warning_event_count = base.warning_event_count;
        exact_recovery_count = length recovered;
        median_recovery_seconds = median durations;
        longest_recovery_seconds = longest durations;
        affected_entity_count = length (
            subject_keys (subject_keys [] (map (λ incident. incident.subject) active))
              (map (λ incident. incident.subject) recovered));
        latest_recovered_at = opt_recovered_at (first recovered);
      }

  -- `getUnifiedIncidentCenterSnapshot`
  unfoldable pub get_unified_incident_center_snapshot :
      IncidentRange
      → ℕ
      → IncidentCenterSnapshot
      → Option BackupResult
      → UnifiedIncidentCenterSnapshot
  unfolding unified_summary derive_run_episodes derive_active_backup_incidents active_order
      recovered_order
  get_unified_incident_center_snapshot range generated base none = record {
    generated_at = base.generated_at;
    range = base.range;
    backup_data_available = false;
    active = base.active;
    recovered = base.recovered;
    summary = base.summary;
    backup_active_count = 0;
    backup_recovered_count = 0;
  }
  get_unified_incident_center_snapshot range generated base (some result) =
      let episodes =
        derive_run_episodes (generated - range_hours range * 3600000) result.history
          result.contexts in
      let backup_active =
        derive_active_backup_incidents result.generated_at result.now episodes.open_states
          result.history result.targets in
      let active = sort_by active_order (base.active ++ backup_active) in
      let recovered = sort_by recovered_order (base.recovered ++ episodes.recovered) in
      record {
        generated_at = base.generated_at;
        range = range;
        backup_data_available = true;
        active = active;
        recovered = recovered;
        summary = unified_summary base.summary active recovered;
        backup_active_count = length backup_active;
        backup_recovered_count = length episodes.recovered;
      }
