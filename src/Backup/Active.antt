-- ===== src/Backup/Active.antt =====
-- `deriveActiveBackupIncidents` of apps/web/lib/unified-incidents.ts: which targets have an incident, and
-- when it began where that is known. `now` is `Date.parse(backup.generatedAt)`.
use ivrm_dashboard.Prelude.{
  ℕ, ◌+◌, Bool, true, false, not, ◌&&◌, ◌||◌, List, [], ◌∷◌, ◌++◌, Option, none, some, String,
  Runtime, concat, or_else, first, length, if◌then◌else◌, truthy, sort_by,
}
use ivrm_dashboard.Prelude.StringMap.{get}
use ivrm_dashboard.Incident.{IncidentSeverity, ActiveIncident, ActiveStatus, active_backup, backup}
use ivrm_dashboard.Incident.Active.{no_later}
use ivrm_dashboard.Incident.Active.Containers.{duration_seconds}
use ivrm_dashboard.Incident.Grouping.{group_from}
use ivrm_dashboard.Backup.{
  BackupOutcome, BackupHealth, RestoreReadiness, BackupRunSummary, BackupSuccessSummary,
  BackupTargetSnapshot, BackupHistoryRun, failure_text,
}
use ivrm_dashboard.Backup.Target.{
  exceeds, is_null, is_past, is_late, is_backup_age_paused, latest_unsettled,
}
use ivrm_dashboard.Backup.Runs.{BackupEpisode, BackupSignalState, backup_entity_key, run_key}

-- The severity of a target that has an incident.
abbrev pub health_severity : BackupHealth → Option IncidentSeverity
health_severity BackupHealth.warning = some IncidentSeverity.warning
health_severity BackupHealth.critical = some IncidentSeverity.critical
health_severity _ = none

-- `targetKey`
abbrev pub target_key : BackupTargetSnapshot → String
target_key target =
    backup_entity_key target.host_id target.backup_target target.game_mode target.backup_type

-- `healthReasons.join(" / ")`
abbrev pub joined : List String → String
joined [] = ""
joined (reason ∷ []) = reason
joined (reason ∷ next ∷ rest) = concat (reason ∷ " / " ∷ joined (next ∷ rest) ∷ [])

abbrev verified_text : Option Bool → String
verified_text (some false) = "Backup success / SHA-256 Failed"
verified_text (some true) = "Backup success / SHA-256 Verified"
verified_text none = "Backup success / SHA-256 Unknown"

abbrev outcome_text : BackupRunSummary → BackupOutcome → String
outcome_text run BackupOutcome.failed =
    concat ("Backup failed: " ∷ failure_text run.failure_code ∷ [])
outcome_text run BackupOutcome.success = verified_text run.sha256_verified
outcome_text run BackupOutcome.running = "Backup running"
outcome_text run BackupOutcome.unknown = "Backup unknown"

-- `latestTransition`
abbrev pub transition_text : Option BackupRunSummary → Option String
transition_text none = none
transition_text (some run) = some (outcome_text run run.outcome)

-- `latestTransitionAt`
abbrev pub transition_at : Option BackupRunSummary → Option BackupSuccessSummary → Option String
transition_at (some run) success = some (or_else run.completed_at run.started_at)
transition_at none (some success) = some success.completed_at
transition_at none none = none

abbrev pub open_episode : Option BackupSignalState → Option BackupEpisode
open_episode none = none
open_episode (some state) = state.episode

abbrev episode_start : Option BackupEpisode → List String
episode_start none = []
episode_start (some episode) = episode.started_at ∷ []

abbrev pub episode_events : Option BackupEpisode → ℕ
episode_events none = 0
episode_events (some episode) = episode.event_count

abbrev unsettled_start : Option BackupRunSummary → List String
unsettled_start none = []
unsettled_start (some run) = if latest_unsettled (some run) then run.started_at ∷ [] else []

abbrev is_warning_readiness : RestoreReadiness → Bool
is_warning_readiness RestoreReadiness.warning = true
is_warning_readiness _ = false

module _ ⦃runtime : Runtime⦄ where
  abbrev success_starts : Option BackupSuccessSummary → ℕ → List String
  success_starts none now = []
  success_starts (some success) now =
      (if is_null success.sha256_verified then success.completed_at ∷ [] else [])
      ++ elim (truthy success.retention_expires_at) [
        | none ↦ []
        | some expires_at ↦ if is_past (some expires_at) now then expires_at ∷ [] else []
      ]

  -- `exactCandidates`
  unfoldable pub exact_candidates : BackupTargetSnapshot → Option BackupEpisode → ℕ → List String
  exact_candidates target episode now =
      episode_start episode
      ++ (success_starts target.latest_success now ++ unsettled_start target.latest)

  abbrev success_late : Option BackupSuccessSummary → ℕ → ℕ → Bool
  success_late none limit now = false
  success_late (some success) limit now = is_late success.completed_at limit now

  -- `hasPolicyDependentSignal`
  unfoldable pub has_policy_dependent_signal : BackupTargetSnapshot → ℕ → Bool
  unfolding is_backup_age_paused
  has_policy_dependent_signal target now =
      (not (is_backup_age_paused target.age_pause_reason target.age_paused_until now)
        && exceeds target.backup_age_seconds target.warning_after_seconds)
      || (target.remote_sync_pending
          && success_late target.latest_success target.remote_sync_warning_seconds now)
      || is_warning_readiness target.restore_readiness

  abbrev earlier_text : String → String → Bool
  earlier_text left right = no_later (runtime.parse left) (runtime.parse right)

  abbrev is_some_start : List String → Bool
  is_some_start [] = false
  is_some_start (_ ∷ _) = true

  unfoldable pub backup_incident :
      String
      → ℕ
      → BackupTargetSnapshot
      → Option BackupEpisode
      → List BackupHistoryRun
      → Option IncidentSeverity
      → List ActiveIncident
  unfolding exact_candidates has_policy_dependent_signal duration_seconds
  backup_incident generated_at now target episode related none = []
  backup_incident generated_at now target episode related (some severity) =
      let candidates = exact_candidates target episode now in
      let exact_start = is_some_start candidates && not (has_policy_dependent_signal target now) in
      let started_at = if exact_start then first (sort_by earlier_text candidates) else none in
      record {
        subject = record {
          id = active_backup target.policy_id;
          entity_type = backup;
          severity = severity;
          host_id = target.host_id;
          server_id = target.server_id;
          host_display_name = target.host_display_name;
          container_name = none;
          backup_target = some target.backup_target;
          game_mode = some target.game_mode;
          backup_type = some target.backup_type;
          start_reason = joined target.health_reasons;
          related_event_count = length related + episode_events episode;
        };
        current_status = ActiveStatus.degraded;
        started_at = started_at;
        duration_seconds = duration_seconds started_at generated_at;
        latest_transition_at = transition_at target.latest target.latest_success;
        latest_transition = transition_text target.latest;
        exact_start = exact_start;
      }
      ∷ []

  -- The loop over the targets.
  unfoldable pub active_backups_from :
      String
      → ℕ
      → List (String × BackupSignalState)
      → List (String × List BackupHistoryRun)
      → List BackupTargetSnapshot
      → List ActiveIncident
  unfolding backup_incident
  active_backups_from generated_at now open_states by_target [] = []
  active_backups_from generated_at now open_states by_target (target ∷ rest) =
      backup_incident generated_at now target (open_episode (get (target_key target) open_states))
        (or_else (get (target_key target) by_target) []) (health_severity target.health)
      ++ active_backups_from generated_at now open_states by_target rest

  -- `deriveActiveBackupIncidents`
  unfoldable pub derive_active_backup_incidents :
      String
      → ℕ
      → List (String × BackupSignalState)
      → List BackupHistoryRun
      → List BackupTargetSnapshot
      → List ActiveIncident
  unfolding active_backups_from group_from
  derive_active_backup_incidents generated_at now open_states history targets =
      active_backups_from generated_at now open_states (group_from run_key [] history) targets
