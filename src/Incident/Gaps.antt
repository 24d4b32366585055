-- ===== src/Incident/Gaps.antt =====
-- `deriveRecoveredHostGaps` of apps/web/lib/incidents.ts: a heartbeat gap as an incident that is over. A gap
-- that reaches before the earliest instant of a Date, on which the source throws, ends there.
use ivrm_dashboard.Prelude.{
  ℕ, ◌-◌, ◌*◌, Bool, true, false, not, ◌||◌, List, [], ◌∷◌, ◌++◌, Option, none, some, Runtime, leb,
  ltb, if◌then◌else◌,
}
use ivrm_dashboard.Incident.{IncidentSeverity, RecoveredIncident, recovered_host_gap, host}
use ivrm_dashboard.Incident.Events.{
  HostMonitoringEvent, HostMonitoringEventType, heartbeat_gap_detected,
}

-- `HOST_STALE_AFTER_SECONDS` and `HOST_OFFLINE_AFTER_SECONDS`
abbrev pub host_stale_after_seconds : ℕ
host_stale_after_seconds = 45

abbrev pub host_offline_after_seconds : ℕ
host_offline_after_seconds = 180

abbrev is_gap : HostMonitoringEventType → Bool
is_gap heartbeat_gap_detected = true
is_gap _ = false

module _ ⦃runtime : Runtime⦄ where
  abbrev pub gap_incident : HostMonitoringEvent → ℕ → ℕ → RecoveredIncident
  gap_incident event value recovered_at =
      let incident_duration = value - host_stale_after_seconds in
      record {
        subject = record {
          id = recovered_host_gap event.id;
          entity_type = host;
          severity =
              (if ltb host_offline_after_seconds value
                then IncidentSeverity.critical
                else IncidentSeverity.warning);
          host_id = event.host_id;
          server_id = event.server_id;
          host_display_name = event.host_display_name;
          container_name = none;
          backup_target = none;
          game_mode = none;
          backup_type = none;
          start_reason = "Heartbeat ageが45秒を超え更新遅延";
          related_event_count = 1;
        };
        started_at = runtime.to_iso_string (recovered_at - incident_duration * 1000);
        recovered_at = event.occurred_at;
        duration_seconds = incident_duration;
        recovery_reason = "Heartbeat受信を再開";
      }

  abbrev pub gap_at : ℕ → HostMonitoringEvent → Option ℕ → Option ℕ → List RecoveredIncident
  gap_at range_start event (some value) (some recovered_at) =
      if not (is_gap event.event_type)
        || leb value host_stale_after_seconds
        || ltb recovered_at range_start
      then []
      else gap_incident event value recovered_at ∷ []
  gap_at range_start event _ _ = []

  -- `deriveRecoveredHostGaps`
  unfoldable pub derive_recovered_host_gaps : ℕ → List HostMonitoringEvent → List RecoveredIncident
  derive_recovered_host_gaps range_start [] = []
  derive_recovered_host_gaps range_start (event ∷ rest) =
      gap_at range_start event event.numeric_value (runtime.parse event.occurred_at)
      ++ derive_recovered_host_gaps range_start rest
