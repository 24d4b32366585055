-- ===== src/Incident/Active/Hosts.antt =====
-- `deriveActiveHostIncidents` of apps/web/lib/incidents.ts.
use ivrm_dashboard.Prelude.{
  false, List, [], ◌∷◌, ◌++◌, Option, none, some, String, or_else, length, last,
}
use ivrm_dashboard.Prelude.StringMap.{get}
use ivrm_dashboard.Monitoring.Types.{ContainerStatus, HostOverview}
use ivrm_dashboard.Incident.{ActiveIncident, ActiveStatus, active_host, host}
use ivrm_dashboard.Incident.Events.{HostMonitoringEvent}
use ivrm_dashboard.Incident.Active.{fallback_severity, entity_key, host_event_transition}

unfoldable pub host_latest : Option HostMonitoringEvent → Option String × Option String
unfolding host_event_transition
host_latest none = (none, none)
host_latest (some event) = (some event.occurred_at, some (host_event_transition event))

-- The status of a host that has an incident.
abbrev pub host_status : ContainerStatus → Option ActiveStatus
host_status ContainerStatus.stale = some ActiveStatus.stale
host_status ContainerStatus.offline = some ActiveStatus.offline
host_status _ = none

module _ {Number : Type 0} where
  unfoldable pub host_incident :
      HostOverview Number → List HostMonitoringEvent → Option ActiveStatus → List ActiveIncident
  unfolding host_latest
  host_incident h events none = []
  host_incident h events (some status) =
      let latest = host_latest (last events) in
      record {
        subject = record {
          id = active_host h.id;
          entity_type = host;
          severity = fallback_severity status;
          host_id = h.id;
          server_id = h.server_id;
          host_display_name = h.display_name;
          container_name = none;
          backup_target = none;
          game_mode = none;
          backup_type = none;
          start_reason = "Heartbeat停止中の開始時刻は復旧後まで確定しません";
          related_event_count = length events;
        };
        current_status = status;
        started_at = none;
        duration_seconds = none;
        latest_transition_at = latest.0;
        latest_transition = latest.1;
        exact_start = false;
      }
      ∷ []

  -- `deriveActiveHostIncidents`
  unfoldable pub derive_active_host_incidents :
      List (HostOverview Number) → List (String × List HostMonitoringEvent) → List ActiveIncident
  unfolding host_incident entity_key
  derive_active_host_incidents [] grouped = []
  derive_active_host_incidents (h ∷ rest) grouped =
      host_incident h (or_else (get (entity_key h.id none) grouped) []) (host_status h.status)
      ++ derive_active_host_incidents rest grouped
