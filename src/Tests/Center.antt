-- ===== src/Tests/Center.antt =====
-- A stale host with a container that an OOM kill ended.
use ivrm_dashboard.Prelude.{
  ℕ, true, false, not, ◌&&◌, ◌||◌, ◌≡◌, refl, List, [], ◌∷◌, some, none, String, Runtime, any, all,
  filter, str_eq, map, Perm, Ordered,
}
use ivrm_dashboard.Monitoring.Types.{
  ContainerStatus, ContainerState, ContainerHealth, ContainerExpectedState, HostOverview,
  ContainerOverview, MonitoringSnapshot,
}
use ivrm_dashboard.Incident.{IncidentRange, is_critical}
use ivrm_dashboard.Incident.Events.{
  MonitoringEvent, MonitoringEventSeverity, MonitoringEventType, oom_killed, exit_code_changed,
}
use ivrm_dashboard.Incident.Active.Containers.{derive_active_container_incidents, reduce_severity}
use ivrm_dashboard.Incident.Active.Hosts.{derive_active_host_incidents}
use ivrm_dashboard.Incident.Active.Laws.{
  is_about, is_container, is_alarmed, derive_active_container_incidents_iff_is_alarmed,
}
use ivrm_dashboard.Incident.Active.Severity.{
  warned, was_oom_killed, derive_active_container_incidents-oom,
}
use ivrm_dashboard.Incident.Grouping.{merge_unique_events, event_by_entity, event_key}
use ivrm_dashboard.Incident.Grouping.Laws.{group_of, Precedes, group_of-event_by_entity}
use ivrm_dashboard.Incident.Center.{get_incident_center_snapshot}
use ivrm_dashboard.Tests.Fixtures.{midnight, calendar}

instance abbrev runtime : Runtime
runtime = calendar

abbrev event : ℕ → String → MonitoringEventType → MonitoringEvent
event id occurred_at type = record {
  id = id;
  host_id = "host-1";
  server_id = "oci-main";
  host_display_name = "OCI";
  container_name = "mc-main";
  occurred_at = occurred_at;
  event_type = type;
  severity = MonitoringEventSeverity.critical;
  from_value = none;
  to_value = some "137";
  expected_state = some ContainerExpectedState.running;
}

abbrev events : List MonitoringEvent
events =
    event 2 "2026-08-01T00:10:00.000Z" oom_killed
    ∷ event 1 "2026-08-01T00:10:00.000Z" exit_code_changed
    ∷ []

abbrev host_1 : HostOverview ℕ
host_1 = record {
  id = "host-1";
  server_id = "oci-main";
  display_name = "OCI";
  provider = "oci";
  environment = "production";
  status = ContainerStatus.stale;
  agent_version = none;
  received_at = none;
  sent_at = none;
  age_seconds = none;
  metrics = none;
}

abbrev killed : ContainerOverview ℕ
killed = record {
  host_id = "host-1";
  host_display_name = "OCI";
  name = "mc-main";
  status = ContainerStatus.error;
  state = ContainerState.exited;
  health = ContainerHealth.unknown;
  oom_killed = true;
  metrics = record {
    restart_count = 0;
    exit_code = some 137;
    cpu_percent = none;
    memory_usage_bytes = none;
    memory_limit_bytes = none;
    network_rx_bytes = none;
    network_tx_bytes = none;
    block_read_bytes = none;
    block_write_bytes = none;
    pids = none;
  };
  received_at = "2026-08-01T00:20:00.000Z";
  age_seconds = 0;
  expected_state = some ContainerExpectedState.running;
  maintenance_mode = false;
  maintenance_active = false;
  maintenance_reason = none;
  maintenance_until = none;
}

abbrev snapshot : MonitoringSnapshot ℕ
snapshot = record {
  hosts = host_1 ∷ [];
  containers = killed ∷ [];
  generated_at = "2026-08-01T00:30:00.000Z";
}

center_run :
    map
      (λ incident. is_critical incident.severity)
      (get_incident_center_snapshot IncidentRange.range_24h midnight snapshot events [] []).active
    ≡ true ∷ false ∷ []
unfolding get_incident_center_snapshot event_by_entity derive_active_container_incidents
    derive_active_host_incidents merge_unique_events reduce_severity
center_run = refl

derive_active_container_incidents_iff_is_alarmed_example :
    any
      (is_about "host-1" "mc-main")
      (derive_active_container_incidents snapshot (event_by_entity events))
    ≡ any
        (λ overview. is_container "host-1" "mc-main" overview && is_alarmed snapshot.hosts overview)
        snapshot.containers
derive_active_container_incidents_iff_is_alarmed_example =
    derive_active_container_incidents_iff_is_alarmed "host-1" "mc-main" snapshot
      (event_by_entity events)

killed-was_oom_killed :
    all
      (λ overview.
        not (is_container "host-1" "mc-main" overview)
        || was_oom_killed (event_by_entity events) overview)
      snapshot.containers
    ≡ true
unfolding event_by_entity
killed-was_oom_killed = refl

derive_active_container_incidents-oom_example :
    any
      (λ incident. is_about "host-1" "mc-main" incident && warned incident)
      (derive_active_container_incidents snapshot (event_by_entity events))
    ≡ false
derive_active_container_incidents-oom_example =
    derive_active_container_incidents-oom "host-1" "mc-main" snapshot (event_by_entity events)
      killed-was_oom_killed

group_of-event_by_entity_example :
    let group = group_of "host-1:mc-main" (event_by_entity events) in
    Perm group (filter (λ event. str_eq (event_key event) "host-1:mc-main") events)
    × Ordered Precedes group
group_of-event_by_entity_example =
    group_of-event_by_entity "host-1:mc-main" events (refl, (refl, tt))
