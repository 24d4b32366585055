-- ===== src/Incident/Active.antt =====
-- The active incidents of apps/web/lib/incidents.ts: the tests and names that they are made with.
pub mod Containers
pub mod Hosts
pub mod Laws
pub mod Severity
use ivrm_dashboard.Prelude.{
  ℕ, ◌+◌, ◌-◌, ◌/◌, Bool, true, false, not, ◌&&◌, ◌||◌, List, [], ◌∷◌, ◌++◌, Option, none, some,
  String, Runtime, concat, or_else, filter, length, first, last, leb, ltb, sort_by, if◌then◌else◌,
  truthy, decimal,
}
use ivrm_dashboard.Prelude.StringMap.{get, set}
use ivrm_dashboard.Monitoring.Types.{
  ContainerStatus, ContainerState, ContainerHealth, ContainerExpectedState, HostOverview,
  ContainerOverview, MonitoringSnapshot,
}
use ivrm_dashboard.Incident.{
  IncidentSeverity, IncidentSubject, ActiveIncident, ActiveStatus, IncidentId, active_host,
  active_container, host, container,
}
use ivrm_dashboard.Incident.Events.{
  MonitoringEvent, MonitoringEventSeverity, MonitoringEventType, HostMonitoringEvent,
  host_reboot_detected, agent_version_changed, heartbeat_gap_detected, HostMonitoringEventType,
}
use ivrm_dashboard.Incident.Signals.{
  OpenSignal, max_severity, event_transition, derive_open_signals, PerSignal, expected_eq, shown,
}

-- `currentStateIsIncident`, of the expected and the current state.
abbrev pub state_is_incident : Option ContainerExpectedState → ContainerState → Bool
state_is_incident (some ContainerExpectedState.running) ContainerState.running = false
state_is_incident (some ContainerExpectedState.running) _ = true
state_is_incident (some ContainerExpectedState.stopped) ContainerState.exited = false
state_is_incident (some ContainerExpectedState.stopped) ContainerState.created = false
state_is_incident (some ContainerExpectedState.stopped) _ = true
state_is_incident (some ContainerExpectedState.absent) ContainerState.not_found = false
state_is_incident (some ContainerExpectedState.absent) _ = true
state_is_incident none ContainerState.running = false
state_is_incident none _ = true

-- `currentHealthIsIncident`, of the expected state and the health.
abbrev pub health_is_incident : Option ContainerExpectedState → ContainerHealth → Bool
health_is_incident (some ContainerExpectedState.stopped) _ = false
health_is_incident (some ContainerExpectedState.absent) _ = false
health_is_incident _ ContainerHealth.unhealthy = true
health_is_incident _ ContainerHealth.starting = true
health_is_incident (some ContainerExpectedState.running) ContainerHealth.unknown = true
health_is_incident _ _ = false

-- `ACTIVE_CONTAINER_STATUSES`, with the status of the incident.
abbrev pub incident_status : ContainerStatus → Option ActiveStatus
incident_status ContainerStatus.error = some ActiveStatus.error
incident_status ContainerStatus.stale = some ActiveStatus.stale
incident_status ContainerStatus.offline = some ActiveStatus.offline
incident_status _ = none

-- `fallbackSeverity`
abbrev pub fallback_severity : ActiveStatus → IncidentSeverity
fallback_severity ActiveStatus.stale = IncidentSeverity.warning
fallback_severity _ = IncidentSeverity.critical

-- `entityKey`
abbrev named_key : String → Option String → String
named_key host_id none = concat ("host:" ∷ host_id ∷ [])
named_key host_id (some name) = concat (host_id ∷ ":" ∷ name ∷ [])

unfoldable pub entity_key : String → Option String → String
entity_key host_id container_name = named_key host_id (truthy container_name)

abbrev host_transition : HostMonitoringEventType → HostMonitoringEvent → String
host_transition host_reboot_detected event = "OS Uptime低下を検知"
host_transition agent_version_changed event =
    concat ("Agent " ∷ shown event.from_value ∷ " → " ∷ shown event.to_value ∷ [])
host_transition heartbeat_gap_detected event =
    concat ("Heartbeat gap " ∷ decimal (or_else event.numeric_value 0) ∷ "秒" ∷ [])

-- `hostEventTransition`
unfoldable pub host_event_transition : HostMonitoringEvent → String
host_event_transition event = host_transition event.event_type event

-- `>=` on parsed times, false where one is NaN.
abbrev pub at_least : Option ℕ → Option ℕ → Bool
at_least (some a) (some b) = leb b a
at_least _ _ = false

-- Whether the comparator that subtracts the parsed times keeps the left item first; NaN counts as 0.
abbrev pub no_later : Option ℕ → Option ℕ → Bool
no_later (some a) (some b) = leb a b
no_later _ _ = true

abbrev is_oom_type : MonitoringEventType → Bool
is_oom_type MonitoringEventType.oom_killed = true
is_oom_type _ = false

abbrev is_critical_event : MonitoringEventSeverity → Bool
is_critical_event MonitoringEventSeverity.critical = true
is_critical_event _ = false

abbrev pub is_oom_event : MonitoringEvent → Bool
is_oom_event event = is_oom_type event.event_type && is_critical_event event.severity
