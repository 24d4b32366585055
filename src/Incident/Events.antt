-- ===== src/Incident/Events.antt =====
-- The monitoring events of apps/web/lib/monitoring-events.ts and host-monitoring-events.ts, as
-- apps/web/lib/incidents.ts reads them.
use ivrm_dashboard.Prelude.{ℕ, Option, String}
use ivrm_dashboard.Monitoring.Types.{ContainerExpectedState}

pub data MonitoringEventSeverity : Type 0 where
  info warning critical recovery : MonitoringEventSeverity

pub data MonitoringEventType : Type 0 where
  state_changed health_changed restart_count_increased oom_killed exit_code_changed :
      MonitoringEventType
  maintenance_started maintenance_ended : MonitoringEventType

pub record MonitoringEvent : Type 0 where
  pub id : ℕ
  pub host_id : String
  pub server_id : String
  pub host_display_name : String
  pub container_name : String
  pub occurred_at : String
  pub event_type : MonitoringEventType
  pub severity : MonitoringEventSeverity
  pub from_value : Option String
  pub to_value : Option String
  pub expected_state : Option ContainerExpectedState

pub data HostMonitoringEventType : Type 0 where
  host_reboot_detected agent_version_changed heartbeat_gap_detected : HostMonitoringEventType

pub data HostMonitoringEventSeverity : Type 0 where
  info warning : HostMonitoringEventSeverity

pub record HostMonitoringEvent : Type 0 where
  pub id : ℕ
  pub host_id : String
  pub server_id : String
  pub host_display_name : String
  pub occurred_at : String
  pub event_type : HostMonitoringEventType
  pub severity : HostMonitoringEventSeverity
  pub from_value : Option String
  pub to_value : Option String
  pub numeric_value : Option ℕ
