-- ===== src/Tests/Fixtures.antt =====
-- A calendar with a few known timestamps of 1 August 2026, and the records that the tests share.
use ivrm_dashboard.Prelude.{
  ℕ, ◌+◌, ◌*◌, true, Option, none, some, String, Runtime, str_eq, if◌then◌else◌,
}
use ivrm_dashboard.Incident.{
  IncidentSubject, ActiveIncident, RecoveredIncident, IncidentSeverity, container, ActiveStatus,
  recovered_container,
}
use ivrm_dashboard.Reliability.Types.{overall, MaintenanceWindow, service_scope}

-- Midnight, in milliseconds from the earliest instant of a `Date`.
abbrev pub midnight : ℕ
midnight = 8641785542400000

abbrev pub minutes : ℕ → ℕ
minutes n = n * 60000

abbrev parse : String → Option ℕ
parse text =
    if str_eq text "2026-08-01T00:00:00.000Z"
    then some midnight
    else if str_eq text "2026-08-01T00:10:00.000Z"
    then some (midnight + minutes 10)
    else if str_eq text "2026-08-01T00:20:00.000Z"
    then some (midnight + minutes 20)
    else if str_eq text "2026-08-01T00:30:00.000Z"
    then some (midnight + minutes 30)
    else if str_eq text "2026-08-01T01:00:00.000Z"
    then some (midnight + minutes 60)
    else none

abbrev pub calendar : Runtime
calendar = record {
  parse = parse;
  to_iso_string = λ t. "2026-08-01T01:00:00.000Z";
  is_zero = λ text. str_eq text "0";
  trim = λ text. text;
  to_lower_case = λ text. text;
}

abbrev pub subject : String → IncidentSubject
subject reason = record {
  id = recovered_container 1 2;
  entity_type = container;
  severity = IncidentSeverity.critical;
  host_id = "host-1";
  server_id = "oci-main";
  host_display_name = "OCI";
  container_name = some "mc-main";
  backup_target = none;
  game_mode = none;
  backup_type = none;
  start_reason = reason;
  related_event_count = 2;
}

abbrev pub recovered : String → RecoveredIncident
recovered reason = record {
  subject = subject reason;
  started_at = "2026-08-01T00:00:00.000Z";
  recovered_at = "2026-08-01T00:20:00.000Z";
  duration_seconds = 1200;
  recovery_reason = "State exited → running";
}

abbrev pub still_active : ActiveIncident
still_active = record {
  subject = subject "Health healthy → unhealthy";
  current_status = ActiveStatus.error;
  started_at = some "2026-08-01T00:30:00.000Z";
  duration_seconds = some 1800;
  latest_transition_at = none;
  latest_transition = none;
  exact_start = true;
}

abbrev pub window : MaintenanceWindow
window = record {
  scope_type = service_scope;
  service_id = some overall;
  host_id = none;
  container_name = none;
  backup_target = none;
  game_mode = none;
  backup_type = none;
  starts_at = "2026-08-01T00:10:00.000Z";
  ends_at = "2026-08-01T01:00:00.000Z";
  cancelled_at = some "2026-08-01T00:30:00.000Z";
}
