-- ===== src/Incident/Center.antt =====
-- `getIncidentCenterSnapshot` of apps/web/lib/incidents.ts, from the results of its queries on: the
-- monitoring snapshot and the events of the last 30 days and before. `generated` is
-- `Date.parse(snapshot.generatedAt)`.
pub mod Counts
use ivrm_dashboard.Prelude.{
  ℕ, ◌+◌, ◌-◌, ◌*◌, max, Bool, true, false, not, ◌&&◌, List, [], ◌∷◌, ◌++◌, map, Option, none, some,
  String, Runtime, any, str_eq, filter, length, first, leb, ltb, sort_by, if◌then◌else◌, ◌==◌,
  truthy,
}
use ivrm_dashboard.Monitoring.Types.{MonitoringSnapshot}
use ivrm_dashboard.Incident.{
  IncidentRange, range_hours, IncidentSeverity, severity_rank, ActiveIncident, RecoveredIncident,
  is_critical, is_warning,
}
use ivrm_dashboard.Incident.Events.{
  MonitoringEvent, HostMonitoringEvent, MonitoringEventSeverity, HostMonitoringEventSeverity,
}
use ivrm_dashboard.Incident.Episodes.{derive_recovered_of}
use ivrm_dashboard.Incident.Active.{entity_key, no_later, at_least}
use ivrm_dashboard.Incident.Active.Containers.{derive_active_container_incidents}
use ivrm_dashboard.Incident.Active.Hosts.{derive_active_host_incidents}
use ivrm_dashboard.Incident.Gaps.{derive_recovered_host_gaps}
use ivrm_dashboard.Incident.Grouping.{event_by_entity, host_events_by_entity, merge_unique_events}
use ivrm_dashboard.Reliability.Metrics.{median}

pub record IncidentSummary : Type 0 where
  pub active_count : ℕ
  pub active_critical_count : ℕ
  pub active_warning_count : ℕ
  pub recovered_count : ℕ
  pub critical_event_count : ℕ
  pub warning_event_count : ℕ
  pub exact_recovery_count : ℕ
  pub median_recovery_seconds : Option ℕ
  pub longest_recovery_seconds : Option ℕ
  pub affected_entity_count : ℕ
  pub latest_recovered_at : Option String

pub record IncidentCenterSnapshot : Type 0 where
  pub generated_at : String
  pub range : IncidentRange
  pub active : List ActiveIncident
  pub recovered : List RecoveredIncident
  pub summary : IncidentSummary

abbrev is_critical_event : MonitoringEventSeverity → Bool
is_critical_event MonitoringEventSeverity.critical = true
is_critical_event _ = false

abbrev is_warning_event : MonitoringEventSeverity → Bool
is_warning_event MonitoringEventSeverity.warning = true
is_warning_event _ = false

abbrev is_host_warning : HostMonitoringEventSeverity → Bool
is_host_warning HostMonitoringEventSeverity.warning = true
is_host_warning _ = false

-- `affectedEntities.add(key)`, to the keys that are there.
abbrev pub add_key : String → List String → List String
add_key key keys = if any (str_eq key) keys then keys else keys ++ key ∷ []

abbrev pub longest : List ℕ → Option ℕ
longest [] = none
longest (d ∷ ds) = elim (longest ds) [ none ↦ some d | some e ↦ some (max d e) ]

abbrev pub opt_recovered_at : Option RecoveredIncident → Option String
opt_recovered_at none = none
opt_recovered_at (some incident) = some incident.recovered_at

abbrev pub active_keys : List String → List ActiveIncident → List String
unfolding entity_key
active_keys keys [] = keys
active_keys keys (incident ∷ rest) =
    active_keys (add_key (entity_key incident.host_id incident.container_name) keys) rest

abbrev pub recovered_keys : List String → List RecoveredIncident → List String
unfolding entity_key
recovered_keys keys [] = keys
recovered_keys keys (incident ∷ rest) =
    recovered_keys (add_key (entity_key incident.host_id incident.container_name) keys) rest

module _ ⦃runtime : Runtime⦄ where
  -- The order of the starts: none is infinite, and a difference that is NaN counts as 0.
  abbrev start_order : Option String → Option String → Bool
  start_order none none = true
  start_order (some left) none = true
  start_order none (some right) = elim (runtime.parse right) [ none ↦ true | some _ ↦ false ]
  start_order (some left) (some right) = no_later (runtime.parse left) (runtime.parse right)

  -- Critical incidents first, then by their start.
  unfoldable pub active_order : ActiveIncident → ActiveIncident → Bool
  active_order left right =
      if severity_rank left.severity == severity_rank right.severity
      then start_order (truthy left.started_at) (truthy right.started_at)
      else ltb (severity_rank right.severity) (severity_rank left.severity)

  -- The latest recovery first.
  unfoldable pub recovered_order : RecoveredIncident → RecoveredIncident → Bool
  recovered_order left right =
      no_later (runtime.parse right.recovered_at) (runtime.parse left.recovered_at)

  unfoldable pub derive_recovered_groups :
      ℕ → List (String × List MonitoringEvent) → List RecoveredIncident
  unfolding derive_recovered_of
  derive_recovered_groups range_start [] = []
  derive_recovered_groups range_start ((k, events) ∷ rest) =
      derive_recovered_of range_start events ++ derive_recovered_groups range_start rest

  -- `deriveRecoveredContainerIncidents`
  unfoldable pub derive_recovered_container_incidents :
      ℕ → List MonitoringEvent → List RecoveredIncident
  unfolding derive_recovered_groups event_by_entity
  derive_recovered_container_incidents range_start events =
      derive_recovered_groups range_start (event_by_entity events)

  abbrev since : ℕ → String → Bool
  since range_start occurred_at = at_least (runtime.parse occurred_at) (some range_start)

  -- The summary of the two lists and of the events in the range.
  unfoldable pub incident_summary :
      ℕ
      → List MonitoringEvent
      → List HostMonitoringEvent
      → List ActiveIncident
      → List RecoveredIncident
      → IncidentSummary
  unfolding active_keys recovered_keys median
  incident_summary range_start container_events host_events active recovered =
      let in_range = filter (λ event. since range_start event.occurred_at) container_events in
      let hosts_in_range = filter (λ event. since range_start event.occurred_at) host_events in
      let durations = map (λ incident. incident.duration_seconds) recovered in
      record {
        active_count = length active;
        active_critical_count = length (filter (λ incident. is_critical incident.severity) active);
        active_warning_count = length (filter (λ incident. is_warning incident.severity) active);
        recovered_count = length recovered;
        critical_event_count = length (filter (λ event. is_critical_event event.severity) in_range);
        warning_event_count =
            length (filter (λ event. is_warning_event event.severity) in_range)
            + length (filter (λ event. is_host_warning event.severity) hosts_in_range);
        exact_recovery_count = length recovered;
        median_recovery_seconds = median durations;
        longest_recovery_seconds = longest durations;
        affected_entity_count = length (recovered_keys (active_keys [] active) recovered);
        latest_recovered_at = opt_recovered_at (first recovered);
      }

  -- `getIncidentCenterSnapshot`
  unfoldable pub get_incident_center_snapshot :
      {Number : Type 0}
      → IncidentRange
      → ℕ
      → MonitoringSnapshot Number
      → List MonitoringEvent
      → List MonitoringEvent
      → List HostMonitoringEvent
      → IncidentCenterSnapshot
  unfolding active_order recovered_order derive_recovered_container_incidents incident_summary
  get_incident_center_snapshot range generated snapshot container_events container_context
        host_events =
      let events = merge_unique_events container_context container_events in
      let range_start = generated - range_hours range * 3600000 in
      let active = sort_by active_order (
        derive_active_host_incidents snapshot.hosts (host_events_by_entity host_events)
        ++ derive_active_container_incidents snapshot (event_by_entity events)) in
      let recovered = sort_by recovered_order (
        derive_recovered_container_incidents range_start events
        ++ derive_recovered_host_gaps range_start host_events) in
      record {
        generated_at = snapshot.generated_at;
        range = range;
        active = active;
        recovered = recovered;
        summary = incident_summary range_start container_events host_events active recovered;
      }
