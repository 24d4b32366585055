-- ===== src/Incident/Active/Containers.antt =====
-- `deriveActiveContainerIncidents` of apps/web/lib/incidents.ts: which containers have an incident, since
-- when, and how severe it is.
use ivrm_dashboard.Prelude.{
  ℕ, ◌-◌, ◌/◌, Bool, true, false, List, [], ◌∷◌, ◌++◌, Option, none, some, String, Runtime, or_else,
  filter, length, first, last, ltb, sort_by, if◌then◌else◌, truthy,
}
use ivrm_dashboard.Prelude.StringMap.{get, set}
use ivrm_dashboard.Monitoring.Types.{
  ContainerExpectedState, HostOverview, ContainerOverview, MonitoringSnapshot,
}
use ivrm_dashboard.Incident.{
  IncidentSeverity, ActiveIncident, ActiveStatus, active_container, container,
}
use ivrm_dashboard.Incident.Events.{MonitoringEvent}
use ivrm_dashboard.Incident.Signals.{
  OpenSignal, max_severity, event_transition, derive_open_signals, PerSignal, expected_eq,
}
use ivrm_dashboard.Incident.Active.{
  state_is_incident, health_is_incident, incident_status, fallback_severity, entity_key, at_least,
  no_later, is_oom_event,
}

-- A signal of the container's present expectation.
abbrev pub current_signal : Option ContainerExpectedState → Option OpenSignal → List OpenSignal
current_signal expected none = []
current_signal expected (some signal) =
    if expected_eq signal.start_event.expected_state expected then signal ∷ [] else []

abbrev pub oom_signal : Option MonitoringEvent → List OpenSignal
oom_signal none = []
oom_signal (some event) =
    record {
      started_at = event.occurred_at;
      severity = IncidentSeverity.critical;
      start_event = event;
    }
    ∷ []

-- `candidates.reduce(…)`
unfoldable pub reduce_severity : IncidentSeverity → List OpenSignal → IncidentSeverity
unfolding max_severity
reduce_severity severity [] = severity
reduce_severity severity (signal ∷ rest) =
    reduce_severity (max_severity severity signal.severity) rest

module _ {Number : Type 0} where
  -- `hostById`
  unfoldable pub host_by_id :
      List (String × HostOverview Number)
      → List (HostOverview Number)
      → List (String × HostOverview Number)
  host_by_id m [] = m
  host_by_id m (h ∷ rest) = host_by_id (set h.id h m) rest

  -- `candidates`, before they are sorted
  unfoldable pub candidate_signals :
      ContainerOverview Number
      → PerSignal (Option OpenSignal)
      → List MonitoringEvent
      → List OpenSignal
  candidate_signals overview signals events =
      (if state_is_incident overview.expected_state overview.state
        then current_signal overview.expected_state signals.on_state
        else [])
      ++ ((if health_is_incident overview.expected_state overview.health
            then current_signal overview.expected_state signals.on_health
            else [])
          ++ (if overview.oom_killed then oom_signal (last (filter is_oom_event events)) else []))

module _ ⦃runtime : Runtime⦄ where
  abbrev seconds_between : Option ℕ → Option ℕ → Option ℕ
  seconds_between (some start) (some end) =
      if ltb end start then none else some ((end - start) / 1000)
  seconds_between _ _ = none

  abbrev pub opt_duration : Option String → String → Option ℕ
  opt_duration none ended_at = none
  opt_duration (some started_at) ended_at =
      seconds_between (runtime.parse started_at) (runtime.parse ended_at)

  -- `durationSeconds`; the empty text counts as null.
  unfoldable pub duration_seconds : Option String → String → Option ℕ
  duration_seconds started_at ended_at = opt_duration (truthy started_at) ended_at

  abbrev pub earlier_signal : OpenSignal → OpenSignal → Bool
  earlier_signal left right =
      no_later (runtime.parse left.started_at) (runtime.parse right.started_at)

  -- Whether an event is not before the start, if there is one.
  abbrev pub from_start : Option String → MonitoringEvent → Bool
  from_start none event = true
  from_start (some started_at) event =
      at_least (runtime.parse event.occurred_at) (runtime.parse started_at)

  abbrev pub opt_severity : ActiveStatus → List OpenSignal → IncidentSeverity
  opt_severity status [] = fallback_severity status
  opt_severity status (signal ∷ rest) = reduce_severity signal.severity (signal ∷ rest)

  abbrev opt_started_at : Option OpenSignal → Option String
  opt_started_at none = none
  opt_started_at (some signal) = some signal.started_at

  abbrev opt_reason : Option OpenSignal → String
  unfolding event_transition
  opt_reason none = "開始Transitionを監視イベントから特定できません"
  opt_reason (some signal) = event_transition signal.start_event

  abbrev opt_exact : Option OpenSignal → Bool
  opt_exact none = false
  opt_exact (some _) = true

  abbrev opt_occurred : Option MonitoringEvent → Option String
  opt_occurred none = none
  opt_occurred (some event) = some event.occurred_at

  abbrev opt_transition : Option MonitoringEvent → Option String
  unfolding event_transition
  opt_transition none = none
  opt_transition (some event) = some (event_transition event)

  module _ {Number : Type 0} where
    -- The incident of a container, from its sorted candidates and its events.
    unfoldable pub container_incident :
        String
        → ContainerOverview Number
        → HostOverview Number
        → ActiveStatus
        → List OpenSignal
        → List MonitoringEvent
        → ActiveIncident
    unfolding duration_seconds opt_reason opt_transition
    container_incident generated_at overview host_row status candidates events =
        let start = first candidates in
        let started_at = opt_started_at start in
        let related = filter (from_start (truthy started_at)) events in
        record {
          subject = record {
            id = active_container overview.host_id overview.name;
            entity_type = container;
            severity = opt_severity status candidates;
            host_id = overview.host_id;
            server_id = host_row.server_id;
            host_display_name = host_row.display_name;
            container_name = some overview.name;
            backup_target = none;
            game_mode = none;
            backup_type = none;
            start_reason = opt_reason start;
            related_event_count = length related;
          };
          current_status = status;
          started_at = started_at;
          duration_seconds = duration_seconds started_at generated_at;
          latest_transition_at = opt_occurred (last related);
          latest_transition = opt_transition (last related);
          exact_start = opt_exact start;
        }

    unfoldable pub with_host :
        String
        → ContainerOverview Number
        → ActiveStatus
        → Option (HostOverview Number)
        → List MonitoringEvent
        → List ActiveIncident
    unfolding container_incident candidate_signals derive_open_signals
    with_host generated_at overview status none events = []
    with_host generated_at overview status (some host_row) events =
        container_incident generated_at overview host_row status
          (sort_by earlier_signal (candidate_signals overview (derive_open_signals events) events))
          events
        ∷ []

    unfoldable pub with_status :
        String
        → List (String × HostOverview Number)
        → List (String × List MonitoringEvent)
        → ContainerOverview Number
        → Option ActiveStatus
        → List ActiveIncident
    unfolding with_host entity_key
    with_status generated_at hosts grouped overview none = []
    with_status generated_at hosts grouped overview (some status) =
        if overview.maintenance_active
        then []
        else with_host generated_at overview status (get overview.host_id hosts)
            (or_else (get (entity_key overview.host_id (some overview.name)) grouped) [])

    -- The loop of `deriveActiveContainerIncidents`.
    unfoldable pub active_containers_from :
        String
        → List (String × HostOverview Number)
        → List (String × List MonitoringEvent)
        → List (ContainerOverview Number)
        → List ActiveIncident
    unfolding with_status
    active_containers_from generated_at hosts grouped [] = []
    active_containers_from generated_at hosts grouped (overview ∷ rest) =
        with_status generated_at hosts grouped overview (incident_status overview.status)
        ++ active_containers_from generated_at hosts grouped rest

    -- `deriveActiveContainerIncidents`
    unfoldable pub derive_active_container_incidents :
        MonitoringSnapshot Number → List (String × List MonitoringEvent) → List ActiveIncident
    unfolding active_containers_from host_by_id
    derive_active_container_incidents snapshot grouped =
        active_containers_from snapshot.generated_at (host_by_id [] snapshot.hosts) grouped
          snapshot.containers
