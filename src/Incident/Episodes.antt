-- ===== src/Incident/Episodes.antt =====
-- `deriveRecoveredContainerIncidents` of apps/web/lib/incidents.ts, over the events of one container:
-- the signals that are active, the episode that they form, and the incident that its end records.
pub mod Laws
use ivrm_dashboard.Prelude.{
  ℕ, ◌+◌, ◌-◌, ◌/◌, Bool, true, false, not, ◌&&◌, ◌||◌, List, [], ◌∷◌, ◌++◌, Option, none, some,
  String, Runtime, leb, if◌then◌else◌,
}
use ivrm_dashboard.Monitoring.Types.{ContainerExpectedState}
use ivrm_dashboard.Incident.{
  IncidentSeverity, IncidentSubject, RecoveredIncident, IncidentId, recovered_container, container,
}
use ivrm_dashboard.Incident.Events.{MonitoringEvent}
use ivrm_dashboard.Incident.Signals.{
  SignalName, max_severity, incident_severity, signal_name, resolves_signal, event_transition,
  PerSignal, lookup, update, constant, same_expectation,
}

pub record OpenEpisode : Type 0 where
  pub started_at : String
  pub severity : IncidentSeverity
  pub start_event : MonitoringEvent
  pub event_count : ℕ

-- The variables of the loop; `expected_state` is none before the first event.
pub record EpisodeState : Type 0 where
  pub active_signals : PerSignal Bool
  pub episode : Option OpenEpisode
  pub expected_state : Option (Option ContainerExpectedState)

-- `activeSignals.size > 0`
abbrev pub some_active : PerSignal Bool → Bool
some_active m = m.on_state || m.on_health || m.on_exit

-- An event that opens a signal starts an episode, or raises the one that is open.
abbrev pub extend : MonitoringEvent → IncidentSeverity → Option OpenEpisode → OpenEpisode
extend event severity none = record {
  started_at = event.occurred_at;
  severity = severity;
  start_event = event;
  event_count = 1;
}
extend event severity (some episode) = record episode {
  severity = max_severity episode.severity severity;
  event_count = episode.event_count + 1;
}

module _ ⦃runtime : Runtime⦄ (range_start : ℕ) where
  recovered_incident : OpenEpisode → MonitoringEvent → ℕ → ℕ → RecoveredIncident
  recovered_incident episode event start recovered_at = record {
    subject = record {
      id = recovered_container episode.start_event.id event.id;
      entity_type = container;
      severity = episode.severity;
      host_id = event.host_id;
      server_id = event.server_id;
      host_display_name = event.host_display_name;
      container_name = some event.container_name;
      backup_target = none;
      game_mode = none;
      backup_type = none;
      start_reason = event_transition episode.start_event;
      related_event_count = episode.event_count;
    };
    started_at = episode.started_at;
    recovered_at = event.occurred_at;
    duration_seconds = (recovered_at - start) / 1000;
    recovery_reason = event_transition event;
  }

  -- An episode is recorded if its times can be read, are in order, and it ends in the range.
  close_at : OpenEpisode → MonitoringEvent → Option ℕ → Option ℕ → List RecoveredIncident
  close_at episode event (some start) (some recovered_at) =
      if leb start recovered_at && leb range_start recovered_at
      then recovered_incident episode event start recovered_at ∷ []
      else []
  close_at episode event _ _ = []

  unfoldable pub close_episode : OpenEpisode → MonitoringEvent → List RecoveredIncident
  unfolding close_at recovered_incident
  close_episode episode event =
      close_at episode event (runtime.parse episode.started_at) (runtime.parse event.occurred_at)

  -- The last signal of an episode is resolved, or another one is still active.
  resolve_in :
      PerSignal Bool
      → OpenEpisode
      → MonitoringEvent
      → EpisodeState
      → EpisodeState × List RecoveredIncident
  resolve_in remaining episode event current =
      let counted : OpenEpisode = record episode { event_count = episode.event_count + 1 } in
      if some_active remaining
      then (record current { active_signals = remaining; episode = some counted }, [])
      else (
        record current { active_signals = remaining; episode = none },
        close_episode counted event,
      )

  -- An event that opens no signal: it may resolve one that is active.
  resolve :
      SignalName
      → MonitoringEvent
      → Option OpenEpisode
      → EpisodeState
      → EpisodeState × List RecoveredIncident
  unfolding resolve_in
  resolve name event none current = (current, [])
  resolve name event (some episode) current =
      if resolves_signal event && lookup name current.active_signals
      then resolve_in (update name false current.active_signals) episode event current
      else (current, [])

  touch :
      MonitoringEvent
      → Option SignalName
      → Option IncidentSeverity
      → EpisodeState
      → EpisodeState × List RecoveredIncident
  unfolding resolve
  touch event none severity current = (current, [])
  touch event (some name) (some severity) current = (
    record current {
      active_signals = update name true current.active_signals;
      episode = some (extend event severity current.episode);
    },
    [],
  )
  touch event (some name) none current = resolve name event current.episode current

  -- A change of the expected state drops the episode.
  unfoldable pub expect : EpisodeState → MonitoringEvent → EpisodeState
  expect current event =
      if same_expectation current.expected_state event.expected_state
      then record current { expected_state = some event.expected_state }
      else record {
        active_signals = constant false;
        episode = none;
        expected_state = some event.expected_state;
      }

  -- One round of the loop over a container's events.
  unfoldable pub episode_step :
      EpisodeState → MonitoringEvent → EpisodeState × List RecoveredIncident
  unfolding touch expect
  episode_step current event =
      touch event (signal_name event) (incident_severity event.severity) (expect current event)

  unfoldable pub episodes_from :
      EpisodeState → List MonitoringEvent → EpisodeState × List RecoveredIncident
  episodes_from current [] = (current, [])
  episodes_from current (event ∷ rest) =
      let (next, recovered) = episode_step current event in
      let (final, later) = episodes_from next rest in (final, recovered ++ later)

abbrev pub no_episode : EpisodeState
no_episode = record { active_signals = constant false; episode = none; expected_state = none }

-- The incidents that the events of one container record.
unfoldable pub derive_recovered_of :
    ⦃runtime : Runtime⦄ → ℕ → List MonitoringEvent → List RecoveredIncident
unfolding episodes_from episode_step
derive_recovered_of range_start events = (episodes_from range_start no_episode events).1
