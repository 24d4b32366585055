-- ===== src/Tests/Incidents.antt =====
-- A container that stops, fails its health check, and recovers.
use ivrm_dashboard.Prelude.{
  ℕ, ◌≡◌, refl, List, [], ◌∷◌, some, none, String, Runtime, All, map, first,
}
use ivrm_dashboard.Monitoring.Types.{ContainerExpectedState}
use ivrm_dashboard.Incident.Events.{
  MonitoringEvent, MonitoringEventSeverity, MonitoringEventType, state_changed, health_changed,
}
use ivrm_dashboard.Incident.Signals.{
  SignalName, health, lookup, resolves_signal, signals_from, no_signals, derive_open_signals,
}
use ivrm_dashboard.Incident.Signals.Laws.{is_some, opened_in, is_open-derive_open_signals}
use ivrm_dashboard.Incident.Signals.Starts.{
  AllOpened, opener_of, first_opener, derive_open_signals-IsTracked,
}
use ivrm_dashboard.Incident.Episodes.{
  some_active, episodes_from, no_episode, derive_recovered_of, close_episode,
}
use ivrm_dashboard.Incident.Episodes.Laws.{
  IsRecovery, episodes-signals, derive_recovered_of-IsRecovery,
}
use ivrm_dashboard.Tests.Fixtures.{midnight, calendar}

instance abbrev runtime : Runtime
runtime = calendar

abbrev event : ℕ → String → MonitoringEventType → MonitoringEventSeverity → String → MonitoringEvent
event id occurred_at type severity to_value = record {
  id = id;
  host_id = "host-1";
  server_id = "oci-main";
  host_display_name = "OCI";
  container_name = "mc-main";
  occurred_at = occurred_at;
  event_type = type;
  severity = severity;
  from_value = none;
  to_value = some to_value;
  expected_state = some ContainerExpectedState.running;
}

abbrev outage : List MonitoringEvent
outage =
    event 1 "2026-08-01T00:00:00.000Z" state_changed MonitoringEventSeverity.critical "exited"
    ∷ event 2 "2026-08-01T00:10:00.000Z" state_changed MonitoringEventSeverity.info "running"
    ∷ event 3 "2026-08-01T00:20:00.000Z" health_changed MonitoringEventSeverity.warning "unhealthy"
    ∷ []

outage_run : map (λ i. i.duration_seconds) (derive_recovered_of midnight outage) ≡ 600 ∷ []
unfolding derive_recovered_of close_episode resolves_signal
outage_run = refl

is_open-derive_open_signals_example :
    is_some (lookup health (derive_open_signals outage)) ≡ opened_in health outage
is_open-derive_open_signals_example = is_open-derive_open_signals health outage

abbrev worse : List MonitoringEvent
worse =
    event 3 "2026-08-01T00:20:00.000Z" health_changed MonitoringEventSeverity.warning "unhealthy"
    ∷ event 4 "2026-08-01T00:30:00.000Z" health_changed MonitoringEventSeverity.critical "unhealthy"
    ∷ []

worse_run : first_opener health worse ≡ first worse
unfolding resolves_signal
worse_run = refl

derive_open_signals-IsTracked_example :
    AllOpened health
      (signals_from no_signals worse).expected_state
      (lookup health (derive_open_signals worse))
    × opener_of (lookup health (derive_open_signals worse)) ≡ first_opener health worse
derive_open_signals-IsTracked_example = derive_open_signals-IsTracked worse health

episodes-signals_example :
    let final = (episodes_from midnight no_episode outage).0 in
    ((name : SignalName)
      → lookup name final.active_signals ≡ is_some (lookup name (derive_open_signals outage)))
    × (is_some final.episode ≡ some_active final.active_signals)
episodes-signals_example = episodes-signals midnight outage

derive_recovered_of-IsRecovery_example :
    All (IsRecovery midnight) (derive_recovered_of midnight outage)
derive_recovered_of-IsRecovery_example = derive_recovered_of-IsRecovery midnight outage
