-- ===== src/Incident/Signals.antt =====
-- The signals of apps/web/lib/incidents.ts: which events open one, which resolve it, and the fold
-- `deriveOpenSignals` over the events of one container.
pub mod Laws
pub mod Starts
use ivrm_dashboard.Prelude.{
  ℕ, Bool, true, false, not, ◌&&◌, ◌||◌, List, [], ◌∷◌, Option, none, some, String, Runtime, concat,
  or_else, str_eq, if◌then◌else◌, ◌==◌, ltb,
}
use ivrm_dashboard.Monitoring.Types.{ContainerExpectedState}
use ivrm_dashboard.Incident.{IncidentSeverity, severity_rank}
use ivrm_dashboard.Incident.Names.{oom_killed_reason}
use ivrm_dashboard.Incident.Events.{
  MonitoringEvent, MonitoringEventSeverity, MonitoringEventType, recovery, state_changed,
  health_changed, restart_count_increased, oom_killed, exit_code_changed, maintenance_started,
  maintenance_ended,
}

pub data SignalName : Type 0 where
  state health exit : SignalName

pub record OpenSignal : Type 0 where
  pub started_at : String
  pub severity : IncidentSeverity
  pub start_event : MonitoringEvent

-- `maxSeverity`
unfoldable pub max_severity : IncidentSeverity → IncidentSeverity → IncidentSeverity
max_severity left right = if ltb (severity_rank left) (severity_rank right) then right else left

-- `incidentSeverity`
abbrev pub incident_severity : MonitoringEventSeverity → Option IncidentSeverity
incident_severity MonitoringEventSeverity.critical = some IncidentSeverity.critical
incident_severity MonitoringEventSeverity.warning = some IncidentSeverity.warning
incident_severity _ = none

-- `SIGNAL_TYPES.get`
abbrev pub signal_of : MonitoringEventType → Option SignalName
signal_of state_changed = some state
signal_of health_changed = some health
signal_of exit_code_changed = some exit
signal_of _ = none

-- `signalName`
abbrev pub signal_name : MonitoringEvent → Option SignalName
signal_name event = signal_of event.event_type

abbrev pub is_value : Option String → String → Bool
is_value none s = false
is_value (some v) s = str_eq v s

abbrev is_recovery : MonitoringEventSeverity → Bool
is_recovery recovery = true
is_recovery _ = false

abbrev expects : Option ContainerExpectedState → ℕ
expects none = 0
expects (some ContainerExpectedState.running) = 1
expects (some ContainerExpectedState.stopped) = 2
expects (some ContainerExpectedState.absent) = 3

-- `===` on expected states.
abbrev pub expected_eq : Option ContainerExpectedState → Option ContainerExpectedState → Bool
expected_eq a b = expects a == expects b

abbrev resolves_state : Option ContainerExpectedState → Option String → Bool
resolves_state (some ContainerExpectedState.stopped) to_value =
    is_value to_value "exited" || is_value to_value "created"
resolves_state (some ContainerExpectedState.absent) to_value = is_value to_value "not_found"
resolves_state _ to_value = is_value to_value "running"

abbrev pub resolves_type :
    ⦃runtime : Runtime⦄ → MonitoringEventType → Option ContainerExpectedState → Option String → Bool
resolves_type health_changed expected_state to_value = is_value to_value "healthy"
resolves_type exit_code_changed expected_state none = false
resolves_type ⦃runtime⦄ exit_code_changed expected_state (some exit_code) =
    runtime.is_zero exit_code
resolves_type state_changed expected_state to_value = resolves_state expected_state to_value
resolves_type _ expected_state to_value = false

-- `resolvesSignal`
unfoldable pub resolves_signal : ⦃runtime : Runtime⦄ → MonitoringEvent → Bool
resolves_signal event =
    is_recovery event.severity || resolves_type event.event_type event.expected_state event.to_value

abbrev pub shown : Option String → String
shown value = or_else value "不明"

abbrev arrow : String → MonitoringEvent → String
arrow label event = concat (label ∷ shown event.from_value ∷ " → " ∷ shown event.to_value ∷ [])

abbrev transition_of : MonitoringEventType → MonitoringEvent → String
transition_of state_changed event = arrow "State " event
transition_of health_changed event = arrow "Health " event
transition_of exit_code_changed event = arrow "ExitCode " event
transition_of restart_count_increased event = arrow "RestartCount " event
transition_of oom_killed event = oom_killed_reason
transition_of maintenance_started event = "メンテナンス開始"
transition_of maintenance_ended event = "メンテナンス終了"

-- `eventTransition`
unfoldable pub event_transition : MonitoringEvent → String
event_transition event = transition_of event.event_type event

-- A `Map` or a `Set` with signal names for keys; their order is never read.
pub record PerSignal {ℓ} (A : Type ℓ) : Type ℓ where
  pub on_state : A
  pub on_health : A
  pub on_exit : A

module _ {ℓ} {A : Type ℓ} where
  abbrev pub lookup : SignalName → PerSignal A → A
  lookup state m = m.on_state
  lookup health m = m.on_health
  lookup exit m = m.on_exit

  abbrev pub update : SignalName → A → PerSignal A → PerSignal A
  update state a m = record m { on_state = a }
  update health a m = record m { on_health = a }
  update exit a m = record m { on_exit = a }

  abbrev pub constant : A → PerSignal A
  constant a = record { on_state = a; on_health = a; on_exit = a }

-- The variables of `deriveOpenSignals`; `expected_state` is none before the first event.
pub record SignalState : Type 0 where
  pub signals : PerSignal (Option OpenSignal)
  pub expected_state : Option (Option ContainerExpectedState)

abbrev pub same_expectation :
    Option (Option ContainerExpectedState) → Option ContainerExpectedState → Bool
same_expectation none expected = true
same_expectation (some current) expected = expected_eq expected current

-- A signal that is open keeps its start, and takes the larger severity.
abbrev pub raise : MonitoringEvent → IncidentSeverity → Option OpenSignal → OpenSignal
raise event severity none = record {
  started_at = event.occurred_at;
  severity = severity;
  start_event = event;
}
raise event severity (some open_signal) = record open_signal {
  severity = max_severity open_signal.severity severity;
}

-- What the round does to the signal that the event is about.
abbrev pub open_or_resolve :
    ⦃runtime : Runtime⦄
    → MonitoringEvent
    → Option IncidentSeverity
    → Option OpenSignal
    → Option OpenSignal
open_or_resolve event (some severity) signal = some (raise event severity signal)
open_or_resolve event none signal = if resolves_signal event then none else signal

abbrev pub touch_signal :
    ⦃runtime : Runtime⦄
    → MonitoringEvent
    → Option SignalName
    → PerSignal (Option OpenSignal)
    → PerSignal (Option OpenSignal)
touch_signal event none signals = signals
touch_signal event (some name) signals =
    update name (open_or_resolve event (incident_severity event.severity) (lookup name signals))
      signals

-- One round of `deriveOpenSignals`.
unfoldable pub signal_step : ⦃runtime : Runtime⦄ → SignalState → MonitoringEvent → SignalState
signal_step current event = record {
  signals = touch_signal event (signal_name event) (
      if same_expectation current.expected_state event.expected_state
      then current.signals
      else constant none);
  expected_state = some event.expected_state;
}

unfoldable pub signals_from : ⦃runtime : Runtime⦄ → SignalState → List MonitoringEvent → SignalState
signals_from current [] = current
signals_from current (event ∷ rest) = signals_from (signal_step current event) rest

abbrev pub no_signals : SignalState
no_signals = record { signals = constant none; expected_state = none }

-- `deriveOpenSignals`
unfoldable pub derive_open_signals :
    ⦃runtime : Runtime⦄ → List MonitoringEvent → PerSignal (Option OpenSignal)
unfolding signals_from signal_step
derive_open_signals events = (signals_from no_signals events).signals
