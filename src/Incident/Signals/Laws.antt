-- ===== src/Incident/Signals/Laws.antt =====
-- Which signals are open after a list of events.
use ivrm_dashboard.Prelude.{
  ℕ, ◌≡◌, refl, ◌∙◌, Bool, true, false, not, ◌&&◌, ◌||◌, List, [], ◌∷◌, Option, none, some, Runtime,
  arith, ◌==◌,
}
use ivrm_dashboard.Monitoring.Types.{ContainerExpectedState}
use ivrm_dashboard.Incident.Events.{MonitoringEvent}
use ivrm_dashboard.Incident.Signals.{
  SignalName, state, health, exit, incident_severity, signal_name, resolves_signal,
  same_expectation, lookup, SignalState, signal_step, signals_from, no_signals, derive_open_signals,
}

abbrev pub is_some {ℓ} : {A : Type ℓ} → Option A → Bool
is_some none = false
is_some (some _) = true

abbrev code : SignalName → ℕ
code state = 0
code health = 1
code exit = 2

abbrev is_signal : SignalName → Option SignalName → Bool
is_signal name none = false
is_signal name (some other) = code name == code other

-- The event opens the signal: it is about the signal, and a warning or critical.
abbrev pub opens : SignalName → MonitoringEvent → Bool
opens name event = is_signal name (signal_name event) && is_some (incident_severity event.severity)

-- The event resolves the signal.
abbrev pub resolves : ⦃runtime : Runtime⦄ → SignalName → MonitoringEvent → Bool
resolves name event =
    is_signal name (signal_name event)
    && not (is_some (incident_severity event.severity))
    && resolves_signal event

-- No later event resolves the signal, and none changes what is expected of the container.
abbrev pub stays_open :
    ⦃runtime : Runtime⦄
    → SignalName
    → Option (Option ContainerExpectedState)
    → List MonitoringEvent
    → Bool
stays_open name expected [] = true
stays_open name expected (event ∷ rest) =
    same_expectation expected event.expected_state
    && not (resolves name event)
    && stays_open name (some event.expected_state) rest

-- Some event opens the signal, and after it the signal stays open.
abbrev pub opened_in : ⦃runtime : Runtime⦄ → SignalName → List MonitoringEvent → Bool
opened_in name [] = false
opened_in name (event ∷ rest) =
    (opens name event && stays_open name (some event.expected_state) rest) || opened_in name rest

module _ ⦃runtime : Runtime⦄ where
  pub lookup-signal_step :
      (name : SignalName) (current : SignalState) (event : MonitoringEvent)
      → is_some (lookup name (signal_step current event).signals) ≡ (
          opens name event
          || (is_some (lookup name current.signals)
              && same_expectation current.expected_state event.expected_state
              && not (resolves name event)))
  unfolding signal_step
  lookup-signal_step state current event = ground arith
  lookup-signal_step health current event = ground arith
  lookup-signal_step exit current event = ground arith

  pub expected-signal_step :
      (current : SignalState) (event : MonitoringEvent)
      → (signal_step current event).expected_state ≡ some event.expected_state
  unfolding signal_step
  expected-signal_step current event = refl

  lookup-signals_from :
      (name : SignalName) (current : SignalState) (events : List MonitoringEvent)
      → is_some (lookup name (signals_from current events).signals) ≡ (
          (is_some (lookup name current.signals) && stays_open name current.expected_state events)
          || opened_in name events)
  unfolding signals_from
  lookup-signals_from name current [] = ground arith
  lookup-signals_from name current (event ∷ rest) =
      lookup-signals_from name (signal_step current event) rest
      ∙ ground (arith, lookup-signal_step name current event, expected-signal_step current event)

  -- After the events of a container a signal is open exactly when some event opened it, no later
  -- event resolved it, and the expected state has not changed since.
  pub is_open-derive_open_signals :
      (name : SignalName) (events : List MonitoringEvent)
      → is_some (lookup name (derive_open_signals events)) ≡ opened_in name events
  unfolding derive_open_signals
  is_open-derive_open_signals name events = lookup-signals_from name no_signals events ∙ closed name
    where
      closed :
          (n : SignalName)
          → ((is_some (lookup n no_signals.signals) && stays_open n none events)
              || opened_in n events)
            ≡ opened_in n events
      closed state = refl
      closed health = refl
      closed exit = refl
