-- ===== src/Incident/Signals/Starts.antt =====
-- Which event opened an open signal, and what the signal says of the event that opened it.
use ivrm_dashboard.Prelude.{
  ℕ, ◌≤◌, ◌<◌, ◌≡◌, refl, sym, ◌∙◌, true, not, ◌&&◌, if◌then◌else◌, List, [], ◌∷◌, Option, none,
  some, Runtime, arith, Bool-cases, inl, inr,
}
use ivrm_dashboard.Monitoring.Types.{ContainerExpectedState}
use ivrm_dashboard.Incident.{IncidentSeverity, severity_rank}
use ivrm_dashboard.Incident.Events.{MonitoringEvent}
use ivrm_dashboard.Incident.Signals.Laws.{
  is_some, opens, resolves, stays_open, lookup-signal_step, expected-signal_step,
}
use ivrm_dashboard.Incident.Signals.{
  SignalName, state, health, exit, OpenSignal, incident_severity, signal_name, same_expectation,
  expected_eq, resolves_signal, PerSignal, lookup, constant, SignalState, signal_step, signals_from,
  no_signals, max_severity, derive_open_signals, open_or_resolve, raise, touch_signal,
}

abbrev pub rank_of : Option IncidentSeverity → ℕ
rank_of none = 0
rank_of (some severity) = severity_rank severity

-- The signal was opened by an event about it, at its time, of no larger severity, under the
-- expected state that still holds.
pub record IsOpened (name : SignalName) (expected : Option ContainerExpectedState)
    (open_signal : OpenSignal) : Type 0 where
  pub about : signal_name open_signal.start_event ≡ some name
  pub since : open_signal.started_at ≡ open_signal.start_event.occurred_at
  pub rank_le :
      rank_of (incident_severity open_signal.start_event.severity)
      ≤ severity_rank open_signal.severity
  pub opening : 0 < rank_of (incident_severity open_signal.start_event.severity)
  pub current : open_signal.start_event.expected_state ≡ expected

-- An open signal was opened so; before the first event none is open.
abbrev pub AllOpened :
    SignalName → Option (Option ContainerExpectedState) → Option OpenSignal → Type 0
AllOpened name expected none = Unit {0}
AllOpened name none (some open_signal) = ⊥
AllOpened name (some expected) (some open_signal) = IsOpened name expected open_signal

-- It holds of each signal.
abbrev pub IsTracked : SignalState → Type 0
IsTracked s = (name : SignalName) → AllOpened name s.expected_state (lookup name s.signals)

expected_eq_sound : (a b : Option ContainerExpectedState) → expected_eq a b ≡ true → a ≡ b
expected_eq_sound none b h = ground arith
expected_eq_sound (some x) b h = ground arith

-- The event that opened the signal, if it is open.
abbrev pub opener_of : Option OpenSignal → Option MonitoringEvent
opener_of none = none
opener_of (some open_signal) = some open_signal.start_event

-- The first of the events that opens the signal and after which it stays open.
abbrev pub first_opener :
    ⦃runtime : Runtime⦄ → SignalName → List MonitoringEvent → Option MonitoringEvent
first_opener name [] = none
first_opener name (event ∷ rest) =
    let later = first_opener name rest in
    if opens name event && stays_open name (some event.expected_state) rest
    then some event
    else later

module _ ⦃runtime : Runtime⦄ where
  raise-IsOpened :
      (name : SignalName) (event : MonitoringEvent) (severity : IncidentSeverity)
      (signal : Option OpenSignal)
      → signal_name event ≡ some name
      → incident_severity event.severity ≡ some severity
      → AllOpened name (some event.expected_state) signal
      → IsOpened name event.expected_state (raise event severity signal)
  unfolding max_severity
  raise-IsOpened name event severity none h k _ = ground arith
  raise-IsOpened name event severity (some o) h k a = ground arith

  open_or_resolve-AllOpened :
      (name : SignalName) (event : MonitoringEvent) (severity : Option IncidentSeverity)
      (signal : Option OpenSignal)
      → signal_name event ≡ some name
      → incident_severity event.severity ≡ severity
      → AllOpened name (some event.expected_state) signal
      → AllOpened name (some event.expected_state) (open_or_resolve event severity signal)
  open_or_resolve-AllOpened name event (some severity) signal h k a =
      raise-IsOpened name event severity signal h k a
  open_or_resolve-AllOpened name event none signal h k a =
      elim (Bool-cases (resolves_signal event)) [ inl e ↦ rw e tt | inr e ↦ rw e a ]

  touch_signal-AllOpened :
      (event : MonitoringEvent) (about : Option SignalName) (m : PerSignal (Option OpenSignal))
      → signal_name event ≡ about
      → ((name : SignalName) → AllOpened name (some event.expected_state) (lookup name m))
      → (name : SignalName)
      → AllOpened name (some event.expected_state) (lookup name (touch_signal event about m))
  touch_signal-AllOpened event none m h a name = a name
  touch_signal-AllOpened event (some state) m h a state =
      open_or_resolve-AllOpened state event _ m.on_state h refl (a state)
  touch_signal-AllOpened event (some state) m h a health = a health
  touch_signal-AllOpened event (some state) m h a exit = a exit
  touch_signal-AllOpened event (some health) m h a state = a state
  touch_signal-AllOpened event (some health) m h a health =
      open_or_resolve-AllOpened health event _ m.on_health h refl (a health)
  touch_signal-AllOpened event (some health) m h a exit = a exit
  touch_signal-AllOpened event (some exit) m h a state = a state
  touch_signal-AllOpened event (some exit) m h a health = a health
  touch_signal-AllOpened event (some exit) m h a exit =
      open_or_resolve-AllOpened exit event _ m.on_exit h refl (a exit)

  kept-AllOpened :
      (name : SignalName) (current : Option (Option ContainerExpectedState))
      (expected : Option ContainerExpectedState) (signal : Option OpenSignal)
      → same_expectation current expected ≡ true
      → AllOpened name current signal
      → AllOpened name (some expected) signal
  kept-AllOpened name none expected none h a = tt
  kept-AllOpened name none expected (some o) h a = elim a [ ]
  kept-AllOpened name (some current) expected none h a = tt
  kept-AllOpened name (some current) expected (some o) h a = record {
    about = a.about;
    since = a.since;
    rank_le = a.rank_le;
    opening = a.opening;
    current = a.current ∙ sym (expected_eq_sound expected current h);
  }

  cleared-AllOpened :
      (name : SignalName) (expected : Option (Option ContainerExpectedState))
      → AllOpened name expected (lookup name (constant none))
  cleared-AllOpened state expected = tt
  cleared-AllOpened health expected = tt
  cleared-AllOpened exit expected = tt

  signal_step-IsTracked :
      (current : SignalState) (event : MonitoringEvent)
      → IsTracked current
      → IsTracked (signal_step current event)
  unfolding signal_step
  signal_step-IsTracked current event t =
      touch_signal-AllOpened event (signal_name event) _ refl
        (elim (Bool-cases (same_expectation current.expected_state event.expected_state)) [
          | inl e ↦ rw e (λ name.
              kept-AllOpened name current.expected_state event.expected_state
                (lookup name current.signals) e (t name))
          | inr e ↦ rw e (λ name. cleared-AllOpened name (some event.expected_state))
        ])

  signals_from-IsTracked :
      (current : SignalState) (events : List MonitoringEvent)
      → IsTracked current
      → IsTracked (signals_from current events)
  unfolding signals_from
  signals_from-IsTracked current [] t = t
  signals_from-IsTracked current (event ∷ rest) t =
      signals_from-IsTracked (signal_step current event) rest
        (signal_step-IsTracked current event t)

  opener-signal_step :
      (name : SignalName) (current : SignalState) (event : MonitoringEvent)
      → opener_of (lookup name (signal_step current event).signals) ≡ (
          if is_some (lookup name current.signals)
            && same_expectation current.expected_state event.expected_state
            && not (resolves name event)
          then opener_of (lookup name current.signals)
          else if opens name event
          then some event
          else none)
  unfolding signal_step
  opener-signal_step state current event = ground arith
  opener-signal_step health current event = ground arith
  opener-signal_step exit current event = ground arith

  opener-signals_from :
      (name : SignalName) (current : SignalState) (events : List MonitoringEvent)
      → opener_of (lookup name (signals_from current events).signals) ≡ (
          if is_some (lookup name current.signals) && stays_open name current.expected_state events
          then opener_of (lookup name current.signals)
          else first_opener name events)
  unfolding signals_from
  opener-signals_from name current [] = ground arith
  opener-signals_from name current (event ∷ rest) =
      opener-signals_from name (signal_step current event) rest
      ∙ ground (
        arith,
        lookup-signal_step name current event,
        expected-signal_step current event,
        opener-signal_step name current event,
      )

  -- After the events of a container, the event that opened an open signal is the first warning or
  -- critical event about it after which no event resolved it and the expected state did not change;
  -- without such an event the signal is not open. An open signal dates from that event, is at least
  -- as severe, and that event saw the expected state that the last event saw.
  pub derive_open_signals-IsTracked :
      (events : List MonitoringEvent) (name : SignalName)
      → AllOpened name
          (signals_from no_signals events).expected_state
          (lookup name (derive_open_signals events))
        × opener_of (lookup name (derive_open_signals events)) ≡ first_opener name events
  unfolding derive_open_signals
  derive_open_signals-IsTracked events name = (
    signals_from-IsTracked no_signals events (λ n. cleared-AllOpened n none) name,
    opener-signals_from name no_signals events ∙ none_before name,
  )
    where
      none_before :
          (n : SignalName)
          → (if is_some (lookup n no_signals.signals) && stays_open n none events
              then opener_of (lookup n no_signals.signals)
              else first_opener n events)
            ≡ first_opener n events
      none_before state = refl
      none_before health = refl
      none_before exit = refl
