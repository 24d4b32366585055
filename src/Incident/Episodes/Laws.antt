-- ===== src/Incident/Episodes/Laws.antt =====
-- What the incidents that `deriveRecoveredContainerIncidents` records say, and how its episodes
-- relate to the signals of `deriveOpenSignals`.
use ivrm_dashboard.Prelude.{
  ℕ, ◌-◌, ◌/◌, ◌≤◌, ◌≡◌, refl, Bool, false, ◌&&◌, List, [], ◌∷◌, Option, none, some, Runtime, arith,
  leb, Bool-cases, inl, inr, All, All-append,
}
use ivrm_dashboard.Incident.{IncidentSeverity, RecoveredIncident}
use ivrm_dashboard.Incident.Events.{MonitoringEvent}
use ivrm_dashboard.Incident.Signals.{
  SignalName, state, health, exit, incident_severity, signal_name, resolves_signal, PerSignal,
  lookup, update, same_expectation, SignalState, signal_step, signals_from, no_signals,
  derive_open_signals,
}
use ivrm_dashboard.Incident.Signals.Laws.{is_some}
use ivrm_dashboard.Incident.Episodes.{
  OpenEpisode, EpisodeState, some_active, extend, recovered_incident, close_at, close_episode,
  resolve_in, resolve, touch, expect, episode_step, episodes_from, no_episode, derive_recovered_of,
}

-- The two folds agree: a signal is active when it is open, and there is an episode when one is.
pub record Agrees (s : SignalState) (e : EpisodeState) : Type 0 where
  pub states : e.active_signals.on_state ≡ is_some s.signals.on_state
  pub healths : e.active_signals.on_health ≡ is_some s.signals.on_health
  pub exits : e.active_signals.on_exit ≡ is_some s.signals.on_exit
  pub episodes : is_some e.episode ≡ some_active e.active_signals
  pub expected : e.expected_state ≡ s.expected_state

module _ ⦃runtime : Runtime⦄ (range_start : ℕ) where
  episode_step-Agrees :
      (s : SignalState) (e : EpisodeState) (event : MonitoringEvent)
      → Agrees s e
      → Agrees (signal_step s event) (episode_step range_start e event).0
  unfolding signal_step episode_step
  episode_step-Agrees s e event a = ground arith

  episodes_from-Agrees :
      (s : SignalState) (e : EpisodeState) (events : List MonitoringEvent)
      → Agrees s e
      → Agrees (signals_from s events) (episodes_from range_start e events).0
  unfolding signals_from episodes_from
  episodes_from-Agrees s e [] a = a
  episodes_from-Agrees s e (event ∷ rest) a =
      episodes_from-Agrees (signal_step s event) (episode_step range_start e event).0 rest
        (episode_step-Agrees s e event a)

  -- The loop that finds recovered incidents and `deriveOpenSignals` see the same signals open after
  -- the events of a container, and an episode is open exactly when a signal is.
  pub episodes-signals :
      (events : List MonitoringEvent)
      → let final = (episodes_from range_start no_episode events).0 in
        ((name : SignalName)
          → lookup name final.active_signals ≡ is_some (lookup name (derive_open_signals events)))
        × (is_some final.episode ≡ some_active final.active_signals)
  unfolding derive_open_signals
  episodes-signals events =
      let a = episodes_from-Agrees no_signals no_episode events (record {
        states = refl;
        healths = refl;
        exits = refl;
        episodes = refl;
        expected = refl;
      }) in
      (λ name. agree name _ _ a, a.episodes)
    where
      agree :
          (name : SignalName) (s : SignalState) (e : EpisodeState)
          → Agrees s e
          → lookup name e.active_signals ≡ is_some (lookup name s.signals)
      agree state s e a = a.states
      agree health s e a = a.healths
      agree exit s e a = a.exits

  -- A recovered incident ends in the range, not before it started; its duration is the time between,
  -- and an opening and a resolving event at least are related to it.
  abbrev pub IsRecovery : RecoveredIncident → Type 0
  IsRecovery incident =
      (start recovered_at : ℕ) × (runtime.parse incident.started_at ≡ some start)
      × (runtime.parse incident.recovered_at ≡ some recovered_at)
      × (start ≤ recovered_at)
      × (range_start ≤ recovered_at)
      × (incident.duration_seconds ≡ (recovered_at - start) / 1000)
      × (2 ≤ incident.related_event_count)

  -- The open episode has counted an event.
  abbrev Counted : Option OpenEpisode → Type 0
  Counted none = Unit {0}
  Counted (some episode) = 1 ≤ episode.event_count

  close_at-IsRecovery :
      (episode : OpenEpisode) (event : MonitoringEvent) (start recovered_at : Option ℕ)
      → runtime.parse episode.started_at ≡ start
      → runtime.parse event.occurred_at ≡ recovered_at
      → 2 ≤ episode.event_count
      → All IsRecovery (close_at range_start episode event start recovered_at)
  unfolding close_at recovered_incident
  close_at-IsRecovery episode event (some s) (some r) h k c =
      elim (Bool-cases (leb s r && leb range_start r)) [
        | inl e ↦ rw e ((s, r, h, k, ground arith, ground arith, refl, c), tt)
        | inr e ↦ rw e tt
      ]
  close_at-IsRecovery episode event (some s) none h k c = tt
  close_at-IsRecovery episode event none r h k c = tt

  close_episode-IsRecovery :
      (episode : OpenEpisode) (event : MonitoringEvent)
      → 2 ≤ episode.event_count
      → All IsRecovery (close_episode range_start episode event)
  unfolding close_episode
  close_episode-IsRecovery episode event c = close_at-IsRecovery episode event _ _ refl refl c

  abbrev IsGood : EpisodeState × List RecoveredIncident → Type 0
  IsGood (next, recovered) = Counted next.episode × All IsRecovery recovered

  resolve_in-IsGood :
      (remaining : PerSignal Bool) (episode : OpenEpisode) (event : MonitoringEvent)
      (current : EpisodeState)
      → 1 ≤ episode.event_count
      → IsGood (resolve_in range_start remaining episode event current)
  unfolding resolve_in
  resolve_in-IsGood remaining episode event current c = elim (Bool-cases (some_active remaining)) [
    | inl e ↦ rw e (omega arith, tt)
    | inr e ↦ rw e (tt, close_episode-IsRecovery _ event (omega arith))
  ]

  resolve-IsGood :
      (name : SignalName) (event : MonitoringEvent) (episode : Option OpenEpisode)
      (current : EpisodeState)
      → current.episode ≡ episode
      → Counted episode
      → IsGood (resolve range_start name event episode current)
  unfolding resolve
  resolve-IsGood name event none current h c = rw h (tt, tt)
  resolve-IsGood name event (some episode) current h c =
      elim (Bool-cases (resolves_signal event && lookup name current.active_signals)) [
        | inl e ↦
            rw e
              (resolve_in-IsGood (update name false current.active_signals) episode event current c)
        | inr e ↦ rw e (rw h (c, tt))
      ]

  extend-Counted :
      (event : MonitoringEvent) (severity : IncidentSeverity) (episode : Option OpenEpisode)
      → 1 ≤ (extend event severity episode).event_count
  extend-Counted event severity none = omega arith
  extend-Counted event severity (some episode) = omega arith

  touch-IsGood :
      (event : MonitoringEvent) (name : Option SignalName) (severity : Option IncidentSeverity)
      (current : EpisodeState)
      → Counted current.episode
      → IsGood (touch range_start event name severity current)
  unfolding touch
  touch-IsGood event none severity current c = (c, tt)
  touch-IsGood event (some name) (some severity) current c =
      (extend-Counted event severity current.episode, tt)
  touch-IsGood event (some name) none current c = resolve-IsGood name event _ current refl c

  expect-Counted :
      (current : EpisodeState) (event : MonitoringEvent)
      → Counted current.episode
      → Counted (expect range_start current event).episode
  unfolding expect
  expect-Counted current event c =
      elim (Bool-cases (same_expectation current.expected_state event.expected_state)) [
        | inl e ↦ rw e c
        | inr e ↦ rw e tt
      ]

  episodes_from-IsGood :
      (current : EpisodeState) (events : List MonitoringEvent)
      → Counted current.episode
      → IsGood (episodes_from range_start current events)
  unfolding episodes_from episode_step
  episodes_from-IsGood current [] c = (c, tt)
  episodes_from-IsGood current (event ∷ rest) c =
      let g =
        touch-IsGood event (signal_name event) (incident_severity event.severity)
          (expect range_start current event) (expect-Counted current event c) in
      let later = episodes_from-IsGood (episode_step range_start current event).0 rest g.0 in
      (later.0, All-append IsRecovery _ _ g.1 later.1)

  -- Every incident that the events of a container record is a recovery in the range.
  pub derive_recovered_of-IsRecovery :
      (events : List MonitoringEvent) → All IsRecovery (derive_recovered_of range_start events)
  unfolding derive_recovered_of
  derive_recovered_of-IsRecovery events = (episodes_from-IsGood no_episode events tt).1
