-- ===== src/Incident/Active/Severity.antt =====
-- The severity of an active incident of a container that was OOM killed.
use ivrm_dashboard.Prelude.{
  Bool, true, false, not, ◌&&◌, ◌||◌, List, [], ◌∷◌, ◌++◌, Option, none, some, String, Runtime, any,
  all, last, filter, sort_by, any-sort_by, any-append, if◌then◌else◌, ◌≡◌, refl, ◌∙◌, arith, inl,
  inr,
}
use ivrm_dashboard.Prelude.Tests.{Bool-cases}
use ivrm_dashboard.Prelude.StringMap.{get}
use ivrm_dashboard.Monitoring.Types.{HostOverview, ContainerOverview, MonitoringSnapshot}
use ivrm_dashboard.Incident.{
  IncidentSeverity, ActiveIncident, ActiveStatus, is_critical, is_warning,
}
use ivrm_dashboard.Incident.Events.{MonitoringEvent}
use ivrm_dashboard.Incident.Signals.{OpenSignal, PerSignal, max_severity, derive_open_signals}
use ivrm_dashboard.Incident.Signals.Laws.{is_some}
use ivrm_dashboard.Incident.Active.{
  incident_status, entity_key, is_oom_event, state_is_incident, health_is_incident,
}
use ivrm_dashboard.Incident.Active.Containers.{
  reduce_severity, opt_severity, oom_signal, candidate_signals, current_signal, earlier_signal,
  host_by_id, with_host, with_status, container_incident, active_containers_from,
  derive_active_container_incidents,
}
use ivrm_dashboard.Incident.Grouping.Laws.{group_of}
use ivrm_dashboard.Incident.Active.Laws.{is_about, is_container, any-with_status}

max-critical :
    (left right : IncidentSeverity)
    → is_critical (max_severity left right) ≡ (is_critical left || is_critical right)
unfolding max_severity
max-critical IncidentSeverity.critical IncidentSeverity.critical = refl
max-critical IncidentSeverity.critical IncidentSeverity.warning = refl
max-critical IncidentSeverity.warning IncidentSeverity.critical = refl
max-critical IncidentSeverity.warning IncidentSeverity.warning = refl

abbrev is_severe : OpenSignal → Bool
is_severe signal = is_critical signal.severity

reduce-critical :
    (severity : IncidentSeverity) (signals : List OpenSignal)
    → is_critical (reduce_severity severity signals)
      ≡ (is_critical severity || any is_severe signals)
unfolding reduce_severity
reduce-critical IncidentSeverity.critical [] = refl
reduce-critical IncidentSeverity.warning [] = refl
reduce-critical severity (signal ∷ rest) = ground (
  arith,
  reduce-critical (max_severity severity signal.severity) rest,
  max-critical severity signal.severity,
)

opt_severity-critical :
    ⦃runtime : Runtime⦄ (status : ActiveStatus) (signals : List OpenSignal)
    → any is_severe signals ≡ true
    → is_critical (opt_severity status signals) ≡ true
opt_severity-critical status [] h = cc
opt_severity-critical status (signal ∷ rest) h =
    ground (arith, reduce-critical signal.severity (signal ∷ rest))

oom_signal-some :
    (event : Option MonitoringEvent) → any is_severe (oom_signal event) ≡ is_some event
oom_signal-some none = refl
oom_signal-some (some event) = refl

last-cons :
    (event : MonitoringEvent) (rest : List MonitoringEvent) → is_some (last (event ∷ rest)) ≡ true
last-cons event [] = refl
last-cons event (later ∷ rest) = last-cons later rest

is_some-last :
    (p : MonitoringEvent → Bool) (events : List MonitoringEvent)
    → is_some (last (filter p events)) ≡ any p events
is_some-last p [] = refl
is_some-last p (event ∷ rest) = elim (Bool-cases (p event)) [
  | inl e ↦ rw e (last-cons event (filter p rest))
  | inr e ↦ rw e (is_some-last p rest)
]

oom_signal-last :
    (events : List MonitoringEvent)
    → any is_oom_event events ≡ true
    → any is_severe (oom_signal (last (filter is_oom_event events))) ≡ true
oom_signal-last events h =
    oom_signal-some (last (filter is_oom_event events)) ∙ is_some-last is_oom_event events ∙ h

pub exclusive : (severity : IncidentSeverity) → is_warning severity ≡ not (is_critical severity)
exclusive IncidentSeverity.critical = refl
exclusive IncidentSeverity.warning = refl

both : (p q : Bool) → (p && q) ≡ true → (p ≡ true) × (q ≡ true)
both p q h = ground (arith)

any-suffix :
    {A : Type 0} (p : A → Bool) (xs ys : List A) → any p ys ≡ true → any p (xs ++ ys) ≡ true
any-suffix p xs ys h = ground (arith, any-append p xs ys)

abbrev pub warned : ActiveIncident → Bool
warned incident = is_warning incident.severity

any-both :
    (p q : ActiveIncident → Bool) (xs : List ActiveIncident)
    → (any p xs && any q xs) ≡ false
    → any (λ x. p x && q x) xs ≡ false
any-both p q [] h = refl
any-both p q (x ∷ xs) h = ground (arith, any-both p q xs)

module _ ⦃runtime : Runtime⦄ {Number : Type 0} where
  candidate-oom :
      (overview : ContainerOverview Number) (signals : PerSignal (Option OpenSignal))
      (events : List MonitoringEvent)
      → overview.oom_killed ≡ true
      → any is_oom_event events ≡ true
      → any is_severe (candidate_signals overview signals events) ≡ true
  unfolding candidate_signals
  candidate-oom overview signals events e h =
      let by_state =
        if state_is_incident overview.expected_state overview.state
        then current_signal overview.expected_state signals.on_state
        else [] in
      let by_health =
        if health_is_incident overview.expected_state overview.health
        then current_signal overview.expected_state signals.on_health
        else [] in
      let oom = oom_signal (last (filter is_oom_event events)) in
      rw e (
        any-suffix is_severe by_state (by_health ++ oom)
          (any-suffix is_severe by_health oom (oom_signal-last events h)))

  any-with_host_oom :
      (generated_at : String) (overview : ContainerOverview Number) (status : ActiveStatus)
      (host_row : Option (HostOverview Number)) (events : List MonitoringEvent)
      → overview.oom_killed ≡ true
      → any is_oom_event events ≡ true
      → any warned (with_host generated_at overview status host_row events) ≡ false
  unfolding with_host container_incident
  any-with_host_oom generated_at overview status none events e h = refl
  any-with_host_oom generated_at overview status (some host_row) events e h =
      let candidates = candidate_signals overview (derive_open_signals events) events in
      let c = opt_severity-critical status (sort_by earlier_signal candidates) (
        any-sort_by earlier_signal is_severe candidates
        ∙ candidate-oom overview (derive_open_signals events) events e h) in
      ground (arith, exclusive (opt_severity status (sort_by earlier_signal candidates)))

  -- An OOM kill of the container is the present state, and a critical event records one.
  abbrev pub was_oom_killed : List (String × List MonitoringEvent) → ContainerOverview Number → Bool
  was_oom_killed grouped overview =
      overview.oom_killed
      && any is_oom_event (group_of (entity_key overview.host_id (some overview.name)) grouped)

  any-with_status_oom :
      (generated_at : String) (hosts : List (String × HostOverview Number))
      (grouped : List (String × List MonitoringEvent)) (overview : ContainerOverview Number)
      (status : Option ActiveStatus)
      → was_oom_killed grouped overview ≡ true
      → any warned (with_status generated_at hosts grouped overview status) ≡ false
  unfolding with_status
  any-with_status_oom generated_at hosts grouped overview none h = refl
  any-with_status_oom generated_at hosts grouped overview (some status) h =
      let events = group_of (entity_key overview.host_id (some overview.name)) grouped in
      let b = both overview.oom_killed (any is_oom_event events) h in
      let w =
        any-with_host_oom generated_at overview status (get overview.host_id hosts) events b.0
          b.1 in
      elim (Bool-cases overview.maintenance_active) [ inl e ↦ rw e refl | inr e ↦ rw e w ]

  any-active_containers_from_oom :
      (host_id name generated_at : String) (hosts : List (String × HostOverview Number))
      (grouped : List (String × List MonitoringEvent))
      (containers : List (ContainerOverview Number))
      → all
          (λ overview. not (is_container host_id name overview) || was_oom_killed grouped overview)
          containers
        ≡ true
      → any
          (λ incident. is_about host_id name incident && warned incident)
          (active_containers_from generated_at hosts grouped containers)
        ≡ false
  unfolding active_containers_from
  any-active_containers_from_oom host_id name generated_at hosts grouped [] h = refl
  any-active_containers_from_oom host_id name generated_at hosts grouped (overview ∷ rest) h =
      let status = incident_status overview.status in
      let own = with_status generated_at hosts grouped overview status in
      let later = active_containers_from generated_at hosts grouped rest in
      let alarm =
        λ (incident : ActiveIncident). is_about host_id name incident && warned incident in
      let own_alarm = any-both (is_about host_id name) warned own (
        ground (
          arith,
          any-with_status host_id name generated_at hosts grouped overview status,
          any-with_status_oom generated_at hosts grouped overview status,
        )) in
      ground (
        arith,
        any-append alarm own later,
        any-active_containers_from_oom host_id name generated_at hosts grouped rest,
      )

  -- Where each container of a name was OOM killed and has a critical event of it, no active incident of
  -- the name is a mere warning.
  pub derive_active_container_incidents-oom :
      (host_id name : String) (snapshot : MonitoringSnapshot Number)
      (grouped : List (String × List MonitoringEvent))
      → all
          (λ overview. not (is_container host_id name overview) || was_oom_killed grouped overview)
          snapshot.containers
        ≡ true
      → any
          (λ incident. is_about host_id name incident && warned incident)
          (derive_active_container_incidents snapshot grouped)
        ≡ false
  unfolding derive_active_container_incidents
  derive_active_container_incidents-oom host_id name snapshot grouped =
      any-active_containers_from_oom host_id name snapshot.generated_at
        (host_by_id [] snapshot.hosts) grouped snapshot.containers
