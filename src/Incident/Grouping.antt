-- ===== src/Incident/Grouping.antt =====
-- `eventByEntity`, `hostEventsByEntity` and `mergeUniqueEvents` of apps/web/lib/incidents.ts: the events of
-- each container or host, in order of time and then of id.
pub mod Laws
use ivrm_dashboard.Prelude.{
  ℕ, Bool, true, false, List, [], ◌∷◌, ◌++◌, map, Option, none, some, String, Runtime, or_else, leb,
  ltb, sort_by, if◌then◌else◌, ◌==◌,
}
use ivrm_dashboard.Prelude.StringMap.{get, set}
use ivrm_dashboard.Incident.Events.{MonitoringEvent, HostMonitoringEvent}
use ivrm_dashboard.Incident.Active.{entity_key}

-- The comparator: parsed times, and ids where these are equal or NaN.
abbrev pub in_order : Option ℕ → Option ℕ → ℕ → ℕ → Bool
in_order (some a) (some b) left right = if a == b then leb left right else ltb a b
in_order _ _ left right = leb left right

module _ {A : Type 0} (key : A → String) where
  -- The first loop: each item is pushed to the group of its key.
  unfoldable pub group_from : List (String × List A) → List A → List (String × List A)
  group_from grouped [] = grouped
  group_from grouped (event ∷ rest) =
      group_from (set (key event) (or_else (get (key event) grouped) [] ++ event ∷ []) grouped) rest

-- The second loop: each group is sorted.
unfoldable pub sort_groups :
    {A : Type 0} → (A → A → Bool) → List (String × List A) → List (String × List A)
sort_groups le [] = []
sort_groups le ((k, events) ∷ rest) = (k, sort_by le events) ∷ sort_groups le rest

module _ ⦃runtime : Runtime⦄ where
  abbrev pub event_order : MonitoringEvent → MonitoringEvent → Bool
  event_order left right =
      in_order (runtime.parse left.occurred_at) (runtime.parse right.occurred_at) left.id right.id

  abbrev pub host_event_order : HostMonitoringEvent → HostMonitoringEvent → Bool
  host_event_order left right =
      in_order (runtime.parse left.occurred_at) (runtime.parse right.occurred_at) left.id right.id

  abbrev pub event_key : MonitoringEvent → String
  unfolding entity_key
  event_key event = entity_key event.host_id (some event.container_name)

  abbrev pub host_event_key : HostMonitoringEvent → String
  unfolding entity_key
  host_event_key event = entity_key event.host_id none

  -- `eventByEntity`
  unfoldable pub event_by_entity : List MonitoringEvent → List (String × List MonitoringEvent)
  unfolding sort_groups group_from event_key
  event_by_entity events = sort_groups event_order (group_from event_key [] events)

  -- `hostEventsByEntity`
  unfoldable pub host_events_by_entity :
      List HostMonitoringEvent → List (String × List HostMonitoringEvent)
  unfolding sort_groups group_from host_event_key
  host_events_by_entity events = sort_groups host_event_order (group_from host_event_key [] events)

-- `byId.set(event.id, event)`: an id that is present keeps its place.
abbrev pub set_event : MonitoringEvent → List MonitoringEvent → List MonitoringEvent
set_event event [] = event ∷ []
set_event event (present ∷ rest) =
    let later = set_event event rest in
    if present.id == event.id then event ∷ rest else present ∷ later

abbrev pub set_events : List MonitoringEvent → List MonitoringEvent → List MonitoringEvent
set_events by_id [] = by_id
set_events by_id (event ∷ rest) = set_events (set_event event by_id) rest

-- `mergeUniqueEvents`
unfoldable pub merge_unique_events :
    List MonitoringEvent → List MonitoringEvent → List MonitoringEvent
merge_unique_events context_events range_events =
    set_events (set_events [] context_events) range_events
