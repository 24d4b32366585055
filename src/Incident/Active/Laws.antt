-- ===== src/Incident/Active/Laws.antt =====
-- Which containers have an active incident.
use ivrm_dashboard.Prelude.{
  Bool, false, not, ◌&&◌, ◌||◌, List, [], ◌∷◌, Option, none, some, String, Runtime, any, str_eq,
  any-append, ◌≡◌, refl, arith, inl, inr,
}
use ivrm_dashboard.Prelude.Tests.{Bool-cases}
use ivrm_dashboard.Prelude.StringMap.{get, set, get-set}
use ivrm_dashboard.Monitoring.Types.{HostOverview, ContainerOverview, MonitoringSnapshot}
use ivrm_dashboard.Incident.{ActiveIncident, ActiveStatus}
use ivrm_dashboard.Incident.Events.{MonitoringEvent}
use ivrm_dashboard.Incident.Signals.Laws.{is_some}
use ivrm_dashboard.Incident.Active.{incident_status, entity_key}
use ivrm_dashboard.Incident.Active.Containers.{
  host_by_id, with_host, with_status, container_incident, active_containers_from,
  derive_active_container_incidents,
}
use ivrm_dashboard.Incident.Grouping.Laws.{group_of}

abbrev is_named : Option String → String → Bool
is_named none name = false
is_named (some container_name) name = str_eq container_name name

-- An incident of the container.
abbrev pub is_about : String → String → ActiveIncident → Bool
is_about host_id name incident =
    str_eq incident.host_id host_id && is_named incident.container_name name

module _ {Number : Type 0} where
  abbrev pub is_container : String → String → ContainerOverview Number → Bool
  is_container host_id name overview = str_eq overview.host_id host_id && str_eq overview.name name

  abbrev pub is_listed : List (HostOverview Number) → String → Bool
  is_listed hosts host_id = any (λ h. str_eq h.id host_id) hosts

  -- The container is in a bad status, outside of maintenance, and on a listed host.
  abbrev pub is_alarmed : List (HostOverview Number) → ContainerOverview Number → Bool
  is_alarmed hosts overview =
      is_some (incident_status overview.status)
      && not overview.maintenance_active
      && is_listed hosts overview.host_id

  get-host_by_id :
      (k : String) (m : List (String × HostOverview Number)) (hosts : List (HostOverview Number))
      → is_some (get k (host_by_id m hosts)) ≡ (is_some (get k m) || is_listed hosts k)
  unfolding host_by_id
  get-host_by_id k m [] = ground (arith)
  get-host_by_id k m (h ∷ rest) =
      ground (arith, get-host_by_id k (set h.id h m) rest, get-set h.id k h m)

module _ ⦃runtime : Runtime⦄ {Number : Type 0} where
  any-with_host :
      (host_id name generated_at : String) (overview : ContainerOverview Number)
      (status : ActiveStatus) (host_row : Option (HostOverview Number))
      (events : List MonitoringEvent)
      → any (is_about host_id name) (with_host generated_at overview status host_row events)
        ≡ (is_container host_id name overview && is_some host_row)
  unfolding with_host container_incident
  any-with_host host_id name generated_at overview status none events = ground (arith)
  any-with_host host_id name generated_at overview status (some host_row) events = ground (arith)

  pub any-with_status :
      (host_id name generated_at : String) (hosts : List (String × HostOverview Number))
      (grouped : List (String × List MonitoringEvent)) (overview : ContainerOverview Number)
      (status : Option ActiveStatus)
      → any (is_about host_id name) (with_status generated_at hosts grouped overview status) ≡ (
          is_container host_id name overview
          && (is_some status
              && not overview.maintenance_active
              && is_some (get overview.host_id hosts)))
  unfolding with_status
  any-with_status host_id name generated_at hosts grouped overview none = ground (arith)
  any-with_status host_id name generated_at hosts grouped overview (some status) =
      elim (Bool-cases overview.maintenance_active) [
        | inl e ↦ rw e (ground (arith))
        | inr e ↦ rw e (
            any-with_host host_id name generated_at overview status (get overview.host_id hosts)
              (group_of (entity_key overview.host_id (some overview.name)) grouped))
      ]

  any-active_containers_from :
      (host_id name generated_at : String) (hosts : List (HostOverview Number))
      (grouped : List (String × List MonitoringEvent))
      (containers : List (ContainerOverview Number))
      → any
          (is_about host_id name)
          (active_containers_from generated_at (host_by_id [] hosts) grouped containers)
        ≡ any
            (λ overview. is_container host_id name overview && is_alarmed hosts overview)
            containers
  unfolding active_containers_from
  any-active_containers_from host_id name generated_at hosts grouped [] = refl
  any-active_containers_from host_id name generated_at hosts grouped (overview ∷ rest) =
      let by_id = host_by_id [] hosts in
      let first =
        with_status generated_at by_id grouped overview (incident_status overview.status) in
      rw
        (
          any-append (is_about host_id name) first
              (active_containers_from generated_at by_id grouped rest),
          any-with_status host_id name generated_at by_id grouped overview
              (incident_status overview.status),
          get-host_by_id overview.host_id [] hosts,
          any-active_containers_from host_id name generated_at hosts grouped rest,
        )
        refl

  -- A container has an active incident exactly when a container of its name is listed with the status
  -- error, stale or offline, is not under maintenance, and its host is listed.
  pub derive_active_container_incidents_iff_is_alarmed :
      (host_id name : String) (snapshot : MonitoringSnapshot Number)
      (grouped : List (String × List MonitoringEvent))
      → any (is_about host_id name) (derive_active_container_incidents snapshot grouped)
        ≡ any
            (λ overview. is_container host_id name overview && is_alarmed snapshot.hosts overview)
            snapshot.containers
  unfolding derive_active_container_incidents
  derive_active_container_incidents_iff_is_alarmed host_id name snapshot grouped =
      any-active_containers_from host_id name snapshot.generated_at snapshot.hosts grouped
        snapshot.containers
