-- ===== src/Reliability/Maintenance/Collect.antt =====
-- `collectMaintenanceAdjustedDowntime` and `buildReliabilityMaintenanceAdjustments` of
-- apps/web/lib/reliability-maintenance-metrics.ts.
use ivrm_dashboard.Prelude.{
  ℕ, ◌-◌, Bool, true, false, List, [], ◌∷◌, ◌++◌, Option, none, some, String, Runtime, filter, map,
}
use ivrm_dashboard.Incident.{
  host, container, backup, IncidentSubject, ActiveIncident, RecoveredIncident, entity_type_eq,
}
use ivrm_dashboard.Reliability.Types.{
  SloServiceId, overall, entity, MaintenanceWindow, MaintenanceAdjustment,
}
use ivrm_dashboard.Reliability.Intervals.{ReliabilityInterval, subtract_intervals, union_seconds}
use ivrm_dashboard.Reliability.Metrics.{clip_interval, open_interval, exact_started_at}
use ivrm_dashboard.Reliability.Maintenance.{WindowEntry, exclusions_for, window_intervals}

-- What the two loops have pushed, and whether coverage is exact.
pub record Collected : Type 0 where
  pub raw_intervals : List ReliabilityInterval
  pub counted_intervals : List ReliabilityInterval
  pub exact_coverage : Bool

-- An incident's interval is pushed whole on the raw list, and without its exclusions on the counted.
unfoldable pub push_incident :
    List WindowEntry → IncidentSubject → Option ReliabilityInterval → Collected → Collected
push_incident entries incident none later = later
push_incident entries incident (some interval) later = record later {
  raw_intervals = interval ∷ later.raw_intervals;
  counted_intervals =
      subtract_intervals interval (exclusions_for entries incident) ++ later.counted_intervals;
}

module _ ⦃runtime : Runtime⦄ where
  -- The loop over recovered incidents, before what the loop over active ones pushes.
  unfoldable pub collect_recovered :
      List WindowEntry → ℕ → ℕ → List RecoveredIncident → Collected → Collected
  collect_recovered entries range_start range_end [] later = later
  collect_recovered entries range_start range_end (incident ∷ rest) later =
      push_incident entries incident.subject
        (clip_interval incident.started_at incident.recovered_at range_start range_end)
        (collect_recovered entries range_start range_end rest later)

  -- An active incident with no exact start is skipped, and coverage is then not exact.
  unfoldable pub push_active :
      List WindowEntry → ℕ → ℕ → IncidentSubject → Option String → Collected → Collected
  push_active entries range_start range_end incident none later = record later {
    exact_coverage = false;
  }
  push_active entries range_start range_end incident (some started_at) later =
      push_incident entries incident (open_interval started_at range_start range_end) later

  -- The loop over active incidents.
  unfoldable pub collect_active : List WindowEntry → ℕ → ℕ → List ActiveIncident → Collected
  unfolding push_active
  collect_active entries range_start range_end [] = record {
    raw_intervals = [];
    counted_intervals = [];
    exact_coverage = true;
  }
  collect_active entries range_start range_end (incident ∷ rest) =
      push_active entries range_start range_end incident.subject (exact_started_at incident)
        (collect_active entries range_start range_end rest)

  unfoldable pub collect :
      List WindowEntry → ℕ → ℕ → List ActiveIncident → List RecoveredIncident → Collected
  unfolding collect_recovered collect_active
  collect entries range_start range_end active recovered =
      collect_recovered entries range_start range_end recovered
        (collect_active entries range_start range_end active)

  -- `Math.max(0, raw - counted)` is the truncated difference.
  adjustment_of : Collected → MaintenanceAdjustment
  adjustment_of c = record {
    raw_downtime_seconds = union_seconds c.raw_intervals;
    counted_downtime_seconds = union_seconds c.counted_intervals;
    excluded_maintenance_seconds =
        union_seconds c.raw_intervals - union_seconds c.counted_intervals;
    exact_coverage = c.exact_coverage;
  }

  -- `collectMaintenanceAdjustedDowntime`
  unfoldable pub collect_maintenance_adjusted_downtime :
      List ActiveIncident
      → List RecoveredIncident
      → List MaintenanceWindow
      → ℕ
      → ℕ
      → MaintenanceAdjustment
  unfolding collect adjustment_of window_intervals
  collect_maintenance_adjusted_downtime active recovered windows range_start range_end =
      adjustment_of (
        collect (window_intervals range_start range_end windows) range_start range_end active
          recovered)

  abbrev pub slo_service_ids : List SloServiceId
  slo_service_ids = overall ∷ entity host ∷ entity container ∷ entity backup ∷ []

  -- The incidents of a service; the overall service has them all.
  abbrev pub scoped_active : SloServiceId → List ActiveIncident → List ActiveIncident
  scoped_active overall active = active
  scoped_active (entity type) active =
      filter (λ incident. entity_type_eq incident.entity_type type) active

  abbrev pub scoped_recovered : SloServiceId → List RecoveredIncident → List RecoveredIncident
  scoped_recovered overall recovered = recovered
  scoped_recovered (entity type) recovered =
      filter (λ incident. entity_type_eq incident.entity_type type) recovered

  -- `buildReliabilityMaintenanceAdjustments`
  unfoldable pub build_maintenance_adjustments :
      List ActiveIncident
      → List RecoveredIncident
      → List MaintenanceWindow
      → ℕ
      → ℕ
      → List (SloServiceId × MaintenanceAdjustment)
  unfolding collect_maintenance_adjusted_downtime
  build_maintenance_adjustments active recovered windows range_start range_end =
      map
        (λ service_id. (
          service_id,
          collect_maintenance_adjusted_downtime (scoped_active service_id active)
              (scoped_recovered service_id recovered) windows range_start range_end,
        ))
        slo_service_ids
