-- ===== src/Reliability/Maintenance.antt =====
-- apps/web/lib/reliability-maintenance-metrics.ts: downtime with planned maintenance taken out.
pub mod Collect
pub mod Coverage
pub mod Accounting
pub mod Windows
use ivrm_dashboard.Prelude.{
  ℕ, ◌-◌, min, Bool, true, false, not, ◌&&◌, ◌||◌, List, [], ◌∷◌, ◌++◌, Option, none, some, String,
  Runtime, str_eq, opt_str_eq, truthy, if◌then◌else◌, filter,
}
use ivrm_dashboard.Incident.{
  IncidentEntityType, container, backup, BackupType, IncidentSubject, ActiveIncident,
  RecoveredIncident, entity_type_eq, backup_type_eq,
}
use ivrm_dashboard.Incident.Names.{oom_killed_reason}
use ivrm_dashboard.Reliability.Types.{
  SloServiceId, overall, entity, MaintenanceScopeType, service_scope, host_scope, container_scope,
  backup_scope, MaintenanceWindow, MaintenanceAdjustment,
}
use ivrm_dashboard.Reliability.Intervals.{
  ReliabilityInterval, clip_instants, subtract_intervals, union_seconds,
}
use ivrm_dashboard.Reliability.Metrics.{clip_interval, open_interval, exact_started_at}

-- `Math.min` on results of `Date.parse`: NaN when one of them is.
abbrev min_instant : Option ℕ → Option ℕ → Option ℕ
min_instant (some a) (some b) = some (min a b)
min_instant _ _ = none

-- `maintenanceExcludable`
unfoldable pub maintenance_excludable : IncidentSubject → Bool
maintenance_excludable incident = not (
    entity_type_eq incident.entity_type container && str_eq incident.start_reason oom_killed_reason)

-- `window.serviceId === "overall" || window.serviceId === incident.entityType`
abbrev pub service_applies : Option SloServiceId → IncidentEntityType → Bool
service_applies none type = false
service_applies (some overall) type = true
service_applies (some (entity scoped)) type = entity_type_eq scoped type

-- `window.backupType === incident.backupType`, on a backup incident: its type is present.
abbrev pub opt_backup_type_eq : Option BackupType → Option BackupType → Bool
opt_backup_type_eq (some a) (some b) = backup_type_eq a b
opt_backup_type_eq none none = true
opt_backup_type_eq _ _ = false

-- The `switch` on the scope of a window.
unfoldable pub scope_applies : MaintenanceScopeType → MaintenanceWindow → IncidentSubject → Bool
scope_applies service_scope window incident = service_applies window.service_id incident.entity_type
scope_applies host_scope window incident = opt_str_eq window.host_id (some incident.host_id)
scope_applies container_scope window incident =
    entity_type_eq incident.entity_type container
    && opt_str_eq window.host_id (some incident.host_id)
    && opt_str_eq window.container_name incident.container_name
scope_applies backup_scope window incident =
    entity_type_eq incident.entity_type backup
    && opt_str_eq window.host_id (some incident.host_id)
    && opt_str_eq window.backup_target incident.backup_target
    && opt_str_eq window.game_mode incident.game_mode
    && opt_backup_type_eq window.backup_type incident.backup_type

-- `appliesToIncident`
unfoldable pub applies_to_incident : MaintenanceWindow → IncidentSubject → Bool
unfolding maintenance_excludable scope_applies
applies_to_incident window incident =
    if maintenance_excludable incident
    then scope_applies window.scope_type window incident
    else false

abbrev pub WindowEntry : Type 0
WindowEntry = MaintenanceWindow × ReliabilityInterval

abbrev keep_entry :
    MaintenanceWindow → Option ReliabilityInterval → List WindowEntry → List WindowEntry
keep_entry window none entries = entries
keep_entry window (some interval) entries = (window, interval) ∷ entries

-- The intervals of the windows that apply to the incident.
unfoldable pub exclusions_for : List WindowEntry → IncidentSubject → List ReliabilityInterval
exclusions_for [] incident = []
exclusions_for ((window, interval) ∷ rest) incident =
    let others = exclusions_for rest incident in
    if applies_to_incident window incident then interval ∷ others else others

module _ ⦃runtime : Runtime⦄ where
  -- A cancelled window ends when it is cancelled, if that is earlier.
  effective_end : MaintenanceWindow → Option String → Option ℕ
  effective_end window none = runtime.parse window.ends_at
  effective_end window (some cancelled_at) =
      min_instant (runtime.parse window.ends_at) (runtime.parse cancelled_at)

  -- `effectiveWindowInterval`
  unfoldable pub effective_window_interval : MaintenanceWindow → ℕ → ℕ → Option ReliabilityInterval
  unfolding effective_end clip_instants
  effective_window_interval window range_start range_end =
      clip_instants (runtime.parse window.starts_at)
        (effective_end window (truthy window.cancelled_at)) range_start range_end

  -- `windowIntervals`: the windows that have an interval in the range.
  unfoldable pub window_intervals : ℕ → ℕ → List MaintenanceWindow → List WindowEntry
  window_intervals range_start range_end [] = []
  window_intervals range_start range_end (window ∷ rest) =
      keep_entry window (effective_window_interval window range_start range_end)
        (window_intervals range_start range_end rest)
