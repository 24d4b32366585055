-- ===== src/Reliability/Types.antt =====
-- The records of apps/web/lib/reliability-types.ts that the calculations read and return.
use ivrm_dashboard.Prelude.{ℕ, Bool, Option, String}
use ivrm_dashboard.Incident.{IncidentEntityType, BackupType}

pub data SloServiceId : Type 0 where
  overall : SloServiceId
  entity : IncidentEntityType → SloServiceId

pub data MaintenanceScopeType : Type 0 where
  service_scope host_scope container_scope backup_scope : MaintenanceScopeType

pub data ReliabilityHealth : Type 0 where
  operational degraded critical disabled unknown : ReliabilityHealth

pub record MaintenanceWindow : Type 0 where
  pub scope_type : MaintenanceScopeType
  pub service_id : Option SloServiceId
  pub host_id : Option String
  pub container_name : Option String
  pub backup_target : Option String
  pub game_mode : Option String
  pub backup_type : Option BackupType
  pub starts_at : String
  pub ends_at : String
  pub cancelled_at : Option String

pub record MaintenanceAdjustment : Type 0 where
  pub raw_downtime_seconds : ℕ
  pub counted_downtime_seconds : ℕ
  pub excluded_maintenance_seconds : ℕ
  pub exact_coverage : Bool
