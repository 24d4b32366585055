-- ===== src/Incident.antt =====
-- The incident records of apps/web/lib/incidents.ts and apps/web/lib/unified-incidents.ts. A
-- template literal that only identifies an incident (`id`) is the data that it is made from; the
-- two links of an incident (`detailHref`, `eventsHref`) are left out.
pub mod Names
pub mod Events
pub mod Signals
pub mod Episodes
pub mod Active
pub mod Gaps
pub mod Grouping
pub mod Center
use ivrm_dashboard.Prelude.{ℕ, ◌*◌, Bool, true, false, Option, String, ◌==◌}

pub data IncidentRange : Type 0 where
  range_24h range_7d range_30d : IncidentRange

-- `INCIDENT_RANGE_CONFIG[range].hours`
abbrev pub range_hours : IncidentRange → ℕ
range_hours range_24h = 24
range_hours range_7d = 24 * 7
range_hours range_30d = 24 * 30

pub data IncidentSeverity : Type 0 where
  warning critical : IncidentSeverity

pub data IncidentEntityType : Type 0 where
  host container backup : IncidentEntityType

pub data BackupType : Type 0 where
  world config permissions full : BackupType

pub data ActiveStatus : Type 0 where
  stale offline error degraded : ActiveStatus

pub data IncidentId : Type 0 where
  active_host : String → IncidentId
  active_container : String → String → IncidentId
  active_backup : ℕ → IncidentId
  recovered_container : ℕ → ℕ → IncidentId
  recovered_host_gap : ℕ → IncidentId
  recovered_backup : String → String → ℕ → IncidentId

-- The fields that active and recovered incidents share. The three backup fields are present on the
-- incidents of a backup only.
pub record IncidentSubject : Type 0 where
  pub id : IncidentId
  pub entity_type : IncidentEntityType
  pub severity : IncidentSeverity
  pub host_id : String
  pub server_id : String
  pub host_display_name : String
  pub container_name : Option String
  pub backup_target : Option String
  pub game_mode : Option String
  pub backup_type : Option BackupType
  pub start_reason : String
  pub related_event_count : ℕ

pub record ActiveIncident : Type 0 where
  pub subject : IncidentSubject
  pub open subject use *
  pub current_status : ActiveStatus
  pub started_at : Option String
  pub duration_seconds : Option ℕ
  pub latest_transition_at : Option String
  pub latest_transition : Option String
  pub exact_start : Bool

pub record RecoveredIncident : Type 0 where
  pub subject : IncidentSubject
  pub open subject use *
  pub started_at : String
  pub recovered_at : String
  pub duration_seconds : ℕ
  pub recovery_reason : String

-- `severityRank`
abbrev pub severity_rank : IncidentSeverity → ℕ
severity_rank critical = 2
severity_rank warning = 1

abbrev pub is_critical : IncidentSeverity → Bool
is_critical critical = true
is_critical warning = false

abbrev pub is_warning : IncidentSeverity → Bool
is_warning critical = false
is_warning warning = true

abbrev entity_code : IncidentEntityType → ℕ
entity_code host = 0
entity_code container = 1
entity_code backup = 2

-- `===` on entity types.
abbrev pub entity_type_eq : IncidentEntityType → IncidentEntityType → Bool
entity_type_eq a b = entity_code a == entity_code b

abbrev backup_code : BackupType → ℕ
backup_code world = 0
backup_code config = 1
backup_code permissions = 2
backup_code full = 3

-- `===` on backup types.
abbrev pub backup_type_eq : BackupType → BackupType → Bool
backup_type_eq a b = backup_code a == backup_code b
