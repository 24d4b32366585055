-- ===== src/Monitoring/Types.antt =====
-- The types of apps/web/lib/monitoring.ts. A `number` that the module only copies has an arbitrary
-- type `Number`.
use ivrm_dashboard.Prelude.{ℕ, Bool, List, Option, String}

-- `HostStatus` is the part of this type without `standby` and `maintenance`.
pub data ContainerStatus : Type 0 where
  online offline stale error standby maintenance : ContainerStatus

pub data ContainerState : Type 0 where
  created running paused restarting removing exited dead unknown not_found : ContainerState

pub data ContainerHealth : Type 0 where
  starting healthy unhealthy none unknown : ContainerHealth

pub data ContainerExpectedState : Type 0 where
  running stopped absent : ContainerExpectedState

pub record HostRow : Type 0 where
  pub id : String
  pub server_id : String
  pub display_name : String
  pub provider : String
  pub environment : String

module _ (Number : Type 0) where
  pub record HostMetrics : Type 0 where
    pub cpu_count : Number
    pub memory_total_bytes : Number
    pub memory_available_bytes : Number
    pub disk_total_bytes : Number
    pub disk_available_bytes : Number
    pub load_average_1 : Number
    pub load_average_5 : Number
    pub load_average_15 : Number
    pub uptime_seconds : Number

  pub record HeartbeatRow : Type 0 where
    pub host_id : String
    pub agent_version : String
    pub received_at : String
    pub sent_at : String
    pub metrics : HostMetrics

  pub record ContainerMetrics : Type 0 where
    pub restart_count : Number
    pub exit_code : Option Number
    pub cpu_percent : Option Number
    pub memory_usage_bytes : Option Number
    pub memory_limit_bytes : Option Number
    pub network_rx_bytes : Option Number
    pub network_tx_bytes : Option Number
    pub block_read_bytes : Option Number
    pub block_write_bytes : Option Number
    pub pids : Option Number

  pub record ContainerSampleRow : Type 0 where
    pub host_id : String
    pub container_name : String
    pub state : ContainerState
    pub health : ContainerHealth
    pub oom_killed : Bool
    pub metrics : ContainerMetrics
    pub received_at : String

  -- The fields of a heartbeat are null where the host has none.
  pub record HostOverview : Type 0 where
    pub id : String
    pub server_id : String
    pub display_name : String
    pub provider : String
    pub environment : String
    pub status : ContainerStatus
    pub agent_version : Option String
    pub received_at : Option String
    pub sent_at : Option String
    pub age_seconds : Option ℕ
    pub metrics : Option HostMetrics

  pub record ContainerOverview : Type 0 where
    pub host_id : String
    pub host_display_name : String
    pub name : String
    pub status : ContainerStatus
    pub state : ContainerState
    pub health : ContainerHealth
    pub oom_killed : Bool
    pub metrics : ContainerMetrics
    pub received_at : String
    pub age_seconds : ℕ
    pub expected_state : Option ContainerExpectedState
    pub maintenance_mode : Bool
    pub maintenance_active : Bool
    pub maintenance_reason : Option String
    pub maintenance_until : Option String

  pub record MonitoringSnapshot : Type 0 where
    pub hosts : List HostOverview
    pub containers : List ContainerOverview
    pub generated_at : String

pub record ContainerExpectationRow : Type 0 where
  pub host_id : String
  pub container_name : String
  pub expected_state : ContainerExpectedState
  pub maintenance_mode : Bool
  pub maintenance_reason : Option String
  pub maintenance_until : Option String
