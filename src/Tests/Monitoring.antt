-- ===== src/Tests/Monitoring.antt =====
-- One host whose last heartbeat is ten minutes old, and its container.
use ivrm_dashboard.Prelude.{
  ℕ, ◌+◌, ◌≤◌, ◌≡◌, ◌↔◌, refl, Bool, true, false, ◌&&◌, find, map, List, [], ◌∷◌, some, none,
  String, Runtime, str_eq, arith,
}
use ivrm_dashboard.Prelude.StringMap.{get}
use ivrm_dashboard.Monitoring.Types.{
  online, offline, maintenance, ContainerState, ContainerHealth, ContainerExpectedState, HostRow,
  HostMetrics, HeartbeatRow, ContainerSampleRow, ContainerExpectationRow,
}
use ivrm_dashboard.Monitoring.{
  age_seconds, determine_host_status, determine_container_status, is_maintenance_active,
  opt_expected,
}
use ivrm_dashboard.Monitoring.Status.{
  lateness, IsWell, host_status_mono, status_maintenance_iff, status_online_iff,
}
use ivrm_dashboard.Monitoring.Snapshot.{
  host_overview, get_monitoring_snapshot, latest_container_by_key, host_name_by_id, container_key,
}
use ivrm_dashboard.Monitoring.Joins.{snapshot_hosts, snapshot_samples, find_last, is_some}
use ivrm_dashboard.Tests.Fixtures.{midnight, minutes, calendar}

instance abbrev runtime : Runtime
runtime = calendar

abbrev host_1 : HostRow
host_1 = record {
  id = "host-1";
  server_id = "oci-main";
  display_name = "OCI";
  provider = "oci";
  environment = "production";
}

abbrev metrics : HostMetrics ℕ
metrics = record {
  cpu_count = 4;
  memory_total_bytes = 8;
  memory_available_bytes = 4;
  disk_total_bytes = 100;
  disk_available_bytes = 60;
  load_average_1 = 1;
  load_average_5 = 1;
  load_average_15 = 1;
  uptime_seconds = 3600;
}

abbrev beat : String → HeartbeatRow ℕ
beat received_at = record {
  host_id = "host-1";
  agent_version = "1.0.0";
  received_at = received_at;
  sent_at = received_at;
  metrics = metrics;
}

abbrev sample : ContainerSampleRow ℕ
sample = record {
  host_id = "host-1";
  container_name = "mc-main";
  state = ContainerState.running;
  health = ContainerHealth.healthy;
  oom_killed = false;
  metrics = record {
    restart_count = 0;
    exit_code = none;
    cpu_percent = none;
    memory_usage_bytes = none;
    memory_limit_bytes = none;
    network_rx_bytes = none;
    network_tx_bytes = none;
    block_read_bytes = none;
    block_write_bytes = none;
    pids = none;
  };
  received_at = "2026-08-01T00:20:00.000Z";
}

abbrev expectation : ContainerExpectationRow
expectation = record {
  host_id = "host-1";
  container_name = "mc-main";
  expected_state = ContainerExpectedState.running;
  maintenance_mode = true;
  maintenance_reason = some "upgrade";
  maintenance_until = some "2026-08-01T00:30:00.000Z";
}

abbrev now : ℕ
now = midnight + minutes 20

abbrev beats : List (HeartbeatRow ℕ)
beats = beat "2026-08-01T00:10:00.000Z" ∷ beat "2026-08-01T00:00:00.000Z" ∷ []

abbrev by_code_point : String → String → Bool
by_code_point a b = true

host_status_run : determine_host_status (age_seconds "2026-08-01T00:10:00.000Z" now) ≡ offline
unfolding determine_host_status age_seconds
host_status_run = refl

host_status_mono_example :
    lateness
      (determine_host_status (age_seconds "2026-08-01T00:10:00.000Z" (midnight + minutes 10)))
    ≤ lateness (determine_host_status (age_seconds "2026-08-01T00:10:00.000Z" now))
host_status_mono_example =
    host_status_mono "2026-08-01T00:10:00.000Z" (midnight + minutes 10) now (omega arith)

status_maintenance_iff_example :
    (determine_container_status sample 0 (some expectation) now ≡ maintenance)
    ↔ ((0 ≤ 45) × (is_maintenance_active (some expectation) now ≡ true))
status_maintenance_iff_example = status_maintenance_iff sample 0 now (some expectation)

status_online_iff_example : (determine_container_status sample 0 none now ≡ online) ↔ (
    (0 ≤ 45)
    × (is_maintenance_active none now ≡ false)
    × (sample.state ≡ ContainerState.running)
    × (sample.oom_killed ≡ false)
    × IsWell (opt_expected none) sample.health)
status_online_iff_example = status_online_iff sample 0 now none

snapshot_hosts_example :
    (get_monitoring_snapshot by_code_point now
      (host_1 ∷ [])
      beats
      (sample ∷ [])
      (expectation ∷ [])).hosts
    ≡ map
        (λ host. host_overview now host (find (λ r. str_eq r.host_id host.id) beats))
        (host_1 ∷ [])
snapshot_hosts_example =
    snapshot_hosts by_code_point now (host_1 ∷ []) beats (sample ∷ []) (expectation ∷ [])

snapshot_samples_example :
    get "host-1:mc-main"
      (latest_container_by_key (host_name_by_id [] (host_1 ∷ [])) [] (sample ∷ []))
    ≡ find
        (λ r.
          is_some (find_last (λ h. str_eq h.id r.host_id) (host_1 ∷ []))
          && str_eq (container_key r.host_id r.container_name) "host-1:mc-main")
        (sample ∷ [])
snapshot_samples_example =
    snapshot_samples by_code_point now (host_1 ∷ []) beats (sample ∷ []) (expectation ∷ [])
      "host-1:mc-main"
