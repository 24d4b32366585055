-- ===== src/Monitoring/Snapshot.antt =====
-- `getMonitoringSnapshot` of apps/web/lib/monitoring.ts, from the fetched rows on. The order of
-- `localeCompare(…, "ja")` is a parameter.
use ivrm_dashboard.Prelude.{
  ℕ, ◌+◌, Bool, false, List, [], ◌∷◌, map, Option, none, some, String, Runtime, concat, or_else,
  sort_by,
}
use ivrm_dashboard.Prelude.StringMap.{get, set, values}
use ivrm_dashboard.Monitoring.Types.{
  HostRow, HeartbeatRow, ContainerSampleRow, ContainerExpectationRow, HostOverview,
  ContainerOverview, MonitoringSnapshot,
}
use ivrm_dashboard.Monitoring.{
  stale_threshold_seconds, age_seconds, determine_host_status, is_maintenance_active,
  determine_container_status, opt_expected,
}

-- `if (!m.has(k)) m.set(k, v)`
abbrev pub keep_first {ℓ} : {V : Type ℓ} → String → V → List (String × V) → List (String × V)
keep_first k v m = elim (get k m) [ none ↦ set k v m | some _ ↦ m ]

abbrev pub container_key : String → String → String
container_key host_id container_name = concat (host_id ∷ ":" ∷ container_name ∷ [])

-- `hostNameById`
unfoldable pub host_name_by_id : List (String × String) → List HostRow → List (String × String)
host_name_by_id m [] = m
host_name_by_id m (host ∷ rest) = host_name_by_id (set host.id host.display_name m) rest

-- `expectationByKey`
unfoldable pub expectation_by_key :
    List (String × ContainerExpectationRow)
    → List ContainerExpectationRow
    → List (String × ContainerExpectationRow)
expectation_by_key m [] = m
expectation_by_key m (row ∷ rest) =
    expectation_by_key (set (container_key row.host_id row.container_name) row m) rest

module _ {Number : Type 0} where
  -- `latestByHost`
  unfoldable pub latest_by_host :
      List (String × HeartbeatRow Number)
      → List (HeartbeatRow Number)
      → List (String × HeartbeatRow Number)
  latest_by_host m [] = m
  latest_by_host m (heartbeat ∷ rest) =
      latest_by_host (keep_first heartbeat.host_id heartbeat m) rest

  abbrev pub keep_container :
      Option String
      → ContainerSampleRow Number
      → List (String × ContainerSampleRow Number)
      → List (String × ContainerSampleRow Number)
  keep_container none container m = m
  keep_container (some _) container m =
      keep_first (container_key container.host_id container.container_name) container m

  -- `latestContainerByKey`: containers of a host that is not listed are dropped.
  unfoldable pub latest_container_by_key :
      List (String × String)
      → List (String × ContainerSampleRow Number)
      → List (ContainerSampleRow Number)
      → List (String × ContainerSampleRow Number)
  latest_container_by_key names m [] = m
  latest_container_by_key names m (container ∷ rest) =
      latest_container_by_key names (keep_container (get container.host_id names) container m) rest

abbrev expected_mode : Option ContainerExpectationRow → Bool
expected_mode none = false
expected_mode (some row) = row.maintenance_mode

abbrev expected_reason : Option ContainerExpectationRow → Option String
expected_reason none = none
expected_reason (some row) = row.maintenance_reason

abbrev expected_until : Option ContainerExpectationRow → Option String
expected_until none = none
expected_until (some row) = row.maintenance_until

module _ ⦃runtime : Runtime⦄ {Number : Type 0} where
  -- The overview of a host with its latest heartbeat.
  pub host_overview : ℕ → HostRow → Option (HeartbeatRow Number) → HostOverview Number
  unfolding determine_host_status
  host_overview now host none = record {
    id = host.id;
    server_id = host.server_id;
    display_name = host.display_name;
    provider = host.provider;
    environment = host.environment;
    status = determine_host_status none;
    agent_version = none;
    received_at = none;
    sent_at = none;
    age_seconds = none;
    metrics = none;
  }
  host_overview now host (some heartbeat) = record {
    id = host.id;
    server_id = host.server_id;
    display_name = host.display_name;
    provider = host.provider;
    environment = host.environment;
    status = determine_host_status (age_seconds heartbeat.received_at now);
    agent_version = some heartbeat.agent_version;
    received_at = some heartbeat.received_at;
    sent_at = some heartbeat.sent_at;
    age_seconds = age_seconds heartbeat.received_at now;
    metrics = some heartbeat.metrics;
  }

  -- A sample whose time cannot be read is older than the offline threshold.
  abbrev pub sample_age : ContainerSampleRow Number → ℕ → ℕ
  sample_age container now =
      or_else (age_seconds container.received_at now) (stale_threshold_seconds + 1)

  -- The overview of a container with its expectation and its host's name.
  unfoldable pub container_overview :
      ℕ
      → ContainerSampleRow Number
      → Option ContainerExpectationRow
      → Option String
      → ContainerOverview Number
  container_overview now container expectation host_name = record {
    host_id = container.host_id;
    host_display_name = or_else host_name "Unknown Host";
    name = container.container_name;
    status = determine_container_status container (sample_age container now) expectation now;
    state = container.state;
    health = container.health;
    oom_killed = container.oom_killed;
    metrics = container.metrics;
    received_at = container.received_at;
    age_seconds = sample_age container now;
    expected_state = opt_expected expectation;
    maintenance_mode = expected_mode expectation;
    maintenance_active = is_maintenance_active expectation now;
    maintenance_reason = expected_reason expectation;
    maintenance_until = expected_until expectation;
  }

  abbrev pub display_key : ContainerOverview Number → String
  display_key container = concat (container.host_display_name ∷ ":" ∷ container.name ∷ [])

  -- `getMonitoringSnapshot`
  unfoldable pub get_monitoring_snapshot :
      (String → String → Bool)
      → ℕ
      → List HostRow
      → List (HeartbeatRow Number)
      → List (ContainerSampleRow Number)
      → List ContainerExpectationRow
      → MonitoringSnapshot Number
  unfolding latest_by_host host_name_by_id latest_container_by_key expectation_by_key
  get_monitoring_snapshot locale_le now hosts heartbeats samples expectations =
      let latest = latest_by_host [] heartbeats in
      let names = host_name_by_id [] hosts in
      let containers = latest_container_by_key names [] samples in
      let expected = expectation_by_key [] expectations in
      record {
        generated_at = runtime.to_iso_string now;
        hosts = map (λ host. host_overview now host (get host.id latest)) hosts;
        containers =
            sort_by (λ left right. locale_le (display_key left) (display_key right))
              (map
                (λ container.
                  container_overview now container
                    (get (container_key container.host_id container.container_name) expected)
                    (get container.host_id names))
                (values containers));
      }
