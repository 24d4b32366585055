-- ===== src/Monitoring/Status.antt =====
-- What the statuses of apps/web/lib/monitoring.ts say of their inputs.
use ivrm_dashboard.Prelude.{
  ℕ, ◌≤◌, ◌≡◌, refl, ◌↔◌, ◌≢◌, Bool, true, false, Option, none, some, String, Runtime, arith,
}
use ivrm_dashboard.Monitoring.Types.{
  ContainerStatus, online, stale, maintenance, ContainerState, ContainerHealth,
  ContainerExpectedState, stopped, absent, ContainerSampleRow, ContainerExpectationRow,
}
use ivrm_dashboard.Monitoring.{
  opt_age, age_seconds, determine_host_status, is_maintenance_active, expected_status, opt_expected,
  determine_container_status,
}

-- How late the last heartbeat is.
abbrev pub lateness : ContainerStatus → ℕ
lateness online = 0
lateness stale = 1
lateness _ = 2

-- While no new heartbeat arrives, the status of a host only gets worse as time goes on.
pub host_status_mono :
    ⦃runtime : Runtime⦄ (received_at : String) (now later : ℕ)
    → now ≤ later
    → lateness (determine_host_status (age_seconds received_at now))
      ≤ lateness (determine_host_status (age_seconds received_at later))
unfolding determine_host_status age_seconds
host_status_mono ⦃runtime⦄ received_at now later h = go (runtime.parse received_at)
  where
    go :
        (t : Option ℕ)
        → lateness (determine_host_status (opt_age t now))
          ≤ lateness (determine_host_status (opt_age t later))
    go none = omega arith
    go (some t) = ground arith

-- The health and OOM state that an online container may have.
abbrev pub IsWell : Option ContainerExpectedState → ContainerHealth → Type 0
IsWell (some ContainerExpectedState.running) ContainerHealth.healthy = Unit
IsWell (some ContainerExpectedState.running) ContainerHealth.none = Unit
IsWell none ContainerHealth.healthy = Unit
IsWell none ContainerHealth.none = Unit
IsWell none ContainerHealth.unknown = Unit
IsWell _ _ = ⊥

expected-ne-maintenance :
    (expected : Option ContainerExpectedState) (state : ContainerState) (check : ContainerHealth)
    (oom_killed : Bool)
    → expected_status expected state check oom_killed ≢ maintenance
unfolding expected_status
expected-ne-maintenance (some stopped) s c o = ground arith
expected-ne-maintenance (some absent) s c o = ground arith
expected-ne-maintenance (some ContainerExpectedState.running) s c o = ground arith
expected-ne-maintenance none s c o = ground arith

expected-online_to :
    (expected : Option ContainerExpectedState) (state : ContainerState) (check : ContainerHealth)
    (oom_killed : Bool)
    → expected_status expected state check oom_killed ≡ online
    → (state ≡ ContainerState.running) × (oom_killed ≡ false) × IsWell expected check
unfolding expected_status
expected-online_to (some stopped) s c o h = ground arith
expected-online_to (some absent) s c o h = ground arith
expected-online_to (some ContainerExpectedState.running) s ContainerHealth.healthy o h =
    ground arith
expected-online_to (some ContainerExpectedState.running) s _ o h = ground arith
expected-online_to none s ContainerHealth.healthy o h = ground arith
expected-online_to none s _ o h = ground arith

expected-online_of :
    (expected : Option ContainerExpectedState) (check : ContainerHealth)
    → IsWell expected check
    → expected_status expected ContainerState.running check false ≡ online
unfolding expected_status
expected-online_of (some stopped) c w = elim w [ ]
expected-online_of (some absent) c w = elim w [ ]
expected-online_of (some ContainerExpectedState.running) ContainerHealth.healthy w = refl
expected-online_of (some ContainerExpectedState.running) _ w = ground arith
expected-online_of none ContainerHealth.healthy w = refl
expected-online_of none _ w = ground arith

module _ ⦃runtime : Runtime⦄ {Number : Type 0} (container : ContainerSampleRow Number) (age now : ℕ)
    (expectation : Option ContainerExpectationRow) where
  -- A container is under maintenance exactly when its sample is fresh and maintenance is active.
  pub status_maintenance_iff :
      (determine_container_status container age expectation now ≡ maintenance)
      ↔ ((age ≤ 45) × (is_maintenance_active expectation now ≡ true))
  unfolding determine_container_status
  status_maintenance_iff = ground (
    arith,
    expected-ne-maintenance (opt_expected expectation) container.state container.health
        container.oom_killed,
  )

  -- A container is online exactly when its sample is fresh, no maintenance is active, it runs, was
  -- not OOM-killed, and is well for what is expected of it.
  pub status_online_iff : (determine_container_status container age expectation now ≡ online) ↔ (
      (age ≤ 45)
      × (is_maintenance_active expectation now ≡ false)
      × (container.state ≡ ContainerState.running)
      × (container.oom_killed ≡ false)
      × IsWell (opt_expected expectation) container.health)
  unfolding determine_container_status
  status_online_iff = (
    λ h. ground (
      arith,
      expected-online_to (opt_expected expectation) container.state container.health
          container.oom_killed,
    ),
    λ h. ground (arith, expected-online_of (opt_expected expectation) container.health h.4),
  )
