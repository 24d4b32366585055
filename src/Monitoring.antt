-- ===== src/Monitoring.antt =====
-- apps/web/lib/monitoring.ts: the status of hosts and containers, and the snapshot that joins the
-- rows of four tables. An instant is a number of milliseconds, as in Prelude/Platform.
pub mod Types
pub mod Snapshot
pub mod Status
pub mod Joins
use ivrm_dashboard.Prelude.{
  ℕ, ◌-◌, ◌/◌, Bool, true, false, ◌||◌, Option, none, some, String, Runtime, ltb, if◌then◌else◌,
  truthy,
}
use Types.{
  ContainerStatus, online, offline, stale, error, standby, maintenance, ContainerState,
  ContainerHealth, ContainerExpectedState, stopped, absent, ContainerSampleRow,
  ContainerExpectationRow,
}

abbrev pub online_threshold_seconds : ℕ
online_threshold_seconds = 45

abbrev pub stale_threshold_seconds : ℕ
stale_threshold_seconds = 180

-- `Math.max(0, Math.floor((now - t) / 1000))`: an instant after `now` has age 0.
abbrev pub age_of : ℕ → ℕ → ℕ
age_of now t = (now - t) / 1000

abbrev pub opt_age : Option ℕ → ℕ → Option ℕ
opt_age none now = none
opt_age (some t) now = some (age_of now t)

-- `ageSeconds`
unfoldable pub age_seconds : ⦃runtime : Runtime⦄ → String → ℕ → Option ℕ
age_seconds ⦃runtime⦄ timestamp now = opt_age (runtime.parse timestamp) now

-- `determineHostStatus`
unfoldable pub determine_host_status : Option ℕ → ContainerStatus
determine_host_status none = offline
determine_host_status (some age) =
    if ltb stale_threshold_seconds age
    then offline
    else if ltb online_threshold_seconds age
    then stale
    else online

-- `Number.isFinite(until) && until > now`
abbrev pub until_after : Option ℕ → ℕ → Bool
until_after none now = false
until_after (some t) now = ltb now t

-- Maintenance with no end lasts.
unfoldable pub lasts : ⦃runtime : Runtime⦄ → Option String → ℕ → Bool
lasts none now = true
lasts ⦃runtime⦄ (some maintenance_until) now = until_after (runtime.parse maintenance_until) now

-- `isMaintenanceActive`
unfoldable pub is_maintenance_active :
    ⦃runtime : Runtime⦄ → Option ContainerExpectationRow → ℕ → Bool
unfolding lasts
is_maintenance_active none now = false
is_maintenance_active (some expectation) now =
    if expectation.maintenance_mode then lasts (truthy expectation.maintenance_until) now else false

abbrev is_exited_or_created : ContainerState → Bool
is_exited_or_created ContainerState.exited = true
is_exited_or_created ContainerState.created = true
is_exited_or_created _ = false

abbrev is_not_found : ContainerState → Bool
is_not_found ContainerState.not_found = true
is_not_found _ = false

abbrev is_running : ContainerState → Bool
is_running ContainerState.running = true
is_running _ = false

abbrev is_dead : ContainerState → Bool
is_dead ContainerState.dead = true
is_dead _ = false

abbrev is_restarting_or_paused : ContainerState → Bool
is_restarting_or_paused ContainerState.restarting = true
is_restarting_or_paused ContainerState.paused = true
is_restarting_or_paused _ = false

-- The states that are an error of a container that should run.
abbrev is_down : ContainerState → Bool
is_down ContainerState.dead = true
is_down ContainerState.exited = true
is_down ContainerState.created = true
is_down ContainerState.removing = true
is_down ContainerState.not_found = true
is_down ContainerState.unknown = true
is_down _ = false

abbrev is_unhealthy : ContainerHealth → Bool
is_unhealthy ContainerHealth.unhealthy = true
is_unhealthy _ = false

abbrev is_starting : ContainerHealth → Bool
is_starting ContainerHealth.starting = true
is_starting _ = false

abbrev is_unknown : ContainerHealth → Bool
is_unknown ContainerHealth.unknown = true
is_unknown _ = false

-- The `switch` on the expected state, for a fresh sample outside maintenance.
unfoldable pub expected_status :
    Option ContainerExpectedState → ContainerState → ContainerHealth → Bool → ContainerStatus
expected_status (some stopped) state _ oom_killed =
    if is_exited_or_created state then standby else error
expected_status (some absent) state _ oom_killed = if is_not_found state then standby else error
expected_status (some ContainerExpectedState.running) state health oom_killed =
    if oom_killed || is_unhealthy health || is_down state
    then error
    else if is_restarting_or_paused state || is_starting health || is_unknown health
    then stale
    else if is_running state
    then online
    else error
expected_status none state health oom_killed =
    if oom_killed || is_unhealthy health || is_dead state
    then error
    else if is_restarting_or_paused state || is_starting health
    then stale
    else if is_running state
    then online
    else offline

abbrev pub opt_expected : Option ContainerExpectationRow → Option ContainerExpectedState
opt_expected none = none
opt_expected (some expectation) = some expectation.expected_state

-- `determineContainerStatus`
unfoldable pub determine_container_status :
    ⦃runtime : Runtime⦄ {Number : Type 0}
    → ContainerSampleRow Number
    → ℕ
    → Option ContainerExpectationRow
    → ℕ
    → ContainerStatus
determine_container_status container age expectation now =
    if ltb stale_threshold_seconds age
    then offline
    else if ltb online_threshold_seconds age
    then stale
    else if is_maintenance_active expectation now
    then maintenance
    else expected_status (opt_expected expectation) container.state container.health
        container.oom_killed
