-- ===== src/Reliability/Maintenance/Accounting.antt =====
-- The seconds that `collectMaintenanceAdjustedDowntime` returns.
use ivrm_dashboard.Prelude.{
  ℕ, ◌+◌, ◌-◌, ◌/◌, ◌≤◌, ◌≡◌, refl, ◌∙◌, ap, ap₂, any-congr, Bool, not, ◌&&◌, ◌||◌, List, [], ◌∷◌,
  Option, none, some, String, Runtime, arith, any,
}
use ivrm_dashboard.Incident.{IncidentSubject, ActiveIncident, RecoveredIncident}
use ivrm_dashboard.Reliability.Types.{MaintenanceWindow}
use ivrm_dashboard.Reliability.Intervals.{ReliabilityInterval, union_seconds}
use ivrm_dashboard.Reliability.Intervals.Coverage.{covers, count_below_from, covers_before}
use ivrm_dashboard.Reliability.Intervals.Union.{union_seconds-eq-measure, union_seconds_mono}
use ivrm_dashboard.Reliability.Metrics.{
  clip_interval, open_interval, exact_started_at, recovered_intervals, active_intervals,
  collect_known_downtime,
}
use ivrm_dashboard.Reliability.Metrics.Bounds.{opt_holds}
use ivrm_dashboard.Reliability.Maintenance.{
  WindowEntry, applies_to_incident, exclusions_for, window_intervals, effective_window_interval,
}
use ivrm_dashboard.Reliability.Maintenance.Collect.{
  Collected, push_incident, collect_recovered, push_active, collect_active, collect,
  collect_maintenance_adjusted_downtime,
}
use ivrm_dashboard.Reliability.Maintenance.Coverage.{
  IsAccounted, collect-IsAccounted, recovered_counts, started_counts, active_counts, covers-collect,
}

module _ ⦃runtime : Runtime⦄ (entries : List WindowEntry) (range_start range_end : ℕ) where
  collect_active-intervals :
      (active : List ActiveIncident)
      → let c = collect_active entries range_start range_end active in
        let known = active_intervals range_start range_end active in
        (c.raw_intervals ≡ known.0) × (c.exact_coverage ≡ known.1)
  unfolding collect_active active_intervals push_active push_incident
  collect_active-intervals [] = (refl, refl)
  collect_active-intervals (incident ∷ rest) = ground (arith, collect_active-intervals rest)

  collect_recovered-intervals :
      (recovered : List RecoveredIncident) (later : Collected)
      → let c = collect_recovered entries range_start range_end recovered later in
        (c.raw_intervals ≡ recovered_intervals range_start range_end recovered later.raw_intervals)
        × (c.exact_coverage ≡ later.exact_coverage)
  unfolding collect_recovered recovered_intervals push_incident
  collect_recovered-intervals [] later = (refl, refl)
  collect_recovered-intervals (incident ∷ rest) later =
      ground (arith, collect_recovered-intervals rest later)

  raw-collect :
      (active : List ActiveIncident) (recovered : List RecoveredIncident)
      → (collect entries range_start range_end active recovered).raw_intervals
        ≡ recovered_intervals range_start range_end recovered
            (active_intervals range_start range_end active).0
  unfolding collect
  raw-collect active recovered =
      (collect_recovered-intervals recovered
        (collect_active entries range_start range_end active)).0
      ∙ ap (recovered_intervals range_start range_end recovered) (collect_active-intervals active).0

  exact-collect :
      (active : List ActiveIncident) (recovered : List RecoveredIncident)
      → (collect entries range_start range_end active recovered).exact_coverage
        ≡ (active_intervals range_start range_end active).1
  unfolding collect
  exact-collect active recovered =
      (collect_recovered-intervals recovered
        (collect_active entries range_start range_end active)).1
      ∙ (collect_active-intervals active).1

-- The interval of an active incident whose start is exact.
abbrev pub started_interval :
    ⦃runtime : Runtime⦄ → ℕ → ℕ → Option String → Option ReliabilityInterval
started_interval range_start range_end none = none
started_interval range_start range_end (some started_at) =
    open_interval started_at range_start range_end

abbrev pub exact_interval :
    ⦃runtime : Runtime⦄ → ℕ → ℕ → ActiveIncident → Option ReliabilityInterval
exact_interval range_start range_end incident =
    started_interval range_start range_end (exact_started_at incident)

-- A maintenance window that applies to the incident is open at the instant.
abbrev pub planned :
    ⦃runtime : Runtime⦄ → ℕ → ℕ → ℕ → List MaintenanceWindow → IncidentSubject → Bool
planned t range_start range_end windows incident =
    any
      (λ window.
        applies_to_incident window incident
        && opt_holds t (effective_window_interval window range_start range_end))
      windows

module _ ⦃runtime : Runtime⦄ (t range_start range_end : ℕ) where
  covers-exclusions_for :
      (windows : List MaintenanceWindow) (incident : IncidentSubject)
      → covers t (exclusions_for (window_intervals range_start range_end windows) incident)
        ≡ planned t range_start range_end windows incident
  unfolding exclusions_for window_intervals
  covers-exclusions_for [] incident = refl
  covers-exclusions_for (window ∷ rest) incident =
      ground (arith, covers-exclusions_for rest incident)

  recovered_planned :
      (windows : List MaintenanceWindow) (i : RecoveredIncident)
      → recovered_counts (window_intervals range_start range_end windows) range_start range_end t i
        ≡ (opt_holds t (clip_interval i.started_at i.recovered_at range_start range_end)
            && not (planned t range_start range_end windows i.subject))
  recovered_planned windows i = rw (covers-exclusions_for windows i.subject)

  started_planned :
      (windows : List MaintenanceWindow) (i : IncidentSubject) (started_at : Option String)
      → started_counts
          (window_intervals range_start range_end windows)
          range_start
          range_end
          t
          i
          started_at
        ≡ (opt_holds t (started_interval range_start range_end started_at)
            && not (planned t range_start range_end windows i))
  started_planned windows i none = refl
  started_planned windows i (some started_at) = rw (covers-exclusions_for windows i)

  active_planned :
      (windows : List MaintenanceWindow) (i : ActiveIncident)
      → active_counts (window_intervals range_start range_end windows) range_start range_end t i ≡ (
          opt_holds t (exact_interval range_start range_end i)
          && not (planned t range_start range_end windows i.subject))
  active_planned windows i = started_planned windows i.subject (exact_started_at i)

module _ ⦃runtime : Runtime⦄ where
  module _ (active : List ActiveIncident) (recovered : List RecoveredIncident)
      (windows : List MaintenanceWindow) (range_start range_end : ℕ) where
    -- Counted and excluded downtime add up to the raw downtime, which is no longer than the range.
    pub adjusted_accounts :
        let a =
          collect_maintenance_adjusted_downtime active recovered windows range_start range_end in
        (a.counted_downtime_seconds + a.excluded_maintenance_seconds ≡ a.raw_downtime_seconds)
        × (a.raw_downtime_seconds ≤ (range_end - range_start) / 1000)
    unfolding collect_maintenance_adjusted_downtime
    adjusted_accounts =
        let entries = window_intervals range_start range_end windows in
        let c = collect entries range_start range_end active recovered in
        let a : IsAccounted range_start range_end c =
          collect-IsAccounted entries range_start range_end active recovered in
        let le =
          union_seconds_mono range_end c.counted_intervals c.raw_intervals a.counted_proper
            a.counted_ends a.raw_proper a.raw_ends a.counted_raw in
        (
          omega (arith, le),
          omega (
            arith,
            union_seconds-eq-measure range_end c.raw_intervals a.raw_proper a.raw_ends,
            count_below_from range_end range_start (λ t. covers t c.raw_intervals)
                (λ t. covers_before t range_start c.raw_intervals a.raw_starts),
          ),
        )

    -- The raw downtime is the known downtime of `collectKnownDowntime`, and so is its coverage.
    pub adjusted_raw-eq-known :
        let a =
          collect_maintenance_adjusted_downtime active recovered windows range_start range_end in
        let k = collect_known_downtime active recovered range_start range_end in
        (a.raw_downtime_seconds ≡ k.seconds) × (a.exact_coverage ≡ k.exact_coverage)
    unfolding collect_maintenance_adjusted_downtime collect_known_downtime
    adjusted_raw-eq-known =
        let entries = window_intervals range_start range_end windows in
        (
          ap union_seconds (raw-collect entries range_start range_end active recovered),
          exact-collect entries range_start range_end active recovered,
        )

  -- An instant is counted exactly when it lies in the interval of an incident, clipped to the range,
  -- and no maintenance window that applies to that incident is open then. An active incident has
  -- an interval only where its start is exact.
  pub covers-counted :
      (active : List ActiveIncident) (recovered : List RecoveredIncident)
      (windows : List MaintenanceWindow) (range_start range_end t : ℕ)
      → covers t
          (collect
            (window_intervals range_start range_end windows)
            range_start
            range_end
            active
            recovered).counted_intervals
        ≡ (any
              (λ i.
                opt_holds t (clip_interval i.started_at i.recovered_at range_start range_end)
                && not (planned t range_start range_end windows i.subject))
              recovered
            || any
                (λ i.
                  opt_holds t (exact_interval range_start range_end i)
                  && not (planned t range_start range_end windows i.subject))
                active)
  covers-counted active recovered windows range_start range_end t =
      covers-collect (window_intervals range_start range_end windows) range_start range_end t active
        recovered
      ∙ ap₂ ◌||◌
          (any-congr _ _ (λ i. recovered_planned t range_start range_end windows i) recovered)
          (any-congr _ _ (λ i. active_planned t range_start range_end windows i) active)
