-- ===== src/Tests/Maintenance.antt =====
-- Downtime of the first hour, with maintenance from ten past to half past.
use ivrm_dashboard.Prelude.{
  ℕ, ◌+◌, ◌-◌, ◌/◌, ◌≤◌, ◌≡◌, refl, true, not, ◌&&◌, ◌||◌, any, none, [], ◌∷◌, ◌++◌, Runtime,
  String,
}
use ivrm_dashboard.Incident.{ActiveIncident}
use ivrm_dashboard.Incident.Names.{oom_killed_reason}
use ivrm_dashboard.Reliability.Types.{MaintenanceWindow}
use ivrm_dashboard.Reliability.Metrics.{clip_interval, open_interval, collect_known_downtime}
use ivrm_dashboard.Reliability.Metrics.Bounds.{opt_holds}
use ivrm_dashboard.Reliability.Maintenance.{
  window_intervals, exclusions_for, applies_to_incident, effective_window_interval,
}
use ivrm_dashboard.Reliability.Maintenance.Collect.{
  collect, push_incident, collect_maintenance_adjusted_downtime,
}
use ivrm_dashboard.Reliability.Intervals.{subtract_intervals, union_seconds}
use ivrm_dashboard.Reliability.Intervals.Coverage.{covers}
use ivrm_dashboard.Reliability.Maintenance.Accounting.{
  adjusted_accounts, adjusted_raw-eq-known, covers-counted, planned, exact_interval,
}
use ivrm_dashboard.Reliability.Maintenance.Windows.{covers-counted_oom, counted_downtime_antitone}
use ivrm_dashboard.Tests.Fixtures.{
  midnight, minutes, calendar, recovered, still_active, subject, window,
}

instance abbrev runtime : Runtime
runtime = calendar

abbrev hour_end : ℕ
hour_end = midnight + minutes 60

abbrev stopped : String
stopped = "State running → exited"

adjusted_run :
    collect_maintenance_adjusted_downtime
      (still_active ∷ [])
      (recovered stopped ∷ [])
      (window ∷ [])
      midnight
      hour_end
    ≡ record {
      raw_downtime_seconds = 3000;
      counted_downtime_seconds = 2400;
      excluded_maintenance_seconds = 600;
      exact_coverage = true;
    }
unfolding collect_maintenance_adjusted_downtime exclusions_for applies_to_incident
    effective_window_interval union_seconds push_incident clip_interval open_interval
    subtract_intervals
adjusted_run = refl

adjusted_accounts_example :
    let a =
      collect_maintenance_adjusted_downtime
        (still_active ∷ [])
        (recovered stopped ∷ [])
        (window ∷ [])
        midnight
        hour_end in
    (a.counted_downtime_seconds + a.excluded_maintenance_seconds ≡ a.raw_downtime_seconds)
    × (a.raw_downtime_seconds ≤ (hour_end - midnight) / 1000)
adjusted_accounts_example =
    adjusted_accounts (still_active ∷ []) (recovered stopped ∷ []) (window ∷ []) midnight hour_end

adjusted_raw-eq-known_example :
    let a =
      collect_maintenance_adjusted_downtime
        (still_active ∷ [])
        (recovered stopped ∷ [])
        (window ∷ [])
        midnight
        hour_end in
    let k = collect_known_downtime (still_active ∷ []) (recovered stopped ∷ []) midnight hour_end in
    (a.raw_downtime_seconds ≡ k.seconds) × (a.exact_coverage ≡ k.exact_coverage)
adjusted_raw-eq-known_example =
    adjusted_raw-eq-known (still_active ∷ []) (recovered stopped ∷ []) (window ∷ []) midnight
      hour_end

covers-counted_example :
    covers
      (midnight + minutes 5)
      (collect
        (window_intervals midnight hour_end (window ∷ []))
        midnight
        hour_end
        (still_active ∷ [])
        (recovered stopped ∷ [])).counted_intervals
    ≡ (any
          (λ i.
            opt_holds
              (midnight + minutes 5)
              (clip_interval i.started_at i.recovered_at midnight hour_end)
            && not (planned (midnight + minutes 5) midnight hour_end (window ∷ []) i.subject))
          (recovered stopped ∷ [])
        || any
            (λ i.
              opt_holds (midnight + minutes 5) (exact_interval midnight hour_end i)
              && not (planned (midnight + minutes 5) midnight hour_end (window ∷ []) i.subject))
            (still_active ∷ []))
covers-counted_example =
    covers-counted (still_active ∷ []) (recovered stopped ∷ []) (window ∷ []) midnight hour_end
      (midnight + minutes 5)

abbrev oom_window : MaintenanceWindow
oom_window = record window { cancelled_at = none }

abbrev oom_incident : ActiveIncident
oom_incident = record still_active { subject = subject oom_killed_reason }

covers-counted_oom_example :
    covers
      (midnight + minutes 45)
      (collect
        (window_intervals midnight hour_end (oom_window ∷ []))
        midnight
        hour_end
        (still_active ∷ oom_incident ∷ [])
        (recovered stopped ∷ [])).counted_intervals
    ≡ true
unfolding open_interval clip_interval
covers-counted_oom_example =
    covers-counted_oom (midnight + minutes 45) midnight hour_end (still_active ∷ []) []
      (recovered stopped ∷ []) oom_incident (oom_window ∷ []) refl refl refl

counted_downtime_antitone_example :
    (collect_maintenance_adjusted_downtime []
      (recovered stopped ∷ [])
      ((window ∷ []) ++ [])
      midnight
      hour_end).counted_downtime_seconds
    ≤ (collect_maintenance_adjusted_downtime []
        (recovered stopped ∷ [])
        []
        midnight
        hour_end).counted_downtime_seconds
counted_downtime_antitone_example =
    counted_downtime_antitone [] (recovered stopped ∷ []) (window ∷ []) [] midnight hour_end
