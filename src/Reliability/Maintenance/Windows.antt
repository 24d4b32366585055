-- ===== src/Reliability/Maintenance/Windows.antt =====
-- What a maintenance window can change: it lowers the counted downtime, and never hides an OOM
-- kill that is still active.
use ivrm_dashboard.Prelude.{
  ℕ, ◌≤◌, ◌≡◌, refl, sym, ◌∙◌, Bool, true, false, not, ◌&&◌, ◌||◌, List, [], ◌∷◌, ◌++◌, Runtime,
  arith, any-append, any_mono,
}
use ivrm_dashboard.Incident.{IncidentSubject, ActiveIncident, RecoveredIncident, container}
use ivrm_dashboard.Incident.Names.{oom_killed_reason}
use ivrm_dashboard.Reliability.Types.{MaintenanceWindow}
use ivrm_dashboard.Reliability.Intervals.Coverage.{covers}
use ivrm_dashboard.Reliability.Intervals.Union.{union_seconds_mono}
use ivrm_dashboard.Reliability.Metrics.Bounds.{opt_holds}
use ivrm_dashboard.Reliability.Maintenance.{
  applies_to_incident, maintenance_excludable, window_intervals,
}
use ivrm_dashboard.Reliability.Maintenance.Collect.{collect, collect_maintenance_adjusted_downtime}
use ivrm_dashboard.Reliability.Maintenance.Coverage.{collect-IsAccounted}
use ivrm_dashboard.Reliability.Maintenance.Accounting.{planned, exact_interval, covers-counted}

or_mono :
    (a b c d : Bool)
    → (a ≡ true → c ≡ true)
    → (b ≡ true → d ≡ true)
    → (a || b) ≡ true
    → (c || d) ≡ true
or_mono a b c d f g h = ground arith

applies_oom :
    (window : MaintenanceWindow) (incident : IncidentSubject)
    → incident.entity_type ≡ container
    → incident.start_reason ≡ oom_killed_reason
    → applies_to_incident window incident ≡ false
unfolding applies_to_incident maintenance_excludable
applies_oom window incident h k = rw (h, k)

module _ ⦃runtime : Runtime⦄ (t range_start range_end : ℕ) where
  planned_oom :
      (windows : List MaintenanceWindow) (incident : IncidentSubject)
      → incident.entity_type ≡ container
      → incident.start_reason ≡ oom_killed_reason
      → planned t range_start range_end windows incident ≡ false
  planned_oom [] incident h k = refl
  planned_oom (window ∷ rest) incident h k =
      ground (arith, applies_oom window incident h k, planned_oom rest incident h k)

  planned_mono :
      (more windows : List MaintenanceWindow) (incident : IncidentSubject)
      → planned t range_start range_end windows incident ≡ true
      → planned t range_start range_end (more ++ windows) incident ≡ true
  planned_mono more windows incident h = any-append _ more windows ∙ ground (arith, h)

  -- An active container incident that an OOM kill opened, since an exact start, counts every instant
  -- of its interval, whatever maintenance windows and other incidents there are.
  pub covers-counted_oom :
      (before after : List ActiveIncident) (recovered : List RecoveredIncident)
      (incident : ActiveIncident) (windows : List MaintenanceWindow)
      → incident.entity_type ≡ container
      → incident.start_reason ≡ oom_killed_reason
      → opt_holds t (exact_interval range_start range_end incident) ≡ true
      → covers t
          (collect
            (window_intervals range_start range_end windows)
            range_start
            range_end
            (before ++ incident ∷ after)
            recovered).counted_intervals
        ≡ true
  covers-counted_oom before after recovered incident windows h k held =
      covers-counted (before ++ incident ∷ after) recovered windows range_start range_end t
      ∙ ground (
        arith,
        held,
        planned_oom windows incident.subject h k,
        any-append
            (λ i.
              opt_holds t (exact_interval range_start range_end i)
              && not (planned t range_start range_end windows i.subject))
            before (incident ∷ after),
      )

  counted_antitone :
      (active : List ActiveIncident) (recovered : List RecoveredIncident)
      (more windows : List MaintenanceWindow)
      → covers t
          (collect
            (window_intervals range_start range_end (more ++ windows))
            range_start
            range_end
            active
            recovered).counted_intervals
        ≡ true
      → covers t
          (collect
            (window_intervals range_start range_end windows)
            range_start
            range_end
            active
            recovered).counted_intervals
        ≡ true
  counted_antitone active recovered more windows h =
      covers-counted active recovered windows range_start range_end t
      ∙ or_mono _ _ _ _ (any_mono _ _ (λ i. kept i.subject _) recovered)
          (any_mono _ _ (λ i. kept i.subject _) active)
          (sym (covers-counted active recovered (more ++ windows) range_start range_end t) ∙ h)
    where
      kept :
          (incident : IncidentSubject) (held : Bool)
          → (held && not (planned t range_start range_end (more ++ windows) incident)) ≡ true
          → (held && not (planned t range_start range_end windows incident)) ≡ true
      kept incident held e = ground (arith, planned_mono more windows incident)

module _ ⦃runtime : Runtime⦄ where
  -- More maintenance windows never raise the counted downtime.
  pub counted_downtime_antitone :
      (active : List ActiveIncident) (recovered : List RecoveredIncident)
      (more windows : List MaintenanceWindow) (range_start range_end : ℕ)
      → (collect_maintenance_adjusted_downtime active recovered
          (more ++ windows)
          range_start
          range_end).counted_downtime_seconds
        ≤ (collect_maintenance_adjusted_downtime active recovered windows range_start
            range_end).counted_downtime_seconds
  unfolding collect_maintenance_adjusted_downtime
  counted_downtime_antitone active recovered more windows range_start range_end =
      let a =
        collect-IsAccounted (window_intervals range_start range_end (more ++ windows)) range_start
          range_end active recovered in
      let b =
        collect-IsAccounted (window_intervals range_start range_end windows) range_start range_end
          active recovered in
      union_seconds_mono range_end _ _ a.counted_proper a.counted_ends b.counted_proper
        b.counted_ends (λ t. counted_antitone t range_start range_end active recovered more windows)
