-- ===== src/Reliability/Maintenance/Coverage.antt =====
-- Which instants are counted as downtime after planned maintenance is taken out.
use ivrm_dashboard.Prelude.{
  ℕ, ◌≡◌, refl, ◌∙◌, ap, Bool, true, false, not, ◌&&◌, ◌||◌, List, [], ◌∷◌, ◌++◌, Option, none,
  some, String, Runtime, arith, any, any-append, All, All-append,
}
use ivrm_dashboard.Incident.{IncidentSubject, ActiveIncident, RecoveredIncident}
use ivrm_dashboard.Reliability.Intervals.{ReliabilityInterval, subtract_intervals}
use ivrm_dashboard.Reliability.Intervals.Coverage.{holds, covers, IsProper, EndsBy, StartsFrom}
use ivrm_dashboard.Reliability.Intervals.Subtract.{
  covers-subtract_intervals, subtract_intervals-IsProper, subtract_intervals-EndsBy,
}
use ivrm_dashboard.Reliability.Metrics.{clip_interval, open_interval, exact_started_at}
use ivrm_dashboard.Reliability.Metrics.Bounds.{
  OptWithin, opt_holds, clip_interval-OptWithin, open_interval-OptWithin,
}
use ivrm_dashboard.Reliability.Maintenance.{WindowEntry, exclusions_for}
use ivrm_dashboard.Reliability.Maintenance.Collect.{
  Collected, push_incident, collect_recovered, push_active, collect_active, collect,
}

-- Every interval lies in the range, and every counted instant is a raw one.
pub record IsAccounted (range_start range_end : ℕ) (c : Collected) : Type 0 where
  pub raw_proper : All IsProper c.raw_intervals
  pub raw_starts : All (StartsFrom range_start) c.raw_intervals
  pub raw_ends : All (EndsBy range_end) c.raw_intervals
  pub counted_proper : All IsProper c.counted_intervals
  pub counted_ends : All (EndsBy range_end) c.counted_intervals
  pub counted_raw : (t : ℕ) → covers t c.counted_intervals ≡ true → covers t c.raw_intervals ≡ true

module _ (entries : List WindowEntry) (incident : IncidentSubject) where
  -- An incident counts an instant that its interval holds and no window that applies to it does.
  pub covers-push_incident :
      (t : ℕ) (interval : Option ReliabilityInterval) (later : Collected)
      → covers t (push_incident entries incident interval later).counted_intervals ≡ (
          (opt_holds t interval && not (covers t (exclusions_for entries incident)))
          || covers t later.counted_intervals)
  unfolding push_incident
  covers-push_incident t none later = refl
  covers-push_incident t (some interval) later = ground (
    arith,
    any-append (holds t) (subtract_intervals interval (exclusions_for entries incident))
        later.counted_intervals,
    covers-subtract_intervals t interval (exclusions_for entries incident),
  )

  -- A raw interval more on the raw list, and some of it on the counted one.
  pub push_incident-IsAccounted :
      (range_start range_end : ℕ) (interval : Option ReliabilityInterval) (later : Collected)
      → OptWithin range_start range_end interval
      → IsAccounted range_start range_end later
      → IsAccounted range_start range_end (push_incident entries incident interval later)
  unfolding push_incident
  push_incident-IsAccounted rs re none later _ a = a
  push_incident-IsAccounted rs re (some interval) later w a = record {
    raw_proper = (w.proper, a.raw_proper);
    raw_starts = (w.starts, a.raw_starts);
    raw_ends = (w.ends, a.raw_ends);
    counted_proper =
        All-append IsProper (subtract_intervals interval (exclusions_for entries incident))
          later.counted_intervals
          (subtract_intervals-IsProper interval (exclusions_for entries incident) w.proper)
          a.counted_proper;
    counted_ends =
        All-append (EndsBy re) (subtract_intervals interval (exclusions_for entries incident))
          later.counted_intervals
          (subtract_intervals-EndsBy re interval (exclusions_for entries incident) w.ends)
          a.counted_ends;
    counted_raw = λ t h. pushed t h;
  }
    where
      pushed :
          (t : ℕ)
          → covers t (
              subtract_intervals interval (exclusions_for entries incident)
              ++ later.counted_intervals)
            ≡ true
          → covers t (interval ∷ later.raw_intervals) ≡ true
      pushed t h = ground (
        arith,
        any-append (holds t) (subtract_intervals interval (exclusions_for entries incident))
            later.counted_intervals,
        covers-subtract_intervals t interval (exclusions_for entries incident),
        a.counted_raw t,
      )

module _ ⦃runtime : Runtime⦄ (entries : List WindowEntry) (range_start range_end : ℕ) where
  push_active-IsAccounted :
      (incident : IncidentSubject) (started_at : Option String) (later : Collected)
      → IsAccounted range_start range_end later
      → IsAccounted range_start range_end
          (push_active entries range_start range_end incident started_at later)
  unfolding push_active
  push_active-IsAccounted incident none later a = record {
    raw_proper = a.raw_proper;
    raw_starts = a.raw_starts;
    raw_ends = a.raw_ends;
    counted_proper = a.counted_proper;
    counted_ends = a.counted_ends;
    counted_raw = a.counted_raw;
  }
  push_active-IsAccounted incident (some started_at) later a =
      push_incident-IsAccounted entries incident range_start range_end _ later
        (open_interval-OptWithin started_at range_start range_end) a

  collect_active-IsAccounted :
      (active : List ActiveIncident)
      → IsAccounted range_start range_end (collect_active entries range_start range_end active)
  unfolding collect_active
  collect_active-IsAccounted [] = record {
    raw_proper = tt;
    raw_starts = tt;
    raw_ends = tt;
    counted_proper = tt;
    counted_ends = tt;
    counted_raw = λ t h. h;
  }
  collect_active-IsAccounted (incident ∷ rest) =
      push_active-IsAccounted incident.subject (exact_started_at incident) _
        (collect_active-IsAccounted rest)

  collect_recovered-IsAccounted :
      (recovered : List RecoveredIncident) (later : Collected)
      → IsAccounted range_start range_end later
      → IsAccounted range_start range_end
          (collect_recovered entries range_start range_end recovered later)
  unfolding collect_recovered
  collect_recovered-IsAccounted [] later a = a
  collect_recovered-IsAccounted (incident ∷ rest) later a =
      push_incident-IsAccounted entries incident.subject range_start range_end _ _
        (clip_interval-OptWithin incident.started_at incident.recovered_at range_start range_end)
        (collect_recovered-IsAccounted rest later a)

  pub collect-IsAccounted :
      (active : List ActiveIncident) (recovered : List RecoveredIncident)
      → IsAccounted range_start range_end (collect entries range_start range_end active recovered)
  unfolding collect
  collect-IsAccounted active recovered =
      collect_recovered-IsAccounted recovered _ (collect_active-IsAccounted active)

  -- A recovered incident counts the instant.
  abbrev pub recovered_counts : ℕ → RecoveredIncident → Bool
  recovered_counts t incident =
      opt_holds t (clip_interval incident.started_at incident.recovered_at range_start range_end)
      && not (covers t (exclusions_for entries incident.subject))

  abbrev pub started_counts : ℕ → IncidentSubject → Option String → Bool
  started_counts t incident none = false
  started_counts t incident (some started_at) =
      opt_holds t (open_interval started_at range_start range_end)
      && not (covers t (exclusions_for entries incident))

  -- An active incident with an exact start counts the instant.
  abbrev pub active_counts : ℕ → ActiveIncident → Bool
  active_counts t incident = started_counts t incident.subject (exact_started_at incident)

  covers-push_active :
      (t : ℕ) (incident : IncidentSubject) (started_at : Option String) (later : Collected)
      → covers t
          (push_active entries range_start range_end incident started_at later).counted_intervals
        ≡ (started_counts t incident started_at || covers t later.counted_intervals)
  unfolding push_active
  covers-push_active t incident none later = refl
  covers-push_active t incident (some started_at) later =
      covers-push_incident entries incident t _ later

  covers-collect_active :
      (t : ℕ) (active : List ActiveIncident)
      → covers t (collect_active entries range_start range_end active).counted_intervals
        ≡ any (active_counts t) active
  unfolding collect_active
  covers-collect_active t [] = refl
  covers-collect_active t (incident ∷ rest) =
      covers-push_active t incident.subject (exact_started_at incident)
        (collect_active entries range_start range_end rest)
      ∙ ap (λ b. active_counts t incident || b) (covers-collect_active t rest)

  covers-collect_recovered :
      (t : ℕ) (recovered : List RecoveredIncident) (later : Collected)
      → covers t (collect_recovered entries range_start range_end recovered later).counted_intervals
        ≡ (any (recovered_counts t) recovered || covers t later.counted_intervals)
  unfolding collect_recovered
  covers-collect_recovered t [] later = refl
  covers-collect_recovered t (incident ∷ rest) later =
      covers-push_incident entries incident.subject t _
        (collect_recovered entries range_start range_end rest later)
      ∙ ground (arith, covers-collect_recovered t rest later)

  -- An instant is counted exactly when an incident counts it.
  pub covers-collect :
      (t : ℕ) (active : List ActiveIncident) (recovered : List RecoveredIncident)
      → covers t (collect entries range_start range_end active recovered).counted_intervals
        ≡ (any (recovered_counts t) recovered || any (active_counts t) active)
  unfolding collect
  covers-collect t active recovered =
      covers-collect_recovered t recovered (collect_active entries range_start range_end active)
      ∙ ap (λ b. any (recovered_counts t) recovered || b) (covers-collect_active t active)
