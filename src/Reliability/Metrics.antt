-- ===== src/Reliability/Metrics.antt =====
-- apps/web/lib/reliability-metrics.ts
pub mod Bounds
use ivrm_dashboard.Prelude.{
  ℕ, suc, ◌+◌, ◌-◌, ◌/◌, ◌%◌, Bool, true, false, not, ◌||◌, List, [], ◌∷◌, Option, none, some,
  String, Runtime, leb, ◌==◌, if◌then◌else◌, length, sort_by, truthy, concat,
}
use ivrm_dashboard.Incident.{
  IncidentSubject, ActiveIncident, RecoveredIncident, IncidentEntityType, BackupType, host,
  container, backup, world, config, permissions, full,
}
use ivrm_dashboard.Reliability.Intervals.{ReliabilityInterval, clip_instants, union_seconds}

-- `sorted[i]`
abbrev pub get_elem? {ℓ} : {A : Type ℓ} → List A → ℕ → Option A
get_elem? [] i = none
get_elem? (x ∷ xs) ℕ.zero = some x
get_elem? (x ∷ xs) (suc i) = get_elem? xs i

-- `Math.floor((left + right) / 2)`, or null where one is missing.
abbrev middle_of : Option ℕ → Option ℕ → Option ℕ
middle_of (some left) (some right) = some ((left + right) / 2)
middle_of _ _ = none

median_sorted : List ℕ → Option ℕ
median_sorted [] = none
median_sorted (x ∷ xs) =
    let sorted = x ∷ xs in
    let middle = length sorted / 2 in
    if length sorted % 2 == 1
    then get_elem? sorted middle
    else middle_of (get_elem? sorted (middle - 1)) (get_elem? sorted middle)

-- `median`
unfoldable pub median : List ℕ → Option ℕ
unfolding median_sorted
median values = median_sorted (sort_by leb values)

module _ ⦃runtime : Runtime⦄ where
  -- `clipInterval`
  unfoldable pub clip_interval : String → String → ℕ → ℕ → Option ReliabilityInterval
  unfolding clip_instants
  clip_interval started_at ended_at range_start range_end =
      clip_instants (runtime.parse started_at) (runtime.parse ended_at) range_start range_end

  -- An active incident lasts to the range's end.
  unfoldable pub open_interval : String → ℕ → ℕ → Option ReliabilityInterval
  unfolding clip_interval
  open_interval started_at range_start range_end =
      clip_interval started_at (runtime.to_iso_string range_end) range_start range_end

  abbrev push : Option ReliabilityInterval → List ReliabilityInterval → List ReliabilityInterval
  push none intervals = intervals
  push (some interval) intervals = interval ∷ intervals

  -- The first loop of `collectKnownDowntime`, before the intervals of the second.
  unfoldable pub recovered_intervals :
      ℕ → ℕ → List RecoveredIncident → List ReliabilityInterval → List ReliabilityInterval
  recovered_intervals range_start range_end [] later = later
  recovered_intervals range_start range_end (incident ∷ rest) later =
      push (clip_interval incident.started_at incident.recovered_at range_start range_end)
        (recovered_intervals range_start range_end rest later)

  -- `incident.exactStart && incident.startedAt`
  abbrev pub exact_started_at : ActiveIncident → Option String
  exact_started_at incident = if incident.exact_start then truthy incident.started_at else none

  -- The second loop: an incident with no exact start is skipped, and coverage is then not exact.
  abbrev push_active :
      ℕ → ℕ → Option String → List ReliabilityInterval × Bool → List ReliabilityInterval × Bool
  push_active range_start range_end none (intervals, exact_coverage) = (intervals, false)
  push_active range_start range_end (some started_at) (intervals, exact_coverage) =
      (push (open_interval started_at range_start range_end) intervals, exact_coverage)

  unfoldable pub active_intervals : ℕ → ℕ → List ActiveIncident → List ReliabilityInterval × Bool
  active_intervals range_start range_end [] = ([], true)
  active_intervals range_start range_end (incident ∷ rest) =
      push_active range_start range_end (exact_started_at incident)
        (active_intervals range_start range_end rest)

  -- `collectKnownDowntime`
  unfoldable pub collect_known_downtime :
      List ActiveIncident
      → List RecoveredIncident
      → ℕ
      → ℕ
      → record { seconds : ℕ; exact_coverage : Bool }
  unfolding recovered_intervals active_intervals
  collect_known_downtime active recovered range_start range_end =
      let (intervals, exact) = active_intervals range_start range_end active in
      record {
        seconds = union_seconds (recovered_intervals range_start range_end recovered intervals);
        exact_coverage = exact;
      }
