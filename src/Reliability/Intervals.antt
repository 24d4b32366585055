-- ===== src/Reliability/Intervals.antt =====
-- The interval arithmetic of apps/web/lib/reliability-metrics.ts and
-- apps/web/lib/reliability-maintenance-metrics.ts. An instant is a native number of milliseconds,
-- counted from the earliest instant that a JavaScript Date holds; the code only compares instants
-- and subtracts an earlier one from a later one.
pub mod Coverage
pub mod Union
pub mod Subtract
use ivrm_dashboard.Prelude.{
  ℕ, ◌+◌, ◌-◌, ◌/◌, min, max, Bool, ◌&&◌, ◌||◌, List, [], ◌∷◌, ◌++◌, map, Option, none, some, ltb,
  leb, ◌==◌, if◌then◌else◌, filter, sort_by,
}

pub record ReliabilityInterval : Type 0 where
  pub start : ℕ
  pub end : ℕ

-- `end > start`, the test with which every interval is made.
abbrev pub is_proper : ReliabilityInterval → Bool
is_proper interval = ltb interval.start interval.end

-- The comparator `a.start - b.start || a.end - b.end` is at most 0.
abbrev pub starts_first : ReliabilityInterval → ReliabilityInterval → Bool
starts_first a b = ltb a.start b.start || (a.start == b.start && leb a.end b.end)

-- The clipping of `clipInterval` and of `effectiveWindowInterval`, on the results of `Date.parse`
-- (`none` is NaN, which `Math.max` and `Math.min` pass on and `Number.isFinite` refuses).
unfoldable pub clip_instants : Option ℕ → Option ℕ → ℕ → ℕ → Option ReliabilityInterval
clip_instants (some started) (some ended) range_start range_end =
    let clipped : ReliabilityInterval = record {
      start = max started range_start;
      end = min ended range_end;
    } in
    if is_proper clipped then some clipped else none
clip_instants _ _ range_start range_end = none

-- The loop of `unionSeconds`. For proper intervals no difference is negative.
pub union_from : ReliabilityInterval → ℕ → List ReliabilityInterval → ℕ
union_from current milliseconds [] = milliseconds + (current.end - current.start)
union_from current milliseconds (interval ∷ rest) =
    union_from
      (if leb interval.start current.end
        then record { start = current.start; end = max current.end interval.end }
        else interval)
      (if leb interval.start current.end
        then milliseconds
        else milliseconds + (current.end - current.start))
      rest

pub union_sorted : List ReliabilityInterval → ℕ
unfolding union_from
union_sorted [] = 0
union_sorted (first ∷ rest) = union_from first 0 rest

-- `unionSeconds`
unfoldable pub union_seconds : List ReliabilityInterval → ℕ
unfolding union_sorted
union_seconds intervals = union_sorted (sort_by starts_first intervals) / 1000

-- The part of an exclusion that lies in the source.
abbrev pub clip_to : ReliabilityInterval → ReliabilityInterval → ReliabilityInterval
clip_to source exclusion = record {
  start = max source.start exclusion.start;
  end = min source.end exclusion.end;
}

-- The loop of `subtractIntervals` from the cursor on, and the push after it.
pub subtract_from : ReliabilityInterval → ℕ → List ReliabilityInterval → List ReliabilityInterval
subtract_from source cursor [] =
    if ltb cursor source.end then record { start = cursor; end = source.end } ∷ [] else []
subtract_from source cursor (exclusion ∷ rest) =
    let moved = max cursor exclusion.end in
    let skipped = subtract_from source cursor rest in
    let following = subtract_from source moved rest in
    let left_over : List ReliabilityInterval = if leb source.end moved then [] else following in
    if leb exclusion.end cursor
    then skipped
    else if ltb cursor exclusion.start
    then record { start = cursor; end = min exclusion.start source.end } ∷ left_over
    else left_over

pub subtract_clipped : ReliabilityInterval → List ReliabilityInterval → List ReliabilityInterval
unfolding subtract_from
subtract_clipped source [] = source ∷ []
subtract_clipped source (exclusion ∷ rest) =
    filter is_proper (subtract_from source source.start (exclusion ∷ rest))

-- `subtractIntervals`
unfoldable pub subtract_intervals :
    ReliabilityInterval → List ReliabilityInterval → List ReliabilityInterval
unfolding subtract_clipped
subtract_intervals source exclusions =
    subtract_clipped source
      (sort_by starts_first (filter is_proper (map (clip_to source) exclusions)))
