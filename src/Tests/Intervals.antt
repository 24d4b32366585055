-- ===== src/Tests/Intervals.antt =====
-- Interval arithmetic on a few minutes.
use ivrm_dashboard.Prelude.{ℕ, ◌/◌, ◌≡◌, refl, List, [], ◌∷◌, not, ◌&&◌, arith}
use ivrm_dashboard.Reliability.Intervals.{ReliabilityInterval, union_seconds, subtract_intervals}
use ivrm_dashboard.Reliability.Intervals.Coverage.{holds, covers, count_below}
use ivrm_dashboard.Reliability.Intervals.Union.{union_seconds-eq-measure}
use ivrm_dashboard.Reliability.Intervals.Subtract.{covers-subtract_intervals}

abbrev span : ℕ → ℕ → ReliabilityInterval
span s e = record { start = s; end = e }

abbrev spans : List ReliabilityInterval
spans = span 5000 9000 ∷ span 1000 3000 ∷ span 2000 4000 ∷ []

spans_union : union_seconds spans ≡ 7
unfolding union_seconds
spans_union = refl

spans_subtract : subtract_intervals (span 0 8000) spans ≡ span 0 1000 ∷ span 4000 5000 ∷ []
unfolding subtract_intervals
spans_subtract = refl

union_seconds-eq-measure_example :
    union_seconds spans ≡ count_below 10000 (λ t. covers t spans) / 1000
union_seconds-eq-measure_example = union_seconds-eq-measure 10000 spans (omega arith) (omega arith)

covers-subtract_intervals_example :
    covers 4500 (subtract_intervals (span 0 8000) spans)
    ≡ (holds 4500 (span 0 8000) && not (covers 4500 spans))
covers-subtract_intervals_example = covers-subtract_intervals 4500 (span 0 8000) spans
