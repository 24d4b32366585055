-- ===== src/Reliability/Metrics/Bounds.antt =====
-- The interval of an incident lies in the range that it is clipped to.
use ivrm_dashboard.Prelude.{
  ℕ, ◌≤◌, ◌<◌, Bool, false, Option, none, some, String, Runtime, arith, ltb, ltb→lt, max, min,
  Bool-cases, inl, inr,
}
use ivrm_dashboard.Reliability.Intervals.{ReliabilityInterval, clip_instants}
use ivrm_dashboard.Reliability.Intervals.Coverage.{holds}
use ivrm_dashboard.Reliability.Metrics.{clip_interval, open_interval}

-- A proper interval between two instants.
pub record IsWithin (range_start range_end : ℕ) (interval : ReliabilityInterval) : Type 0 where
  pub proper : interval.start < interval.end
  pub starts : range_start ≤ interval.start
  pub ends : interval.end ≤ range_end

-- The interval, if there is one, holds the instant.
abbrev pub opt_holds : ℕ → Option ReliabilityInterval → Bool
opt_holds t none = false
opt_holds t (some interval) = holds t interval

abbrev pub OptWithin : ℕ → ℕ → Option ReliabilityInterval → Type 0
OptWithin range_start range_end none = Unit {0}
OptWithin range_start range_end (some interval) = IsWithin range_start range_end interval

clipped-OptWithin :
    (s e range_start range_end : ℕ)
    → OptWithin range_start range_end (clip_instants (some s) (some e) range_start range_end)
unfolding clip_instants
clipped-OptWithin s e range_start range_end =
    elim (Bool-cases (ltb (max s range_start) (min e range_end))) [
      | inl fits ↦
          rw fits (record { proper = ltb→lt _ _ fits; starts = omega arith; ends = omega arith })
      | inr empty ↦ rw empty tt
    ]

pub clip_instants-OptWithin :
    (started ended : Option ℕ) (range_start range_end : ℕ)
    → OptWithin range_start range_end (clip_instants started ended range_start range_end)
unfolding clip_instants
clip_instants-OptWithin (some s) (some e) rs re = clipped-OptWithin s e rs re
clip_instants-OptWithin _ _ rs re = tt

module _ ⦃runtime : Runtime⦄ where
  pub clip_interval-OptWithin :
      (started_at ended_at : String) (range_start range_end : ℕ)
      → OptWithin range_start range_end (clip_interval started_at ended_at range_start range_end)
  unfolding clip_interval
  clip_interval-OptWithin s e rs re =
      clip_instants-OptWithin (runtime.parse s) (runtime.parse e) rs re

  pub open_interval-OptWithin :
      (started_at : String) (range_start range_end : ℕ)
      → OptWithin range_start range_end (open_interval started_at range_start range_end)
  unfolding open_interval
  open_interval-OptWithin s rs re = clip_interval-OptWithin s (runtime.to_iso_string re) rs re
