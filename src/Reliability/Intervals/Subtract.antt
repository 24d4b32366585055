-- ===== src/Reliability/Intervals/Subtract.antt =====
-- `subtractIntervals` covers what the source covers and no exclusion does.
use ivrm_dashboard.Prelude.{
  ℕ, ◌≤◌, max, ◌≡◌, refl, ◌∙◌, not, ◌&&◌, List, [], ◌∷◌, inl, inr, arith, leb, ltb, map, filter,
  All, All-filter, any-sort_by, sort_by, Bool-cases,
}
use ivrm_dashboard.Reliability.Intervals.{
  ReliabilityInterval, is_proper, starts_first, clip_to, subtract_from, subtract_clipped,
  subtract_intervals,
}
use ivrm_dashboard.Reliability.Intervals.Coverage.{
  holds, covers, IsProper, EndsBy, IsSorted, sort_by-IsSorted, covers_before,
}

-- The loop from a cursor on keeps the instants from the cursor to the source's end that no later
-- exclusion holds.
covers-subtract_from :
    (t cursor : ℕ) (source : ReliabilityInterval) (xs : List ReliabilityInterval)
    → IsSorted xs
    → covers t (subtract_from source cursor xs)
      ≡ (leb cursor t && ltb t source.end && not (covers t xs))
unfolding subtract_from
covers-subtract_from t cursor source [] _ = ground arith
covers-subtract_from t cursor source (x ∷ xs) (k, s) = elim (Bool-cases (ltb t x.start)) [
  | inl before ↦ ground (
    arith,
    covers_before t x.start xs k,
    covers-subtract_from t cursor source xs s,
    covers-subtract_from t (max cursor x.end) source xs s,
  )
  | inr after ↦ ground (
    arith,
    covers-subtract_from t cursor source xs s,
    covers-subtract_from t (max cursor x.end) source xs s,
  )
]

-- Dropping empty intervals changes no coverage.
covers-filter_proper :
    (t : ℕ) (xs : List ReliabilityInterval) → covers t (filter is_proper xs) ≡ covers t xs
covers-filter_proper t [] = refl
covers-filter_proper t (x ∷ xs) = ground (arith, covers-filter_proper t xs)

covers-clip_to :
    (t : ℕ) (source : ReliabilityInterval) (xs : List ReliabilityInterval)
    → covers t (map (clip_to source) xs) ≡ (holds t source && covers t xs)
covers-clip_to t source [] = ground arith
covers-clip_to t source (x ∷ xs) = ground (arith, covers-clip_to t source xs)

covers-subtract_clipped :
    (t : ℕ) (source : ReliabilityInterval) (xs : List ReliabilityInterval)
    → IsSorted xs
    → covers t (subtract_clipped source xs) ≡ (holds t source && not (covers t xs))
unfolding subtract_clipped
covers-subtract_clipped t source [] _ = ground arith
covers-subtract_clipped t source (x ∷ xs) s =
    covers-filter_proper t (subtract_from source source.start (x ∷ xs))
    ∙ covers-subtract_from t source.start source (x ∷ xs) s
    ∙ ground arith

-- An instant is left by `subtractIntervals` exactly when the source holds it and no exclusion does.
pub covers-subtract_intervals :
    (t : ℕ) (source : ReliabilityInterval) (exclusions : List ReliabilityInterval)
    → covers t (subtract_intervals source exclusions)
      ≡ (holds t source && not (covers t exclusions))
unfolding subtract_intervals
covers-subtract_intervals t source xs =
    covers-subtract_clipped t source
      (sort_by starts_first (filter is_proper (map (clip_to source) xs)))
      (sort_by-IsSorted (filter is_proper (map (clip_to source) xs)))
    ∙ ground (
      arith,
      any-sort_by starts_first (holds t) (filter is_proper (map (clip_to source) xs)),
      covers-filter_proper t (map (clip_to source) xs),
      covers-clip_to t source xs,
    )

filter-IsProper : (xs : List ReliabilityInterval) → All IsProper (filter is_proper xs)
filter-IsProper [] = tt
filter-IsProper (x ∷ xs) = ground (arith, filter-IsProper xs)

subtract_clipped-IsProper :
    (source : ReliabilityInterval) (xs : List ReliabilityInterval)
    → IsProper source
    → All IsProper (subtract_clipped source xs)
unfolding subtract_clipped
subtract_clipped-IsProper source [] h = (h, tt)
subtract_clipped-IsProper source (x ∷ xs) h =
    filter-IsProper (subtract_from source source.start (x ∷ xs))

-- The pieces of a proper source are proper.
pub subtract_intervals-IsProper :
    (source : ReliabilityInterval) (exclusions : List ReliabilityInterval)
    → IsProper source
    → All IsProper (subtract_intervals source exclusions)
unfolding subtract_intervals
subtract_intervals-IsProper source xs h = subtract_clipped-IsProper source _ h

subtract_from-EndsBy :
    (cursor : ℕ) (source : ReliabilityInterval) (xs : List ReliabilityInterval)
    → All (EndsBy source.end) (subtract_from source cursor xs)
unfolding subtract_from
subtract_from-EndsBy cursor source [] = ground arith
subtract_from-EndsBy cursor source (x ∷ xs) = ground (
  arith,
  subtract_from-EndsBy cursor source xs,
  subtract_from-EndsBy (max cursor x.end) source xs,
)

subtract_clipped-EndsBy :
    (source : ReliabilityInterval) (xs : List ReliabilityInterval)
    → All (EndsBy source.end) (subtract_clipped source xs)
unfolding subtract_clipped
subtract_clipped-EndsBy source [] = (omega arith, tt)
subtract_clipped-EndsBy source (x ∷ xs) =
    All-filter (EndsBy source.end) is_proper (subtract_from source source.start (x ∷ xs))
      (subtract_from-EndsBy source.start source (x ∷ xs))

EndsBy-mono :
    (m n : ℕ) (xs : List ReliabilityInterval) → m ≤ n → All (EndsBy m) xs → All (EndsBy n) xs
EndsBy-mono m n [] h _ = tt
EndsBy-mono m n (x ∷ xs) h (k, ks) = (omega arith, EndsBy-mono m n xs h ks)

-- The pieces end where the source may.
pub subtract_intervals-EndsBy :
    (bound : ℕ) (source : ReliabilityInterval) (exclusions : List ReliabilityInterval)
    → EndsBy bound source
    → All (EndsBy bound) (subtract_intervals source exclusions)
unfolding subtract_intervals
subtract_intervals-EndsBy bound source xs h =
    EndsBy-mono source.end bound _ h (subtract_clipped-EndsBy source _)
