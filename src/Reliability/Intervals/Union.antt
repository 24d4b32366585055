-- ===== src/Reliability/Intervals/Union.antt =====
-- `unionSeconds` measures the union of its intervals.
use ivrm_dashboard.Prelude.{
  ℕ, ◌+◌, ◌-◌, ◌/◌, ◌≤◌, max, ◌≡◌, sym, ◌∙◌, ap, Bool, true, false, ◌&&◌, ◌||◌, List, [], ◌∷◌, inl,
  inr, arith, leb, ltb, All, All-sort_by, any-sort_by, sort_by, Bool-cases,
}
use ivrm_dashboard.Reliability.Intervals.{
  ReliabilityInterval, starts_first, union_from, union_sorted, union_seconds,
}
use ivrm_dashboard.Reliability.Intervals.Coverage.{
  holds, covers, count_below, IsProper, EndsBy, StartsFrom, IsSorted, sort_by-IsSorted,
  covers_before, count_below-congr, count_below_mono, count_below-or, count_below-false,
  count_below-holds,
}

-- Two intervals that meet are covered by the interval that the loop joins them to.
holds_joined :
    (t : ℕ) (x y : ReliabilityInterval)
    → x.start ≤ y.start
    → y.start ≤ x.end
    → holds t (record { start = x.start; end = max x.end y.end }) ≡ (holds t x || holds t y)
holds_joined t x y h k = ground arith

covers_joined :
    (t : ℕ) (x y : ReliabilityInterval) (rest : List ReliabilityInterval)
    → x.start ≤ y.start
    → y.start ≤ x.end
    → covers t (record { start = x.start; end = max x.end y.end } ∷ rest) ≡ covers t (x ∷ y ∷ rest)
covers_joined t x y rest h k = ground (arith, holds_joined t x y h k)

-- Two lists apart: no instant lies in the first interval and in the later ones.
apart :
    (t : ℕ) (x y : ReliabilityInterval) (rest : List ReliabilityInterval)
    → x.end ≤ y.start
    → All (StartsFrom y.start) rest
    → (holds t x && covers t (y ∷ rest)) ≡ false
apart t x y rest h k = elim (Bool-cases (ltb t y.start)) [
  | inl e ↦ ground (arith, covers_before t y.start rest k)
  | inr e ↦ ground arith
]

module _ (bound : ℕ) where
  measure : List ReliabilityInterval → ℕ
  measure xs = count_below bound (λ t. covers t xs)

  measure-single :
      (x : ReliabilityInterval) → IsProper x → EndsBy bound x → measure (x ∷ []) ≡ x.end - x.start
  unfolding measure
  measure-single x h k =
      count_below-congr bound (λ t. covers t (x ∷ [])) (holds' x) (λ t. ground arith)
      ∙ count_below-holds bound x.start x.end (omega arith) k
    where
      holds' : ReliabilityInterval → ℕ → Bool
      holds' y t = leb y.start t && ltb t y.end

  measure_apart :
      (x y : ReliabilityInterval) (rest : List ReliabilityInterval)
      → IsProper x
      → EndsBy bound x
      → x.end ≤ y.start
      → All (StartsFrom y.start) rest
      → measure (x ∷ y ∷ rest) ≡ (x.end - x.start) + measure (y ∷ rest)
  unfolding measure
  measure_apart x y rest p e h k =
      count_below-or bound (λ t. holds t x) (λ t. covers t (y ∷ rest)) (λ t. apart t x y rest h k)
      ∙ ap (λ n. n + count_below bound (λ t. covers t (y ∷ rest)))
          (count_below-holds bound x.start x.end (omega arith) e)

  measure_joined :
      (x y : ReliabilityInterval) (rest : List ReliabilityInterval)
      → x.start ≤ y.start
      → y.start ≤ x.end
      → measure (record { start = x.start; end = max x.end y.end } ∷ rest) ≡ measure (x ∷ y ∷ rest)
  unfolding measure
  measure_joined x y rest h k = count_below-congr bound _ _ (λ t. covers_joined t x y rest h k)

  union_from-measure :
      (current : ReliabilityInterval) (milliseconds : ℕ) (rest : List ReliabilityInterval)
      → IsProper current
      → EndsBy bound current
      → All IsProper rest
      → All (EndsBy bound) rest
      → IsSorted (current ∷ rest)
      → union_from current milliseconds rest ≡ milliseconds + measure (current ∷ rest)
  unfolding union_from
  union_from-measure current ms [] p e _ _ _ = omega (arith, measure-single current p e)
  union_from-measure current ms (x ∷ rest) p e (q, qs) (d, ds) ((k, ks), (l, s)) =
      elim (Bool-cases (leb x.start current.end)) [
        | inl meets ↦ rw meets (
            union_from-measure (record { start = current.start; end = max current.end x.end }) ms
              rest (omega arith) (omega arith) qs ds (ks, s)
            ∙ ap (λ n. ms + n) (measure_joined current x rest k (ground arith)))
        | inr later ↦ rw later (
            union_from-measure x (ms + (current.end - current.start)) rest q d qs ds (l, s)
            ∙ omega (arith, measure_apart current x rest p e (ground arith) l))
      ]

  union_sorted-measure :
      (xs : List ReliabilityInterval)
      → All IsProper xs
      → All (EndsBy bound) xs
      → IsSorted xs
      → union_sorted xs ≡ measure xs
  unfolding union_sorted measure
  union_sorted-measure [] _ _ _ = sym (count_below-false bound)
  union_sorted-measure (x ∷ xs) (p, ps) (e, es) s =
      union_from-measure x 0 xs p e ps es s ∙ omega arith

  measure-sort_by : (xs : List ReliabilityInterval) → measure (sort_by starts_first xs) ≡ measure xs
  unfolding measure
  measure-sort_by xs = count_below-congr bound _ _ (λ t. any-sort_by starts_first (holds t) xs)

-- For proper intervals that end by a bound, `unionSeconds` is the number of milliseconds below the
-- bound that some interval holds, in whole seconds: overlaps are counted once.
pub union_seconds-eq-measure :
    (bound : ℕ) (intervals : List ReliabilityInterval)
    → All IsProper intervals
    → All (EndsBy bound) intervals
    → union_seconds intervals ≡ count_below bound (λ t. covers t intervals) / 1000
unfolding union_seconds measure
union_seconds-eq-measure bound xs p e =
    ap (λ n. n / 1000)
      (union_sorted-measure bound (sort_by starts_first xs) (All-sort_by starts_first IsProper xs p)
          (All-sort_by starts_first (EndsBy bound) xs e) (sort_by-IsSorted xs)
        ∙ measure-sort_by bound xs)

-- More coverage never gives fewer seconds.
pub union_seconds_mono :
    (bound : ℕ) (xs ys : List ReliabilityInterval)
    → All IsProper xs
    → All (EndsBy bound) xs
    → All IsProper ys
    → All (EndsBy bound) ys
    → ((t : ℕ) → covers t xs ≡ true → covers t ys ≡ true)
    → union_seconds xs ≤ union_seconds ys
union_seconds_mono bound xs ys p e q f h = omega (
  arith,
  union_seconds-eq-measure bound xs p e,
  union_seconds-eq-measure bound ys q f,
  count_below_mono bound (λ t. covers t xs) (λ t. covers t ys) h,
)
