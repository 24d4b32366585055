-- ===== src/Reliability/Intervals/Coverage.antt =====
-- What a list of intervals covers, and how many instants a Boolean test covers below a bound.
use ivrm_dashboard.Prelude.{
  ℕ, zero, suc, ◌+◌, ◌-◌, ◌≤◌, ◌<◌, ◌≡◌, refl, Bool, true, false, ◌&&◌, ◌||◌, List, [], ◌∷◌, inl,
  inr, arith, ltb, leb, if◌then◌else◌, any, All, sort_by, insert_by, Bool-cases,
}
use ivrm_dashboard.Reliability.Intervals.{ReliabilityInterval, starts_first}

-- The half-open interval [start, end) holds the instant.
abbrev pub holds : ℕ → ReliabilityInterval → Bool
holds t interval = leb interval.start t && ltb t interval.end

-- Some interval of the list holds the instant.
abbrev pub covers : ℕ → List ReliabilityInterval → Bool
covers t intervals = any (holds t) intervals

-- How many instants below the bound pass the test.
pub count_below : ℕ → (ℕ → Bool) → ℕ
count_below zero p = 0
count_below (suc n) p = (if p n then 1 else 0) + count_below n p

abbrev pub IsProper : ReliabilityInterval → Type 0
IsProper interval = interval.start < interval.end

abbrev pub EndsBy : ℕ → ReliabilityInterval → Type 0
EndsBy bound interval = interval.end ≤ bound

abbrev pub StartsFrom : ℕ → ReliabilityInterval → Type 0
StartsFrom bound interval = bound ≤ interval.start

-- The starts rise along the list.
abbrev pub IsSorted : List ReliabilityInterval → Type 0
IsSorted [] = Unit
IsSorted (x ∷ xs) = All (StartsFrom x.start) xs × IsSorted xs

pub StartsFrom-mono :
    (m n : ℕ) (xs : List ReliabilityInterval)
    → m ≤ n
    → All (StartsFrom n) xs
    → All (StartsFrom m) xs
StartsFrom-mono m n [] h _ = tt
StartsFrom-mono m n (x ∷ xs) h (k, ks) = (omega arith, StartsFrom-mono m n xs h ks)

insert_by-StartsFrom :
    (n : ℕ) (x : ReliabilityInterval) (xs : List ReliabilityInterval)
    → n ≤ x.start
    → All (StartsFrom n) xs
    → All (StartsFrom n) (insert_by starts_first x xs)
insert_by-StartsFrom n x [] h _ = (h, tt)
insert_by-StartsFrom n x (y ∷ ys) h (k, ks) = ground (arith, insert_by-StartsFrom n x ys h ks)

insert_by-IsSorted :
    (x : ReliabilityInterval) (xs : List ReliabilityInterval)
    → IsSorted xs
    → IsSorted (insert_by starts_first x xs)
insert_by-IsSorted x [] _ = (tt, tt)
insert_by-IsSorted x (y ∷ ys) (k, s) = elim (Bool-cases (starts_first x y)) [
  | inl e ↦ rw e ((ground arith, StartsFrom-mono x.start y.start ys (ground arith) k), (k, s))
  | inr e ↦ rw e (insert_by-StartsFrom y.start x ys (ground arith) k, insert_by-IsSorted x ys s)
]

pub sort_by-IsSorted : (xs : List ReliabilityInterval) → IsSorted (sort_by starts_first xs)
sort_by-IsSorted [] = tt
sort_by-IsSorted (x ∷ xs) = insert_by-IsSorted x (sort_by starts_first xs) (sort_by-IsSorted xs)

-- Nothing is covered before the first start.
pub covers_before :
    (t n : ℕ) (xs : List ReliabilityInterval) → All (StartsFrom n) xs → t < n → covers t xs ≡ false
covers_before t n [] _ h = refl
covers_before t n (x ∷ xs) (k, ks) h = ground (arith, covers_before t n xs ks h)

pub count_below-congr :
    (n : ℕ) (p q : ℕ → Bool) → ((t : ℕ) → p t ≡ q t) → count_below n p ≡ count_below n q
unfolding count_below
count_below-congr zero p q h = refl
count_below-congr (suc n) p q h = ground (arith, h n, count_below-congr n p q h)

pub count_below_mono :
    (n : ℕ) (p q : ℕ → Bool)
    → ((t : ℕ) → p t ≡ true → q t ≡ true)
    → count_below n p ≤ count_below n q
unfolding count_below
count_below_mono zero p q h = omega arith
count_below_mono (suc n) p q h = ground (arith, h n, count_below_mono n p q h)

pub count_below-or :
    (n : ℕ) (p q : ℕ → Bool)
    → ((t : ℕ) → (p t && q t) ≡ false)
    → count_below n (λ t. p t || q t) ≡ count_below n p + count_below n q
unfolding count_below
count_below-or zero p q h = refl
count_below-or (suc n) p q h = ground (arith, h n, count_below-or n p q h)

pub count_below-le : (n : ℕ) (p : ℕ → Bool) → count_below n p ≤ n
unfolding count_below
count_below-le zero p = omega arith
count_below-le (suc n) p = ground (arith, count_below-le n p)

pub count_below-false : (n : ℕ) → count_below n (λ t. false) ≡ 0
unfolding count_below
count_below-false zero = refl
count_below-false (suc n) = omega (arith, count_below-false n)

count_below-below : (n s e : ℕ) → n ≤ s → count_below n (λ t. leb s t && ltb t e) ≡ 0
unfolding count_below
count_below-below zero s e h = refl
count_below-below (suc n) s e h = ground (arith, count_below-below n s e)

count_below-inside : (n s e : ℕ) → s ≤ n → n ≤ e → count_below n (λ t. leb s t && ltb t e) ≡ n - s
unfolding count_below
count_below-inside zero s e h k = omega arith
count_below-inside (suc n) s e h k =
    ground (arith, count_below-inside n s e, count_below-below n s e)

-- An interval that ends by the bound holds `end - start` instants.
pub count_below-holds :
    (n s e : ℕ) → s ≤ e → e ≤ n → count_below n (λ t. leb s t && ltb t e) ≡ e - s
unfolding count_below
count_below-holds zero s e h k = omega arith
count_below-holds (suc n) s e h k = elim (Bool-cases (leb e n)) [
  | inl fits ↦ ground (arith, count_below-holds n s e)
  | inr last ↦ ground (arith, count_below-inside n s e, count_below-below n s e)
]

-- A test that fails below a start passes at most `n - start` times.
pub count_below_from :
    (n m : ℕ) (p : ℕ → Bool) → ((t : ℕ) → t < m → p t ≡ false) → count_below n p ≤ n - m
unfolding count_below
count_below_from zero m p h = omega arith
count_below_from (suc n) m p h = ground (arith, count_below_from n m p h, h n)
