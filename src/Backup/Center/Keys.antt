-- ===== src/Backup/Center/Keys.antt =====
-- The set of keys that `unifiedSummary` of apps/web/lib/unified-incidents.ts counts as affected entities.
use ivrm_dashboard.Prelude.{
  Bool, false, ◌||◌, List, [], ◌∷◌, ◌++◌, map, String, any, All, All-append, str_eq, eq_iff,
  Ordered, ◌≡◌, refl, ap, ◌∙◌, inl, inr, arith,
}
use ivrm_dashboard.Prelude.Tests.{Bool-cases}
use ivrm_dashboard.Incident.{IncidentSubject, ActiveIncident, RecoveredIncident}
use ivrm_dashboard.Incident.Center.{add_key}
use ivrm_dashboard.Backup.Center.{subject_key, subject_keys}

-- Each key differs from every later one.
abbrev pub Distinct : List String → Type 0
Distinct keys = Ordered (λ earlier later. str_eq later earlier ≡ false) keys

-- The keys are distinct, and are those of the incidents.
abbrev pub IsKeySet : List String → List ActiveIncident → List RecoveredIncident → Type 0
IsKeySet keys active recovered =
    Distinct keys
    × ((key : String)
        → any (str_eq key) keys ≡ (
            any (λ incident. str_eq key (subject_key incident.subject)) active
            || any (λ incident. str_eq key (subject_key incident.subject)) recovered))

pub any-map {ℓ κ} :
    {A : Type ℓ} {B : Type κ} (p : B → Bool) (f : A → B) (xs : List A)
    → any p (map f xs) ≡ any (λ x. p (f x)) xs
any-map p f [] = refl
any-map p f (x ∷ xs) = rw (any-map p f xs)

any-append_key :
    (key other : String) (keys : List String)
    → any (str_eq key) (keys ++ other ∷ []) ≡ (any (str_eq key) keys || str_eq key other)
any-append_key key other [] = ground arith
any-append_key key other (k ∷ keys) = ground (arith, any-append_key key other keys)

any-add_key :
    (key other : String) (keys : List String)
    → any (str_eq key) (add_key other keys) ≡ (any (str_eq key) keys || str_eq key other)
any-add_key key other keys = elim (Bool-cases (any (str_eq other) keys)) [
  | inr e ↦ rw e (any-append_key key other keys)
  | inl e ↦ rw e (elim (Bool-cases (str_eq key other)) [
    | inr d ↦ ground (arith, d)
    | inl s ↦
        let held = ap (λ k. any (str_eq k) keys) ((eq_iff key other).0 s) ∙ e in
        ground (arith, held)
  ])
]

absent-All :
    (key : String) (keys : List String)
    → any (str_eq key) keys ≡ false
    → All (λ k. str_eq key k ≡ false) keys
absent-All key [] h = tt
absent-All key (k ∷ keys) h = (ground arith, absent-All key keys (ground arith))

Ordered-append_one {ℓ κ} :
    {A : Type ℓ} (R : A → A → Type κ) (xs : List A) (x : A)
    → Ordered R xs
    → All (λ y. R y x) xs
    → Ordered R (xs ++ x ∷ [])
Ordered-append_one R [] x _ _ = (tt, tt)
Ordered-append_one R (y ∷ ys) x (o, os) (r, rs) =
    (All-append (R y) ys (x ∷ []) o (r, tt), Ordered-append_one R ys x os rs)

add_key-Distinct : (key : String) (keys : List String) → Distinct keys → Distinct (add_key key keys)
add_key-Distinct key keys d = elim (Bool-cases (any (str_eq key) keys)) [
  | inl e ↦ rw e d
  | inr e ↦ rw e (Ordered-append_one _ keys key d (absent-All key keys e))
]

pub subject_keys-Distinct :
    (keys : List String) (subjects : List IncidentSubject)
    → Distinct keys
    → Distinct (subject_keys keys subjects)
unfolding subject_keys
subject_keys-Distinct keys [] d = d
subject_keys-Distinct keys (subject ∷ rest) d =
    let key = subject_key subject in
    subject_keys-Distinct (add_key key keys) rest (add_key-Distinct key keys d)

pub any-subject_keys :
    (key : String) (keys : List String) (subjects : List IncidentSubject)
    → any (str_eq key) (subject_keys keys subjects)
      ≡ (any (str_eq key) keys || any (λ subject. str_eq key (subject_key subject)) subjects)
unfolding subject_keys
any-subject_keys key keys [] = ground arith
any-subject_keys key keys (subject ∷ rest) =
    let other = subject_key subject in
    any-subject_keys key (add_key other keys) rest ∙ ground (arith, any-add_key key other keys)
