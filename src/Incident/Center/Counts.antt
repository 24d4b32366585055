-- ===== src/Incident/Center/Counts.antt =====
-- The order of the active incidents, and their counts by severity.
use ivrm_dashboard.Prelude.{
  ◌+◌, Bool, true, false, ◌&&◌, ◌||◌, List, [], ◌∷◌, Runtime, all, filter, length, insert_by,
  sort_by, if◌then◌else◌, ltb, ◌==◌, ◌≡◌, refl, arith, inl, inr,
}
use ivrm_dashboard.Prelude.Tests.{Bool-cases}
use ivrm_dashboard.Incident.{
  IncidentSeverity, ActiveIncident, is_critical, is_warning, severity_rank,
}
use ivrm_dashboard.Incident.Active.Severity.{exclusive, warned}
use ivrm_dashboard.Incident.Center.{active_order}

-- No warning stands before a critical incident.
abbrev pub critical_first : List ActiveIncident → Bool
critical_first [] = true
critical_first (x ∷ xs) =
    let rest = critical_first xs in
    (is_critical x.severity || all (λ y. is_warning y.severity) xs) && rest

-- What the comparator says of two severities, whatever it says of two starts.
abbrev severity_order : IncidentSeverity → IncidentSeverity → Bool → Bool
severity_order left right by_start =
    if severity_rank left == severity_rank right
    then by_start
    else ltb (severity_rank right) (severity_rank left)

before-critical :
    (left right : IncidentSeverity) (by_start : Bool)
    → severity_order left right by_start ≡ true
    → (is_critical left || is_warning right) ≡ true
before-critical IncidentSeverity.critical right t h = refl
before-critical IncidentSeverity.warning IncidentSeverity.critical t h = cc
before-critical IncidentSeverity.warning IncidentSeverity.warning t h = refl

after-critical :
    (left right : IncidentSeverity) (by_start : Bool)
    → severity_order left right by_start ≡ false
    → (is_critical right || is_warning left) ≡ true
after-critical left IncidentSeverity.critical t h = refl
after-critical IncidentSeverity.critical IncidentSeverity.warning t h = cc
after-critical IncidentSeverity.warning IncidentSeverity.warning t h = refl

module _ ⦃runtime : Runtime⦄ where
  before :
      (x y : ActiveIncident) → active_order x y ≡ true → (is_critical x.severity || warned y) ≡ true
  unfolding active_order
  before x y h = before-critical x.severity y.severity _ h

  after :
      (x y : ActiveIncident)
      → active_order x y ≡ false
      → (is_critical y.severity || warned x) ≡ true
  unfolding active_order
  after x y h = after-critical x.severity y.severity _ h

  all-insert_by :
      (x : ActiveIncident) (xs : List ActiveIncident)
      → all warned (insert_by active_order x xs) ≡ (warned x && all warned xs)
  all-insert_by x [] = refl
  all-insert_by x (y ∷ ys) = ground (arith, all-insert_by x ys)

  critical_first-insert_by :
      (x : ActiveIncident) (xs : List ActiveIncident)
      → critical_first xs ≡ true
      → critical_first (insert_by active_order x xs) ≡ true
  critical_first-insert_by x [] h = ground (arith)
  critical_first-insert_by x (y ∷ ys) h = elim (Bool-cases (active_order x y)) [
    | inl e ↦ let b = before x y e in let q = exclusive y.severity in rw e (ground (arith))
    | inr e ↦
        let b = after x y e in
        rw e (ground (arith, all-insert_by x ys, critical_first-insert_by x ys))
  ]

  pub critical_first-sort_by :
      (xs : List ActiveIncident) → critical_first (sort_by active_order xs) ≡ true
  critical_first-sort_by [] = refl
  critical_first-sort_by (x ∷ xs) =
      critical_first-insert_by x (sort_by active_order xs) (critical_first-sort_by xs)

pub length-severities :
    (xs : List ActiveIncident)
    → length (filter (λ incident. is_critical incident.severity) xs)
        + length (filter (λ incident. is_warning incident.severity) xs)
      ≡ length xs
length-severities [] = refl
length-severities (x ∷ xs) = ground (arith, exclusive x.severity, length-severities xs)
