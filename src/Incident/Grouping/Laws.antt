-- ===== src/Incident/Grouping/Laws.antt =====
-- A group of events, against a filter of all events and their order in time.
use ivrm_dashboard.Prelude.{
  ℕ, ◌<◌, ◌≤◌, Bool, true, false, Option, none, some, List, [], ◌∷◌, ◌++◌, String, Runtime, str_eq,
  eq_iff, or_else, filter, sort_by, Perm, Perm-sort_by, Ordered, Ordered-sort_by, All, All-filter,
  if◌then◌else◌, ◌≡◌, refl, sym, ap, ◌∙◌, ◌⊎◌, inl, inr, arith,
}
use ivrm_dashboard.Prelude.Tests.{Bool-cases, compare_cases}
use ivrm_dashboard.Prelude.Bytes.{append_nil, append_assoc}
use ivrm_dashboard.Prelude.StringMap.{get, set, get-set}
use ivrm_dashboard.Incident.Events.{MonitoringEvent}
use ivrm_dashboard.Incident.Grouping.{
  in_order, group_from, sort_groups, event_by_entity, event_order, event_key,
}

-- The list under a key, empty where there is none.
abbrev pub group_of : {A : Type 0} → String → List (String × List A) → List A
group_of k grouped = or_else (get k grouped) []

group_of-push :
    {A : Type 0} (k j : String) (event : A) (grouped : List (String × List A)) (rest : List A)
    → group_of k (set j (group_of j grouped ++ event ∷ []) grouped) ++ rest
      ≡ group_of k grouped ++ (if str_eq j k then event ∷ rest else rest)
group_of-push k j event grouped rest = elim (Bool-cases (str_eq j k)) [
  | inl e ↦
      let g = get-set j k (group_of j grouped ++ event ∷ []) grouped in
      rw g (
        rw e (
          append_assoc (group_of j grouped) (event ∷ []) rest
          ∙ ap (λ t. group_of t grouped ++ event ∷ rest) ((eq_iff j k).0 e)))
  | inr e ↦ let g = get-set j k (group_of j grouped ++ event ∷ []) grouped in rw g (rw e refl)
]

group_of-group_from :
    {A : Type 0} (key : A → String) (k : String) (grouped : List (String × List A))
    (events : List A)
    → group_of k (group_from key grouped events)
      ≡ group_of k grouped ++ filter (λ event. str_eq (key event) k) events
unfolding group_from
group_of-group_from key k grouped [] = sym (append_nil (group_of k grouped))
group_of-group_from key k grouped (event ∷ rest) =
    group_of-group_from key k (set (key event) (group_of (key event) grouped ++ event ∷ []) grouped)
      rest
    ∙ group_of-push k (key event) event grouped (filter (λ other. str_eq (key other) k) rest)

group_of-sort_groups :
    {A : Type 0} (le : A → A → Bool) (k : String) (grouped : List (String × List A))
    → group_of k (sort_groups le grouped) ≡ sort_by le (group_of k grouped)
unfolding sort_groups
group_of-sort_groups le k [] = refl
group_of-sort_groups le k ((j, events) ∷ rest) = elim (Bool-cases (str_eq j k)) [
  | inl e ↦ rw e refl
  | inr e ↦ rw e (group_of-sort_groups le k rest)
]

abbrev pub is_dated : Option ℕ → Bool
is_dated none = false
is_dated (some instant) = true

-- The first instant is the earlier one, or the instants are the same and the first id is no larger.
abbrev pub Earlier : Option ℕ → Option ℕ → ℕ → ℕ → Type 0
Earlier (some a) (some b) left right = (a < b) ⊎ ((a ≡ b) × (left ≤ right))
Earlier _ _ left right = ⊥

Earlier-trans : (a b c : Option ℕ) (i j k : ℕ) → Earlier a b i j → Earlier b c j k → Earlier a c i k
Earlier-trans (some a) (some b) (some c) i j k (inl p) (inl q) = inl (omega arith)
Earlier-trans (some a) (some b) (some c) i j k (inl p) (inr (q, _)) = inl (omega arith)
Earlier-trans (some a) (some b) (some c) i j k (inr (p, _)) (inl q) = inl (omega arith)
Earlier-trans (some a) (some b) (some c) i j k (inr (p, r)) (inr (q, s)) =
    inr (omega arith, omega arith)
Earlier-trans none _ _ i j k p q = absurd p
Earlier-trans (some a) none _ i j k p q = absurd p
Earlier-trans (some a) (some b) none i j k p q = absurd q

before-Earlier :
    (a b : Option ℕ) (i j : ℕ)
    → is_dated a ≡ true
    → is_dated b ≡ true
    → in_order a b i j ≡ true
    → Earlier a b i j
before-Earlier none b i j h k e = absurd (cc)
before-Earlier (some a) none i j h k e = absurd (cc)
before-Earlier (some a) (some b) i j h k e = elim (compare_cases a b) [
  | inl l ↦ inl l
  | inr (inl same) ↦ inr (same, ground arith)
  | inr (inr g) ↦ absurd (ground arith)
]

after-Earlier :
    (a b : Option ℕ) (i j : ℕ)
    → is_dated a ≡ true
    → is_dated b ≡ true
    → in_order a b i j ≡ false
    → Earlier b a j i
after-Earlier none b i j h k e = absurd (cc)
after-Earlier (some a) none i j h k e = absurd (cc)
after-Earlier (some a) (some b) i j h k e = elim (compare_cases a b) [
  | inl l ↦ absurd (ground arith)
  | inr (inl same) ↦ inr (sym same, ground arith)
  | inr (inr g) ↦ inl g
]

module _ ⦃runtime : Runtime⦄ where
  -- The time of the event can be parsed.
  abbrev pub IsDated : MonitoringEvent → Type 0
  IsDated event = is_dated (runtime.parse event.occurred_at) ≡ true

  -- The first event is the earlier one, or has the same time and no larger id.
  abbrev pub Precedes : MonitoringEvent → MonitoringEvent → Type 0
  Precedes left right =
      Earlier (runtime.parse left.occurred_at) (runtime.parse right.occurred_at) left.id right.id

  sort_by-Ordered :
      (events : List MonitoringEvent)
      → All IsDated events
      → Ordered Precedes (sort_by event_order events)
  sort_by-Ordered events dated =
      Ordered-sort_by event_order IsDated Precedes (λ x y z. Earlier-trans _ _ _ x.id y.id z.id)
        (λ x y. before-Earlier _ _ x.id y.id) (λ x y. after-Earlier _ _ x.id y.id) events dated

  group_of-event_by_entity_eq :
      (k : String) (events : List MonitoringEvent)
      → group_of k (event_by_entity events)
        ≡ sort_by event_order (filter (λ event. str_eq (event_key event) k) events)
  unfolding event_by_entity
  group_of-event_by_entity_eq k events =
      group_of-sort_groups event_order k (group_from event_key [] events)
      ∙ ap (sort_by event_order) (group_of-group_from event_key k [] events)

  -- If the times of all events can be parsed, the group under the key of a container holds just the
  -- events with this key, each as often as it was given, and is in order of time and, at the same
  -- time, of id: each event precedes every later one.
  pub group_of-event_by_entity :
      (k : String) (events : List MonitoringEvent)
      → All IsDated events
      → let group = group_of k (event_by_entity events) in
        Perm group (filter (λ event. str_eq (event_key event) k) events) × Ordered Precedes group
  group_of-event_by_entity k events dated =
      let of_key = λ (event : MonitoringEvent). str_eq (event_key event) k in
      let given = filter of_key events in
      rw (group_of-event_by_entity_eq k events) (
        Perm-sort_by event_order given,
        sort_by-Ordered given (All-filter IsDated of_key events dated),
      )
