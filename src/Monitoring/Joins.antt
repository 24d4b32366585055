-- ===== src/Monitoring/Joins.antt =====
-- The maps of `getMonitoringSnapshot` are searches of the rows.
use mathlib.Core.Option
use ivrm_dashboard.Prelude.{
  ℕ, ◌≡◌, refl, ◌∙◌, ap, ap₂, Bool, true, false, ◌&&◌, List, [], ◌∷◌, map, Option, none, some,
  String, Runtime, arith, find, sort_by, str_eq, eq_iff, if◌then◌else◌, Option-cases, inl, inr,
}
use ivrm_dashboard.Prelude.StringMap.{get, set, get-set, values}
use ivrm_dashboard.Monitoring.Types.{
  HostRow, HeartbeatRow, ContainerSampleRow, ContainerExpectationRow,
}
use ivrm_dashboard.Monitoring.Snapshot.{
  keep_first, container_key, host_name_by_id, container_overview, expectation_by_key,
  latest_by_host, latest_container_by_key, keep_container, host_overview, get_monitoring_snapshot,
  display_key,
}

-- The first of two results.
abbrev pub first_of_two {ℓ} : {A : Type ℓ} → Option A → Option A → Option A
first_of_two none b = b
first_of_two (some a) b = some a

abbrev pub is_some {ℓ} : {A : Type ℓ} → Option A → Bool
is_some none = false
is_some (some _) = true

-- The last item that passes a test.
abbrev pub find_last {ℓ} : {A : Type ℓ} → (A → Bool) → List A → Option A
find_last p [] = none
find_last p (x ∷ xs) = first_of_two (find_last p xs) (if p x then some x else none)

first_of_two_none {ℓ} : {A : Type ℓ} (o : Option A) → first_of_two o none ≡ o
first_of_two_none none = refl
first_of_two_none (some a) = refl

get-keep_first {ℓ} :
    {V : Type ℓ} (k j : String) (v : V) (m : List (String × V))
    → get j (keep_first k v m) ≡ first_of_two (get j m) (if str_eq k j then some v else none)
get-keep_first k j v m = elim (Option-cases (get k m)) [
  | inl absent ↦ ground (arith, absent, get-set k j v m, eq_iff k j)
  | inr (w, present) ↦ ground (arith, present, eq_iff k j)
]

get-expectation_by_key :
    (j : String) (m : List (String × ContainerExpectationRow)) (rows : List ContainerExpectationRow)
    → get j (expectation_by_key m rows)
      ≡ first_of_two
          (find_last (λ r. str_eq (container_key r.host_id r.container_name) j) rows)
          (get j m)
unfolding expectation_by_key
get-expectation_by_key j m [] = refl
get-expectation_by_key j m (row ∷ rest) =
    get-expectation_by_key j (set (container_key row.host_id row.container_name) row m) rest
    ∙ ground (arith, get-set (container_key row.host_id row.container_name) j row m)

get-host_name_by_id :
    (j : String) (m : List (String × String)) (rows : List HostRow)
    → get j (host_name_by_id m rows)
      ≡ first_of_two
          (Option.map (λ r. r.display_name) (find_last (λ r. str_eq r.id j) rows))
          (get j m)
unfolding host_name_by_id
get-host_name_by_id j m [] = refl
get-host_name_by_id j m (row ∷ rest) =
    get-host_name_by_id j (set row.id row.display_name m) rest
    ∙ ground (arith, get-set row.id j row.display_name m)

module _ {Number : Type 0} where
  get-latest_by_host :
      (j : String) (m : List (String × HeartbeatRow Number)) (rows : List (HeartbeatRow Number))
      → get j (latest_by_host m rows) ≡ first_of_two (get j m) (find (λ r. str_eq r.host_id j) rows)
  unfolding latest_by_host
  get-latest_by_host j m [] = ground arith
  get-latest_by_host j m (row ∷ rest) =
      get-latest_by_host j (keep_first row.host_id row m) rest
      ∙ ground (arith, get-keep_first row.host_id j row m)

  kept_container :
      (j : String) (names : List (String × String)) (m : List (String × ContainerSampleRow Number))
      (row : ContainerSampleRow Number)
      → get j (keep_container (get row.host_id names) row m)
        ≡ first_of_two (get j m) (
            if is_some (get row.host_id names)
              && str_eq (container_key row.host_id row.container_name) j
            then some row
            else none)
  kept_container j names m row = elim (Option-cases (get row.host_id names)) [
    | inl absent ↦ ground (arith, absent)
    | inr (name, present) ↦
        ground
          (arith, present, get-keep_first (container_key row.host_id row.container_name) j row m)
  ]

  get-latest_container_by_key :
      (j : String) (names : List (String × String)) (m : List (String × ContainerSampleRow Number))
      (rows : List (ContainerSampleRow Number))
      → get j (latest_container_by_key names m rows)
        ≡ first_of_two (get j m) (
            find
              (λ r.
                is_some (get r.host_id names)
                && str_eq (container_key r.host_id r.container_name) j)
              rows)
  unfolding latest_container_by_key
  get-latest_container_by_key j names m [] = ground arith
  get-latest_container_by_key j names m (row ∷ rest) =
      get-latest_container_by_key j names (keep_container (get row.host_id names) row m) rest
      ∙ ground (arith, kept_container j names m row)

mapped :
    (o : Option HostRow)
    → is_some (first_of_two (Option.map (λ r. r.display_name) o) none) ≡ is_some o
mapped none = refl
mapped (some r) = refl

find-congr {ℓ} :
    {A : Type ℓ} (p q : A → Bool) → ((x : A) → p x ≡ q x) → (xs : List A) → find p xs ≡ find q xs
find-congr p q h [] = refl
find-congr p q h (x ∷ xs) = ground (arith, h x, find-congr p q h xs)

map-congr {ℓ κ} :
    {A : Type ℓ} {B : Type κ} (f g : A → B)
    → ((x : A) → f x ≡ g x)
    → (xs : List A) → map f xs ≡ map g xs
map-congr f g h [] = refl
map-congr f g h (x ∷ xs) = cc (h x, map-congr f g h xs)

module _ ⦃runtime : Runtime⦄ {Number : Type 0} (locale_le : String → String → Bool) (now : ℕ)
    (hosts : List HostRow) (heartbeats : List (HeartbeatRow Number))
    (samples : List (ContainerSampleRow Number)) (expectations : List ContainerExpectationRow) where
  -- A snapshot shows each host with the first heartbeat row that has its id.
  pub snapshot_hosts :
      (get_monitoring_snapshot locale_le now hosts heartbeats samples expectations).hosts
      ≡ map (λ host. host_overview now host (find (λ r. str_eq r.host_id host.id) heartbeats)) hosts
  unfolding get_monitoring_snapshot
  snapshot_hosts =
      map-congr _ _ (λ host. ap (host_overview now host) (get-latest_by_host host.id [] heartbeats))
        hosts

  -- It shows each container with the last expectation row that has its host and name, and with the
  -- name of the last host row that has its host.
  pub snapshot_containers :
      (get_monitoring_snapshot locale_le now hosts heartbeats samples expectations).containers
      ≡ sort_by
          (λ left right. locale_le (display_key left) (display_key right))
          (map
            (λ c.
              container_overview now c
                (find_last
                  (λ r.
                    str_eq
                      (container_key r.host_id r.container_name)
                      (container_key c.host_id c.container_name))
                  expectations)
                (Option.map (λ r. r.display_name) (find_last (λ r. str_eq r.id c.host_id) hosts)))
            (values (latest_container_by_key (host_name_by_id [] hosts) [] samples)))
  unfolding get_monitoring_snapshot
  snapshot_containers =
      ap (sort_by (λ left right. locale_le (display_key left) (display_key right))) (
        map-congr _ _
          (λ c.
            ap₂ (container_overview now c)
              (get-expectation_by_key (container_key c.host_id c.container_name) [] expectations
                ∙ first_of_two_none _)
              (get-host_name_by_id c.host_id [] hosts ∙ first_of_two_none _))
          (values (latest_container_by_key (host_name_by_id [] hosts) [] samples)))

  -- The container that it keeps under a key is the first sample row with that key whose host is
  -- listed.
  pub snapshot_samples :
      (key : String)
      → get key (latest_container_by_key (host_name_by_id [] hosts) [] samples)
        ≡ find
            (λ r.
              is_some (find_last (λ h. str_eq h.id r.host_id) hosts)
              && str_eq (container_key r.host_id r.container_name) key)
            samples
  snapshot_samples key =
      get-latest_container_by_key key (host_name_by_id [] hosts) [] samples
      ∙ find-congr _ _
          (λ r.
            ap (λ b. b && str_eq (container_key r.host_id r.container_name) key) (known r.host_id))
          samples
    where
      known :
          (id : String)
          → is_some (get id (host_name_by_id [] hosts))
            ≡ is_some (find_last (λ h. str_eq h.id id) hosts)
      known id =
          ap is_some (get-host_name_by_id id [] hosts)
          ∙ mapped (find_last (λ h. str_eq h.id id) hosts)
