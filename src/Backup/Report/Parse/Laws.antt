-- ===== src/Backup/Report/Parse/Laws.antt =====
-- What holds of the runs of a report.
use mathlib.Core.Path.{subst}
use ivrm_dashboard.Prelude.{
  ℕ, ◌+◌, ◌≤◌, Bool, true, false, not, List, [], ◌∷◌, Option, none, some, String, Runtime, All, any,
  length, str_eq, eq_iff, if◌then◌else◌, ◌≡◌, refl, ap, arith, inl, inr,
}
use ivrm_dashboard.Prelude.Tests.{Bool-cases}
use ivrm_dashboard.Operation.Json.{
  Json, JsonItems, json_null, json_boolean, json_number, json_string, json_array, json_object,
  no_items, item,
}
use ivrm_dashboard.Backup.Report.{
  BackupRunReport, ◌>>=◌, max_clock_skew, max_age, is_finished, is_failed, is_null, is_misplaced,
  is_expired, ends_badly, has_only_keys, run_keys,
}
use ivrm_dashboard.Backup.Report.Parse.{
  count_items, has_duplicate, time_of, is_inconsistent, checked_run, normalize_run, normalize_runs,
  run_fields,
}

-- An end lies between the start and the latest time.
abbrev pub EndsIn : Option ℕ → ℕ → ℕ → Type 0
EndsIn none started latest = Unit {0}
EndsIn (some completed) started latest = (started ≤ completed) × (completed ≤ latest)

-- A later step of a run that has ended.
abbrev pub Follows : Option ℕ → Option ℕ → ℕ → Type 0
Follows none completed latest = Unit {0}
Follows (some t) none latest = ⊥
Follows (some t) (some completed) latest = (completed ≤ t) × (t ≤ latest)

abbrev pub Outlives : Option ℕ → Option ℕ → Type 0
Outlives none completed = Unit {0}
Outlives (some t) none = ⊥
Outlives (some t) (some completed) = completed + 1 ≤ t

EndsIn-ends_badly :
    (completed : Option ℕ) (started latest : ℕ)
    → ends_badly completed started latest ≡ false
    → EndsIn completed started latest
EndsIn-ends_badly none started latest h = tt
EndsIn-ends_badly (some completed) started latest h = (ground arith, ground arith)

Follows-is_misplaced :
    (t completed : Option ℕ) (latest : ℕ)
    → is_misplaced t completed latest ≡ false
    → Follows t completed latest
Follows-is_misplaced none completed latest h = tt
Follows-is_misplaced (some t) none latest h = cc
Follows-is_misplaced (some t) (some completed) latest h = (ground arith, ground arith)

Outlives-is_expired :
    (t completed : Option ℕ) → is_expired t completed ≡ false → Outlives t completed
Outlives-is_expired none completed h = tt
Outlives-is_expired (some t) none h = cc
Outlives-is_expired (some t) (some completed) h = ground arith

-- The ids of the runs differ.
abbrev pub IsDistinct : List BackupRunReport → Type 0
IsDistinct [] = Unit {0}
IsDistinct (run ∷ rest) =
    (any (λ other. str_eq other.run_id run.run_id) rest ≡ false) × IsDistinct rest

unseen :
    (id : String) (seen : List String) (runs : List BackupRunReport)
    → any (str_eq id) seen ≡ true
    → has_duplicate seen runs ≡ false
    → any (λ other. str_eq other.run_id id) runs ≡ false
unfolding has_duplicate
unseen id seen [] s h = refl
unseen id seen (run ∷ rest) s h = elim (Bool-cases (str_eq run.run_id id)) [
  | inl e ↦ let q = ap (λ t. any (str_eq t) seen) ((eq_iff run.run_id id).0 e) in ground (arith)
  | inr e ↦ rw e (unseen id (run.run_id ∷ seen) rest (ground (arith)) (ground (arith)))
]

pub IsDistinct-has_duplicate :
    (seen : List String) (runs : List BackupRunReport)
    → has_duplicate seen runs ≡ false
    → IsDistinct runs
unfolding has_duplicate
IsDistinct-has_duplicate seen [] h = tt
IsDistinct-has_duplicate seen (run ∷ rest) h = (
  unseen run.run_id (run.run_id ∷ seen) rest (ground (arith, eq_iff run.run_id run.run_id))
      (ground arith),
  IsDistinct-has_duplicate (run.run_id ∷ seen) rest (ground arith),
)

kept :
    {A : Type 0} (b : Bool) (x r : A)
    → (if b then none else some x) ≡ some r
    → (b ≡ false) × (x ≡ r)
kept true x r h = absurd (cc)
kept false x r h = (refl, cc)

kept_then :
    {A : Type 0} (b : Bool) (x : Option A) (r : A) → (if b then x else none) ≡ some r → x ≡ some r
kept_then true x r h = h
kept_then false x r h = absurd (cc)

module _ ⦃runtime : Runtime⦄ where
  -- A run of a report: it started no more than 90 days before and 5 minutes after the report; it has an
  -- end, after its start, and a duration exactly when it is finished, and a failure code exactly when it
  -- failed; a sync and a restore test come after the end, and the retention outlives it.
  abbrev pub IsSound : ℕ → BackupRunReport → Type 0
  IsSound report_time run =
      let latest = report_time + max_clock_skew in
      let completed = time_of run.completed_at in
      (started : ℕ) × (runtime.parse run.started_at ≡ some started)
      × (started ≤ latest)
      × (report_time ≤ started + max_age)
      × (is_null completed ≡ not (is_finished run.outcome))
      × (is_null run.duration_seconds ≡ not (is_finished run.outcome))
      × (is_null run.failure_code ≡ not (is_failed run.outcome))
      × EndsIn completed started latest
      × Follows (time_of run.remote_synced_at) completed latest
      × Follows (time_of run.restore_tested_at) completed latest
      × Outlives (time_of run.retention_expires_at) completed

  consistent-IsSound :
      (report_time started : ℕ) (run : BackupRunReport)
      → runtime.parse run.started_at ≡ some started
      → is_inconsistent report_time started run ≡ false
      → IsSound report_time run
  unfolding is_inconsistent
  consistent-IsSound report_time started run p h =
      let latest = report_time + max_clock_skew in
      let completed = time_of run.completed_at in
      (
        started,
        p,
        ground (arith),
        ground (arith),
        ground (arith),
        ground (arith),
        ground (arith),
        EndsIn-ends_badly completed started latest (ground (arith)),
        Follows-is_misplaced (time_of run.remote_synced_at) completed latest (ground (arith)),
        Follows-is_misplaced (time_of run.restore_tested_at) completed latest (ground (arith)),
        Outlives-is_expired (time_of run.retention_expires_at) completed (ground (arith)),
      )

  checked_run-IsSound :
      (report_time : ℕ) (run result : BackupRunReport) (started : Option ℕ)
      → runtime.parse run.started_at ≡ started
      → checked_run report_time run started ≡ some result
      → IsSound report_time result
  unfolding checked_run
  checked_run-IsSound report_time run result none p h = absurd (cc)
  checked_run-IsSound report_time run result (some started) p h =
      let g = kept (is_inconsistent report_time started run) run result h in
      subst (IsSound report_time) g.1 (consistent-IsSound report_time started run p g.0)

  fields-IsSound :
      (report_time : ℕ) (fields_of : Option BackupRunReport) (result : BackupRunReport)
      → (fields_of >>= λ run. checked_run report_time run (runtime.parse run.started_at))
        ≡ some result
      → IsSound report_time result
  fields-IsSound report_time none result h = absurd (cc)
  fields-IsSound report_time (some run) result h =
      checked_run-IsSound report_time run result (runtime.parse run.started_at) refl h

  -- The runs and their number.
  abbrev pub AreSound : ℕ → JsonItems → List BackupRunReport → Type 0
  AreSound report_time items runs =
      All (IsSound report_time) runs × (length runs ≡ count_items items)

  cons-AreSound :
      (report_time : ℕ) (value : Json) (rest : JsonItems) (head : Option BackupRunReport)
      (tail : Option (List BackupRunReport)) (runs : List BackupRunReport)
      → ((run : BackupRunReport) → head ≡ some run → IsSound report_time run)
      → ((others : List BackupRunReport) → tail ≡ some others → AreSound report_time rest others)
      → (head >>= λ run. tail >>= λ others. some (run ∷ others)) ≡ some runs
      → AreSound report_time (item value rest) runs
  cons-AreSound report_time value rest none tail runs p q h = absurd (cc)
  cons-AreSound report_time value rest (some run) none runs p q h = absurd (cc)
  cons-AreSound report_time value rest (some run) (some others) runs p q h =
      let e : run ∷ others ≡ runs = cc in
      let s = q others refl in
      subst (AreSound report_time (item value rest)) e ((p run refl, s.0), omega (arith, s.1))

module _ ⦃runtime : Runtime⦄ (safe_integer : String → Option ℕ) where
  normalize_run-IsSound :
      (report_time : ℕ) (value : Json) (result : BackupRunReport)
      → normalize_run safe_integer report_time value ≡ some result
      → IsSound report_time result
  unfolding normalize_run
  normalize_run-IsSound report_time (json_object entries) result h =
      fields-IsSound report_time (run_fields safe_integer entries) result (
        kept_then (has_only_keys run_keys entries)
          (run_fields safe_integer entries >>= λ run.
            checked_run report_time run (runtime.parse run.started_at))
          result h)
  normalize_run-IsSound report_time json_null result h = absurd (cc)
  normalize_run-IsSound report_time (json_boolean _) result h = absurd (cc)
  normalize_run-IsSound report_time (json_number _) result h = absurd (cc)
  normalize_run-IsSound report_time (json_string _) result h = absurd (cc)
  normalize_run-IsSound report_time (json_array _) result h = absurd (cc)

  pub normalize_runs-AreSound :
      (report_time : ℕ) (items : JsonItems) (runs : List BackupRunReport)
      → normalize_runs safe_integer report_time items ≡ some runs
      → AreSound report_time items runs
  unfolding normalize_runs
  normalize_runs-AreSound report_time no_items runs h =
      let e : [] ≡ runs = cc in subst (AreSound report_time no_items) e (tt, refl)
  normalize_runs-AreSound report_time (item value rest) runs h =
      cons-AreSound report_time value rest (normalize_run safe_integer report_time value)
        (normalize_runs safe_integer report_time rest) runs
        (λ run. normalize_run-IsSound report_time value run)
        (λ others. normalize_runs-AreSound report_time rest others) h
