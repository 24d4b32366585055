-- ===== src/Backup/Target/Steps.antt =====
-- What each step of `evaluateTarget` does to the health.
use ivrm_dashboard.Prelude.{
  ℕ, ◌-◌, ◌*◌, leb, ltb, Bool, true, false, not, ◌&&◌, ◌||◌, Option, none, some, String, Runtime,
  if◌then◌else◌, truthy, ◌≡◌, refl, arith, inl, inr,
}
use ivrm_dashboard.Prelude.Tests.{Bool-cases}
use ivrm_dashboard.Backup.{BackupHealth, BackupRunSummary}
use ivrm_dashboard.Backup.Target.{
  Verdict, is_critical, is_healthy, latest_failed, latest_unsettled, exceeds, is_null, is_false,
  is_true, failure_step, age_step, checksum_step, retention_step, unknown_retention_step,
  unsettled_step, remote_step, restore_step, is_past, is_future, is_recent, is_late,
}

warned-critical :
    (health : BackupHealth)
    → is_critical (if is_critical health then health else BackupHealth.warning) ≡ is_critical health
warned-critical BackupHealth.healthy = refl
warned-critical BackupHealth.warning = refl
warned-critical BackupHealth.critical = refl
warned-critical BackupHealth.unknown = refl

warned-healthy :
    (health : BackupHealth)
    → is_healthy (if is_critical health then health else BackupHealth.warning) ≡ false
warned-healthy BackupHealth.healthy = refl
warned-healthy BackupHealth.warning = refl
warned-healthy BackupHealth.critical = refl
warned-healthy BackupHealth.unknown = refl

-- What a step may change of a verdict: it makes it critical, and it spoils it.
abbrev pub Steps : Verdict → Verdict → Bool → Bool → Type 0
Steps after before breach spoil =
    (is_critical after.health ≡ (is_critical before.health || breach))
    × (is_healthy after.health ≡ (is_healthy before.health && not spoil))

pub failure-Steps :
    (latest : Option BackupRunSummary) (v : Verdict)
    → Steps (failure_step latest v) v (latest_failed latest) (latest_failed latest)
unfolding failure_step
failure-Steps latest v = elim (Bool-cases (latest_failed latest)) [
  | inl e ↦ rw e (ground (arith), ground (arith))
  | inr e ↦ rw e (ground (arith), ground (arith))
]

exclusive : (health : BackupHealth) → (is_critical health && is_healthy health) ≡ false
exclusive BackupHealth.healthy = refl
exclusive BackupHealth.warning = refl
exclusive BackupHealth.critical = refl
exclusive BackupHealth.unknown = refl

same-Steps : (v : Verdict) → Steps v v false false
same-Steps v = (ground (arith), ground (arith))

trans-Steps :
    (c b a : Verdict) (breach spoil breach_first spoil_first : Bool)
    → Steps c b breach spoil
    → Steps b a breach_first spoil_first
    → Steps c a (breach_first || breach) (spoil_first || spoil)
trans-Steps c b a breach spoil breach_first spoil_first (p, q) (r, s) =
    (ground (arith), ground (arith))

pub age-Steps :
    (paused : Bool) (age : Option ℕ) (warning_after critical_after : ℕ) (v : Verdict)
    → Steps
        (age_step paused age warning_after critical_after v)
        v
        (not paused && exceeds age critical_after)
        (not paused && (exceeds age critical_after || exceeds age warning_after))
unfolding age_step
age-Steps paused age warning_after critical_after v =
    elim (Bool-cases (not paused && exceeds age critical_after)) [
      | inl e ↦ rw e (ground (arith), ground (arith))
      | inr e ↦
          elim (Bool-cases
            (not paused && exceeds age warning_after && not (is_critical v.health))) [
              | inl f ↦ rw (e, f) (ground (arith), ground (arith))
              | inr f ↦ rw (e, f) (ground (arith), ground (arith, exclusive v.health))
            ]
    ]

pub checksum-Steps :
    (sha256_verified : Option Bool) (v : Verdict)
    → Steps
        (checksum_step sha256_verified v)
        v
        (is_false sha256_verified)
        (not (is_true sha256_verified))
unfolding checksum_step
checksum-Steps none v =
    (ground (arith, warned-critical v.health), ground (arith, warned-healthy v.health))
checksum-Steps (some false) v = (ground (arith), ground (arith))
checksum-Steps (some true) v = same-Steps v

pub unknown_retention-Steps :
    ⦃runtime : Runtime⦄ (expires_at : Option String) (v : Verdict)
    → Steps (unknown_retention_step expires_at v) v false (is_null expires_at)
unfolding unknown_retention_step
unknown_retention-Steps none v =
    (ground (arith, warned-critical v.health), ground (arith, warned-healthy v.health))
unknown_retention-Steps (some expires_at) v = same-Steps v

pub unsettled-Steps :
    ⦃runtime : Runtime⦄ (latest : Option BackupRunSummary) (v : Verdict)
    → Steps (unsettled_step latest v) v false (latest_unsettled latest)
unfolding unsettled_step
unsettled-Steps latest v = elim (Bool-cases (latest_unsettled latest)) [
  | inl e ↦ rw e (ground (arith, warned-critical v.health), ground (arith, warned-healthy v.health))
  | inr e ↦ rw e (same-Steps v)
]

module _ ⦃runtime : Runtime⦄ where
  pub retention-Steps :
      (expires_at : Option String) (now : ℕ) (v : Verdict)
      → Steps
          (retention_step expires_at now v)
          v
          (is_past (truthy expires_at) now)
          (is_past (truthy expires_at) now)
  unfolding retention_step
  retention-Steps expires_at now v = elim (Bool-cases (is_past (truthy expires_at) now)) [
    | inl e ↦ rw e (ground (arith), ground (arith))
    | inr e ↦ rw e (same-Steps v)
  ]

  pub remote-Steps :
      (pending : Bool) (completed_at : String) (limit now : ℕ) (v : Verdict)
      → Steps
          (remote_step pending completed_at limit now v)
          v
          false
          (pending && is_late completed_at limit now)
  unfolding remote_step
  remote-Steps pending completed_at limit now v =
      elim (Bool-cases (pending && is_late completed_at limit now)) [
        | inl e ↦
            rw e (ground (arith, warned-critical v.health), ground (arith, warned-healthy v.health))
        | inr e ↦ rw e (same-Steps v)
      ]

  null-future : (at : Option String) (now : ℕ) → (is_null at && is_future at now) ≡ false
  null-future none now = refl
  null-future (some at) now = refl

  null-recent :
      (at : Option String) (limit now : ℕ) → (is_null at && is_recent at limit now) ≡ false
  null-recent none limit now = refl
  null-recent (some at) limit now = refl

  future-recent :
      (at : Option String) (limit now : ℕ) → (is_future at now && is_recent at limit now) ≡ false
  future-recent none limit now = refl
  future-recent (some at) limit now =
      elim (runtime.parse at)
        as (λ o.
          (elim o [ none ↦ false | some t ↦ ltb now t ]
            && elim o [ none ↦ false | some t ↦ leb t now && leb (now - t) (limit * 1000) ])
          ≡ false) [ none ↦ refl | some t ↦ ground (arith) ]

  -- A restore test that is recent was made, and not in the future.
  pub restore-Steps :
      (tested_at : Option String) (limit now : ℕ) (v : Verdict)
      → Steps
          (restore_step tested_at limit now v)
          v
          false
          (not (is_recent (truthy tested_at) limit now))
  unfolding restore_step
  restore-Steps tested_at limit now v =
      let a = null-recent (truthy tested_at) limit now in
      let b = future-recent (truthy tested_at) limit now in
      (ground (arith, warned-critical v.health), ground (arith, warned-healthy v.health))
