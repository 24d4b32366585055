-- ===== src/Backup/Target/Health.antt =====
-- When a target is critical and when it is healthy.
use ivrm_dashboard.Prelude.{
  ℕ, Bool, false, not, ◌&&◌, ◌||◌, [], Option, none, some, Runtime, truthy, ◌≡◌, refl, arith,
}
use ivrm_dashboard.Backup.{BackupHealth, BackupSuccessSummary, BackupPolicy}
use ivrm_dashboard.Backup.Target.{
  Verdict, is_critical, is_healthy, latest_failed, latest_unsettled, exceeds, is_null, is_false,
  is_true, failure_step, age_step, checksum_step, retention_step, unknown_retention_step,
  unsettled_step, remote_step, success_steps, verdict_of, evaluate_target, is_past, is_recent,
  is_late, is_backup_age_paused, backup_age, sync_pending,
}
use ivrm_dashboard.Backup.Target.Steps.{
  failure-Steps, age-Steps, checksum-Steps, unknown_retention-Steps, unsettled-Steps,
  retention-Steps, remote-Steps, restore-Steps,
}

module _ ⦃runtime : Runtime⦄ where
  -- The evidence of a success fails: too old, a wrong checksum, or no longer kept.
  abbrev pub is_breached : BackupPolicy → BackupSuccessSummary → ℕ → Bool
  is_breached policy success now =
      (not (is_backup_age_paused policy.age_pause_reason policy.age_paused_until now)
        && exceeds (backup_age (some success) now) policy.critical_after_seconds)
      || is_false success.sha256_verified
      || is_past (truthy success.retention_expires_at) now

  abbrev pub is_aged : BackupPolicy → BackupSuccessSummary → ℕ → Bool
  is_aged policy success now =
      let age = backup_age (some success) now in
      not (is_backup_age_paused policy.age_pause_reason policy.age_paused_until now)
      && (exceeds age policy.critical_after_seconds || exceeds age policy.warning_after_seconds)

  -- All evidence of a success is there: young or paused, verified, kept until a time that is set and not
  -- past, settled, synced in time, and restored in a recent test.
  abbrev pub is_proven : BackupPolicy → BackupSuccessSummary → ℕ → Bool
  is_proven policy success now =
      not (is_aged policy success now)
      && is_true success.sha256_verified
      && not (is_past (truthy success.retention_expires_at) now)
      && not (is_null success.retention_expires_at)
      && not (latest_unsettled policy.latest)
      && not (
          sync_pending policy.remote_sync_required success
          && is_late success.completed_at policy.remote_sync_warning_seconds now)
      && is_recent (truthy success.restore_tested_at) policy.restore_test_warning_seconds now

  abbrev pub holds : (BackupSuccessSummary → Bool) → Option BackupSuccessSummary → Bool
  holds test none = false
  holds test (some success) = test success

  success-critical :
      (policy : BackupPolicy) (success : BackupSuccessSummary) (now : ℕ) (v : Verdict)
      → (is_critical (success_steps policy success now v).health
          ≡ (is_critical v.health || is_breached policy success now))
        × (is_healthy (success_steps policy success now v).health
            ≡ (is_healthy v.health && is_proven policy success now))
  unfolding success_steps
  success-critical policy success now v =
      let paused = is_backup_age_paused policy.age_pause_reason policy.age_paused_until now in
      let age = backup_age (some success) now in
      let v1 = age_step paused age policy.warning_after_seconds policy.critical_after_seconds v in
      let v2 = checksum_step success.sha256_verified v1 in
      let v3 = retention_step success.retention_expires_at now v2 in
      let v4 = unknown_retention_step success.retention_expires_at v3 in
      let v5 = unsettled_step policy.latest v4 in
      let pending = sync_pending policy.remote_sync_required success in
      let v6 = remote_step pending success.completed_at policy.remote_sync_warning_seconds now v5 in
      let s1 = age-Steps paused age policy.warning_after_seconds policy.critical_after_seconds v in
      let s2 = checksum-Steps success.sha256_verified v1 in
      let s3 = retention-Steps success.retention_expires_at now v2 in
      let s4 = unknown_retention-Steps success.retention_expires_at v3 in
      let s5 = unsettled-Steps policy.latest v4 in
      let s6 =
        remote-Steps pending success.completed_at policy.remote_sync_warning_seconds now v5 in
      let s7 = restore-Steps success.restore_tested_at policy.restore_test_warning_seconds now v6 in
      (
        rw (s7.0, s6.0, s5.0, s4.0, s3.0, s2.0, s1.0) (ground (arith)),
        rw (s7.1, s6.1, s5.1, s4.1, s3.1, s2.1, s1.1) (ground (arith)),
      )

  verdict_of-critical :
      (policy : BackupPolicy) (success : Option BackupSuccessSummary) (now : ℕ)
      → (is_critical (verdict_of policy success now).health ≡ (
          latest_failed policy.latest
          || holds (λ evidence. is_breached policy evidence now) success))
        × (is_healthy (verdict_of policy success now).health ≡ (
            not (latest_failed policy.latest)
            && holds (λ evidence. is_proven policy evidence now) success))
  unfolding verdict_of
  verdict_of-critical policy none now =
      let start : Verdict = record { health = BackupHealth.unknown; reasons = [] } in
      let s = failure-Steps policy.latest start in (ground (arith, s.0), ground (arith, s.1))
  verdict_of-critical policy (some success) now =
      let start : Verdict = record { health = BackupHealth.healthy; reasons = [] } in
      let s = failure-Steps policy.latest start in
      let t = success-critical policy success now (failure_step policy.latest start) in
      (rw (t.0, s.0) refl, rw (t.1, s.1) refl)

  -- A target is critical exactly when its latest run failed or the evidence of its latest success is
  -- breached; it is healthy exactly when its latest run did not fail and there is a success with all
  -- evidence.
  pub evaluate_target-health :
      (policy : BackupPolicy) (now : ℕ)
      → (is_critical (evaluate_target policy now).health ≡ (
          latest_failed policy.latest
          || holds (λ success. is_breached policy success now) policy.latest_success))
        × (is_healthy (evaluate_target policy now).health ≡ (
            not (latest_failed policy.latest)
            && holds (λ success. is_proven policy success now) policy.latest_success))
  unfolding evaluate_target
  evaluate_target-health policy now = verdict_of-critical policy policy.latest_success now
