-- ===== src/Backup/Target.antt =====
-- `evaluateTarget` of apps/web/lib/backups.ts: how safe the backups of a target are, and why. `now` is
-- the present instant. An age that is NaN, which no checked row gives, is none.
pub mod Steps
pub mod Health
use ivrm_dashboard.Prelude.{
  ℕ, ◌-◌, ◌*◌, ◌/◌, Bool, true, false, not, ◌&&◌, ◌||◌, List, [], ◌∷◌, ◌++◌, Option, none, some,
  String, Runtime, concat, leb, ltb, if◌then◌else◌, truthy,
}
use ivrm_dashboard.Backup.{
  BackupOutcome, BackupHealth, RestoreReadiness, BackupRunSummary, BackupSuccessSummary,
  BackupPolicy, BackupTargetSnapshot, failure_text,
}

-- The variables `health` and `reasons`.
pub record Verdict : Type 0 where
  pub health : BackupHealth
  pub reasons : List String

abbrev pub is_critical : BackupHealth → Bool
is_critical BackupHealth.critical = true
is_critical _ = false

abbrev pub is_healthy : BackupHealth → Bool
is_healthy BackupHealth.healthy = true
is_healthy _ = false

-- `warn`
abbrev pub warn : String → Verdict → Verdict
warn reason verdict = record {
  health = if is_critical verdict.health then verdict.health else BackupHealth.warning;
  reasons = verdict.reasons ++ reason ∷ [];
}

abbrev pub fail : String → Verdict → Verdict
fail reason verdict = record {
  health = BackupHealth.critical;
  reasons = verdict.reasons ++ reason ∷ [];
}

abbrev is_failure : BackupOutcome → Bool
is_failure BackupOutcome.failed = true
is_failure _ = false

abbrev is_unsettled : BackupOutcome → Bool
is_unsettled BackupOutcome.running = true
is_unsettled BackupOutcome.unknown = true
is_unsettled _ = false

-- Tests of the latest run, which may be absent.
abbrev pub latest_failed : Option BackupRunSummary → Bool
latest_failed none = false
latest_failed (some run) = is_failure run.outcome

abbrev pub latest_unsettled : Option BackupRunSummary → Bool
latest_unsettled none = false
latest_unsettled (some run) = is_unsettled run.outcome

abbrev latest_failure_text : Option BackupRunSummary → String
latest_failure_text none = "unknown"
latest_failure_text (some run) = failure_text run.failure_code

abbrev pub exceeds : Option ℕ → ℕ → Bool
exceeds none limit = false
exceeds (some age) limit = ltb limit age

abbrev pub is_null : {A : Type 0} → Option A → Bool
is_null none = true
is_null (some _) = false

abbrev pub is_false : Option Bool → Bool
is_false (some false) = true
is_false _ = false

abbrev pub is_true : Option Bool → Bool
is_true (some true) = true
is_true _ = false

unfoldable pub failure_step : Option BackupRunSummary → Verdict → Verdict
failure_step latest verdict =
    if latest_failed latest
    then fail (concat ("最新バックアップ失敗: " ∷ latest_failure_text latest ∷ [])) verdict
    else verdict

unfoldable pub age_step : Bool → Option ℕ → ℕ → ℕ → Verdict → Verdict
age_step paused age warning_after critical_after verdict =
    if not paused && exceeds age critical_after
    then fail "最新成功がCritical SLAを超過しています" verdict
    else if not paused && exceeds age warning_after && not (is_critical verdict.health)
    then record {
      health = BackupHealth.warning;
      reasons = verdict.reasons ++ "最新成功がWarning SLAを超過しています" ∷ [];
    }
    else verdict

unfoldable pub checksum_step : Option Bool → Verdict → Verdict
checksum_step sha256_verified verdict =
    if is_false sha256_verified
    then fail "SHA-256検証失敗を確認しました" verdict
    else if is_null sha256_verified
    then warn "SHA-256検証結果が未取得です" verdict
    else verdict

module _ ⦃runtime : Runtime⦄ where
  -- A time that is set and not after `now`, and one that is set and after it; false where it is NaN.
  abbrev pub is_past : Option String → ℕ → Bool
  is_past none now = false
  is_past (some at) now = elim (runtime.parse at) [ none ↦ false | some t ↦ leb t now ]

  abbrev pub is_future : Option String → ℕ → Bool
  is_future none now = false
  is_future (some at) now = elim (runtime.parse at) [ none ↦ false | some t ↦ ltb now t ]

  abbrev pub is_recent : Option String → ℕ → ℕ → Bool
  is_recent none limit now = false
  is_recent (some at) limit now = elim (runtime.parse at) [
    | none ↦ false
    | some t ↦ leb t now && leb (now - t) (limit * 1000)
  ]

  abbrev pub is_late : String → ℕ → ℕ → Bool
  is_late at limit now = elim (runtime.parse at) [
    | none ↦ false
    | some t ↦ ltb (limit * 1000) (now - t)
  ]

  -- `isBackupAgePaused`
  unfoldable pub is_backup_age_paused : Option String → Option String → ℕ → Bool
  is_backup_age_paused age_pause_reason age_paused_until now = elim age_pause_reason [
    | none ↦ false
    | some reason ↦
        not (is_null (truthy (some (runtime.trim reason))))
        && is_future (truthy age_paused_until) now
  ]

  abbrev pub backup_age : Option BackupSuccessSummary → ℕ → Option ℕ
  backup_age none now = none
  backup_age (some success) now = elim (runtime.parse success.completed_at) [
    | none ↦ none
    | some t ↦ some ((now - t) / 1000)
  ]

  unfoldable pub retention_step : Option String → ℕ → Verdict → Verdict
  retention_step expires_at now verdict =
      if is_past (truthy expires_at) now
      then fail "最新成功バックアップのRetention期限を超過しています" verdict
      else verdict

  unfoldable pub unknown_retention_step : Option String → Verdict → Verdict
  unknown_retention_step expires_at verdict =
      if is_null expires_at then warn "Retention期限が未取得です" verdict else verdict

  unfoldable pub unsettled_step : Option BackupRunSummary → Verdict → Verdict
  unsettled_step latest verdict =
      if latest_unsettled latest then warn "最新Runの結果がまだ確定していません" verdict else verdict

  unfoldable pub remote_step : Bool → String → ℕ → ℕ → Verdict → Verdict
  remote_step pending completed_at limit now verdict =
      if pending && is_late completed_at limit now
      then warn "Remote SyncがSLA内に完了していません" verdict
      else verdict

  unfoldable pub restore_step : Option String → ℕ → ℕ → Verdict → Verdict
  restore_step tested_at limit now verdict =
      if is_null (truthy tested_at)
      then warn "Restore Testの実施証跡が未取得です" verdict
      else if is_future (truthy tested_at) now
      then warn "Restore Testの日時が未来です。送信元の時計を確認してください" verdict
      else if not (is_recent (truthy tested_at) limit now)
      then warn "Restore TestがPolicy期間を超過しています" verdict
      else verdict

  abbrev pub readiness : BackupSuccessSummary → ℕ → ℕ → RestoreReadiness
  readiness success limit now =
      let tested_at = truthy success.restore_tested_at in
      let fresh = is_recent tested_at limit now in
      if not (is_null tested_at) && not (is_future tested_at now) && not fresh
      then RestoreReadiness.warning
      else if is_true success.sha256_verified
          && is_future (truthy success.retention_expires_at) now
          && fresh
      then RestoreReadiness.ready
      else RestoreReadiness.unknown

  abbrev pub sync_pending : Bool → BackupSuccessSummary → Bool
  sync_pending required success = required && is_null (truthy success.remote_synced_at)

  -- The steps that need a success.
  unfoldable pub success_steps : BackupPolicy → BackupSuccessSummary → ℕ → Verdict → Verdict
  unfolding age_step checksum_step retention_step unknown_retention_step unsettled_step remote_step
      restore_step is_backup_age_paused
  success_steps policy success now verdict =
      let paused = is_backup_age_paused policy.age_pause_reason policy.age_paused_until now in
      let age = backup_age (some success) now in
      restore_step success.restore_tested_at policy.restore_test_warning_seconds now (
        remote_step (sync_pending policy.remote_sync_required success) success.completed_at
          policy.remote_sync_warning_seconds now
          (unsettled_step policy.latest (
            unknown_retention_step success.retention_expires_at (
              retention_step success.retention_expires_at now (
                checksum_step success.sha256_verified (
                  age_step paused age policy.warning_after_seconds policy.critical_after_seconds
                    verdict))))))

  unfoldable pub verdict_of : BackupPolicy → Option BackupSuccessSummary → ℕ → Verdict
  unfolding failure_step success_steps
  verdict_of policy none now =
      let verdict =
        failure_step policy.latest (record { health = BackupHealth.unknown; reasons = [] }) in
      record verdict { reasons = verdict.reasons ++ "成功済みバックアップをまだ確認できません" ∷ [] }
  verdict_of policy (some success) now =
      success_steps policy success now
        (failure_step policy.latest (record { health = BackupHealth.healthy; reasons = [] }))

  -- The reason of a healthy target.
  abbrev pub final_reasons : Bool → Verdict → List String
  final_reasons paused verdict = elim verdict.reasons [
    | [] ↦
        if is_healthy verdict.health
        then (if paused then "Age判定は一時停止中です。その他の取得済み保管証跡に異常はありません" else "最新成功・整合性・SLAに異常はありません")
          ∷ []
        else []
    | reason ∷ rest ↦ reason ∷ rest
  ]

  abbrev opt_pending : Bool → Option BackupSuccessSummary → Bool
  opt_pending required none = false
  opt_pending required (some success) = sync_pending required success

  abbrev opt_readiness : Option BackupSuccessSummary → ℕ → ℕ → RestoreReadiness
  opt_readiness none limit now = RestoreReadiness.unknown
  opt_readiness (some success) limit now = readiness success limit now

  -- `evaluateTarget`
  unfoldable pub evaluate_target : BackupPolicy → ℕ → BackupTargetSnapshot
  unfolding verdict_of is_backup_age_paused
  evaluate_target policy now =
      let verdict = verdict_of policy policy.latest_success now in
      record {
        policy = policy;
        health = verdict.health;
        health_reasons =
            final_reasons (is_backup_age_paused policy.age_pause_reason policy.age_paused_until now)
              verdict;
        backup_age_seconds = backup_age policy.latest_success now;
        remote_sync_pending = opt_pending policy.remote_sync_required policy.latest_success;
        restore_readiness =
            opt_readiness policy.latest_success policy.restore_test_warning_seconds now;
      }
