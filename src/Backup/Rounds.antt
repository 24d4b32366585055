-- ===== src/Backup/Rounds.antt =====
-- One round of the loop of `deriveRunEpisodes` of apps/web/lib/unified-incidents.ts over the runs of a
-- backup, in order of time, and the loop.
pub mod Laws
use ivrm_dashboard.Prelude.{
  ℕ, ◌+◌, ◌-◌, ◌/◌, Bool, true, false, not, ◌&&◌, ◌||◌, List, [], ◌∷◌, ◌++◌, Option, none, some,
  String, Runtime, concat, or_else, leb, ltb, if◌then◌else◌, truthy, sort_by,
}
use ivrm_dashboard.Prelude.StringMap.{get, set}
use ivrm_dashboard.Incident.{
  IncidentSeverity, IncidentSubject, RecoveredIncident, BackupType, recovered_backup, backup,
}
use ivrm_dashboard.Incident.Signals.{max_severity}
use ivrm_dashboard.Incident.Active.{no_later}
use ivrm_dashboard.Incident.Grouping.{group_from, in_order}
use ivrm_dashboard.Backup.{
  BackupOutcome, BackupFailureCode, BackupHistoryRun, BackupIncidentContext, failure_text,
}
use ivrm_dashboard.Backup.Target.{is_true, is_false}
use ivrm_dashboard.Backup.Runs.{
  is_failed, is_success, checksum_failed_in, is_verified, first_start_reason, backup_entity_key,
  run_key, context_key, is_set, is_truthy, quiet, first_start, checksum_first, seed_episode,
  seed_signal_state, BackupEpisode, BackupSignalState,
}

-- A failure or a wrong checksum starts an episode or raises the severity of the one that is open.
abbrev pub raise_severity :
    BackupHistoryRun → String → IncidentSeverity → Option BackupEpisode → Option BackupEpisode
unfolding max_severity
raise_severity run occurred_at severity none = some (record {
  started_at = occurred_at;
  severity = severity;
  start_reason = first_start_reason run;
  event_count = 0;
})
raise_severity run occurred_at severity (some episode) =
    some (record episode { severity = max_severity episode.severity severity })

abbrev pub failure_severity : ℕ → IncidentSeverity
failure_severity consecutive_failures =
    if leb 2 consecutive_failures then IncidentSeverity.critical else IncidentSeverity.warning

unfoldable pub failure_part : BackupHistoryRun → String → BackupSignalState → BackupSignalState
unfolding raise_severity
failure_part run occurred_at state =
    if is_failed run.outcome
    then record state {
      run_failure = true;
      consecutive_failures = state.consecutive_failures + 1;
      episode =
          raise_severity run occurred_at (failure_severity (state.consecutive_failures + 1))
            state.episode;
    }
    else state

unfoldable pub checksum_part : BackupHistoryRun → String → BackupSignalState → BackupSignalState
unfolding raise_severity
checksum_part run occurred_at state =
    if checksum_failed_in run
    then record state {
      checksum = true;
      episode = raise_severity run occurred_at IncidentSeverity.critical state.episode;
    }
    else state

unfoldable pub success_part : BackupHistoryRun → BackupSignalState → BackupSignalState
success_part run state =
    if is_success run.outcome
    then record state {
      run_failure = false;
      checksum = state.checksum && not (is_true run.sha256_verified);
      consecutive_failures = 0;
    }
    else state

-- `transitioned`, from the state before the deletions.
abbrev pub is_transition : BackupHistoryRun → BackupSignalState → Bool
is_transition run state =
    is_failed run.outcome
    || checksum_failed_in run
    || (is_success run.outcome && state.run_failure)
    || (is_verified run && state.checksum)

abbrev pub count_event : Bool → Option BackupEpisode → Option BackupEpisode
count_event transitioned none = none
count_event transitioned (some episode) =
    if transitioned
    then some (record episode { event_count = episode.event_count + 1 })
    else some episode

-- The state before the deletions of a success.
unfoldable pub failing : BackupHistoryRun → String → BackupSignalState → BackupSignalState
unfolding failure_part checksum_part
failing run occurred_at state = checksum_part run occurred_at (failure_part run occurred_at state)

-- The state at the end of the round, before the episode is closed.
unfoldable pub settled : BackupHistoryRun → BackupSignalState → BackupSignalState
unfolding success_part
settled run state =
    let next = success_part run state in
    record next { episode = count_event (is_transition run state) state.episode }

module _ ⦃runtime : Runtime⦄ (range_start : ℕ) where
  abbrev pub recovered_backup_incident :
      BackupHistoryRun → String → String → BackupEpisode → ℕ → ℕ → RecoveredIncident
  recovered_backup_incident run occurred_at recovery_reason episode started recovered_at = record {
    subject = record {
      id = recovered_backup (run_key run) episode.started_at run.row_id;
      entity_type = backup;
      severity = episode.severity;
      host_id = run.host_id;
      server_id = run.server_id;
      host_display_name = run.host_display_name;
      container_name = none;
      backup_target = some run.backup_target;
      game_mode = some run.game_mode;
      backup_type = some run.backup_type;
      start_reason = episode.start_reason;
      related_event_count = episode.event_count;
    };
    started_at = episode.started_at;
    recovered_at = occurred_at;
    duration_seconds = (recovered_at - started) / 1000;
    recovery_reason = recovery_reason;
  }

  abbrev pub recovery_at :
      BackupHistoryRun
      → String
      → String
      → BackupEpisode
      → Option ℕ
      → Option ℕ
      → List RecoveredIncident
  recovery_at run occurred_at recovery_reason episode (some started) (some recovered_at) =
      if leb started recovered_at && leb range_start recovered_at
      then recovered_backup_incident run occurred_at recovery_reason episode started recovered_at
        ∷ []
      else []
  recovery_at run occurred_at recovery_reason episode _ _ = []

  -- The end of a round: an episode with no active signal is over after a success.
  unfoldable pub close :
      BackupHistoryRun
      → String
      → String
      → BackupSignalState
      → Option BackupEpisode
      → BackupSignalState × List RecoveredIncident
  close run occurred_at recovery_reason state none = (state, [])
  close run occurred_at recovery_reason state (some episode) =
      if state.run_failure || state.checksum || not (is_success run.outcome) then (state, []) else (
        record state { episode = none },
        recovery_at run occurred_at recovery_reason episode (runtime.parse episode.started_at)
            (runtime.parse occurred_at),
      )

  -- One round of the loop over the runs of one key.
  unfoldable pub run_step :
      BackupHistoryRun → String → BackupSignalState → BackupSignalState × List RecoveredIncident
  unfolding close failing settled
  run_step run occurred_at state =
      let failed_state = failing run occurred_at state in
      let next = settled run failed_state in
      close run occurred_at
        (if is_verified run && failed_state.checksum
          then "Backup成功 / SHA-256 Verified"
          else "Backup成功")
        next next.episode

  -- The loop over the runs of one key, each with `run.completedAt as string`.
  unfoldable pub runs_from :
      BackupSignalState
      → List (String × BackupHistoryRun)
      → BackupSignalState × List RecoveredIncident
  unfolding run_step
  runs_from state [] = (state, [])
  runs_from state ((occurred_at, run) ∷ rest) =
      let current = run_step run occurred_at state in
      let later = runs_from current.0 rest in (later.0, current.1 ++ later.1)
