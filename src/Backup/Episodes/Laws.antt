-- ===== src/Backup/Episodes/Laws.antt =====
-- The incidents of backups that are over.
use ivrm_dashboard.Prelude.{
  ℕ, ◌-◌, ◌/◌, ◌≤◌, not, ◌&&◌, ◌||◌, List, [], ◌∷◌, ◌++◌, Option, none, some, String, Runtime,
  or_else, sort_by, All, All-append, if◌then◌else◌, leb, ◌≡◌, refl, arith, inl, inr,
}
use ivrm_dashboard.Prelude.Tests.{Bool-cases}
use ivrm_dashboard.Prelude.StringMap.{get, set}
use ivrm_dashboard.Incident.{RecoveredIncident}
use ivrm_dashboard.Incident.Grouping.{group_from}
use ivrm_dashboard.Backup.{BackupHistoryRun, BackupIncidentContext}
use ivrm_dashboard.Backup.Runs.{
  BackupEpisode, BackupSignalState, is_success, is_verified, seed_signal_state,
}
use ivrm_dashboard.Backup.Rounds.{recovery_at, close, failing, settled, run_step, runs_from}
use ivrm_dashboard.Backup.Episodes.{
  key_runs, keys_from, derive_run_episodes, has_episode, ended_runs, dated_key, contexts_by_key,
  add_keys, keys_of, run_order,
}

module _ ⦃runtime : Runtime⦄ (range_start : ℕ) where
  -- A recovered incident ends in the range, not before it started, and its duration is the time between.
  abbrev pub IsRecovery : RecoveredIncident → Type 0
  IsRecovery incident =
      (start recovered_at : ℕ) × (runtime.parse incident.started_at ≡ some start)
      × (runtime.parse incident.recovered_at ≡ some recovered_at)
      × (start ≤ recovered_at)
      × (range_start ≤ recovered_at)
      × (incident.duration_seconds ≡ (recovered_at - start) / 1000)

  recovery_at-IsRecovery :
      (run : BackupHistoryRun) (occurred_at recovery_reason : String) (episode : BackupEpisode)
      (start recovered_at : Option ℕ)
      → runtime.parse episode.started_at ≡ start
      → runtime.parse occurred_at ≡ recovered_at
      → All IsRecovery
          (recovery_at range_start run occurred_at recovery_reason episode start recovered_at)
  recovery_at-IsRecovery run occurred_at recovery_reason episode (some s) (some r) h k =
      elim (Bool-cases (leb s r && leb range_start r)) [
        | inl e ↦ rw e ((s, r, h, k, ground arith, ground arith, refl), tt)
        | inr e ↦ rw e tt
      ]
  recovery_at-IsRecovery run occurred_at recovery_reason episode (some s) none h k = tt
  recovery_at-IsRecovery run occurred_at recovery_reason episode none r h k = tt

  close-IsRecovery :
      (run : BackupHistoryRun) (occurred_at recovery_reason : String) (state : BackupSignalState)
      (episode : Option BackupEpisode)
      → All IsRecovery (close range_start run occurred_at recovery_reason state episode).1
  unfolding close
  close-IsRecovery run occurred_at recovery_reason state none = tt
  close-IsRecovery run occurred_at recovery_reason state (some episode) =
      elim (Bool-cases (state.run_failure || state.checksum || not (is_success run.outcome))) [
        | inl e ↦ rw e tt
        | inr e ↦ rw e (
            recovery_at-IsRecovery run occurred_at recovery_reason episode
              (runtime.parse episode.started_at) (runtime.parse occurred_at) refl refl)
      ]

  runs_from-IsRecovery :
      (state : BackupSignalState) (runs : List (String × BackupHistoryRun))
      → All IsRecovery (runs_from range_start state runs).1
  unfolding runs_from run_step
  runs_from-IsRecovery state [] = tt
  runs_from-IsRecovery state ((occurred_at, run) ∷ rest) =
      let current = run_step range_start run occurred_at state in
      let failed_state = failing run occurred_at state in
      let next = settled run failed_state in
      let reason =
        if is_verified run && failed_state.checksum
        then "Backup成功 / SHA-256 Verified"
        else "Backup成功" in
      All-append IsRecovery current.1 (runs_from range_start current.0 rest).1
        (close-IsRecovery run occurred_at reason next next.episode)
        (runs_from-IsRecovery current.0 rest)

  keys_from-IsRecovery :
      (grouped : List (String × List (String × BackupHistoryRun)))
      (contexts : List (String × BackupIncidentContext))
      (open_states : List (String × BackupSignalState)) (keys : List String)
      → All IsRecovery (keys_from range_start grouped contexts open_states keys).recovered
  unfolding keys_from key_runs
  keys_from-IsRecovery grouped contexts open_states [] = tt
  keys_from-IsRecovery grouped contexts open_states (key ∷ rest) =
      let current = key_runs range_start grouped contexts key in
      let states =
        if has_episode current.0 current.0.episode
        then set key current.0 open_states
        else open_states in
      All-append IsRecovery current.1 (keys_from range_start grouped contexts states rest).recovered
        (runs_from-IsRecovery (seed_signal_state (get key contexts))
          (sort_by run_order (or_else (get key grouped) [])))
        (keys_from-IsRecovery grouped contexts states rest)

  -- Every incident of a backup that is over is a recovery in the range.
  pub derive_run_episodes-IsRecovery :
      (history : List BackupHistoryRun) (contexts : List BackupIncidentContext)
      → All IsRecovery (derive_run_episodes range_start history contexts).recovered
  unfolding derive_run_episodes
  derive_run_episodes-IsRecovery history contexts =
      let grouped = group_from dated_key [] (ended_runs history) in
      let by_key = contexts_by_key [] contexts in
      keys_from-IsRecovery grouped by_key [] (add_keys [] (keys_of grouped ++ keys_of by_key))
