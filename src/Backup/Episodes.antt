-- ===== src/Backup/Episodes.antt =====
-- `deriveRunEpisodes` of apps/web/lib/unified-incidents.ts, over the history of all backups: the runs are
-- grouped by the kind of backup, and each group starts from what was open before the history.
pub mod Laws
use ivrm_dashboard.Prelude.{
  ℕ, Bool, true, false, ◌&&◌, ◌||◌, List, [], ◌∷◌, ◌++◌, map, Option, none, some, String, Runtime,
  or_else, if◌then◌else◌, truthy, sort_by,
}
use ivrm_dashboard.Prelude.StringMap.{get, set}
use ivrm_dashboard.Incident.{RecoveredIncident}
use ivrm_dashboard.Incident.Grouping.{group_from, in_order}
use ivrm_dashboard.Incident.Center.{add_key}
use ivrm_dashboard.Backup.{BackupHistoryRun, BackupIncidentContext}
use ivrm_dashboard.Backup.Runs.{
  BackupEpisode, BackupSignalState, is_failed, is_success, run_key, context_key, seed_signal_state,
}
use ivrm_dashboard.Backup.Rounds.{runs_from}

pub record BackupRunEpisodes : Type 0 where
  pub recovered : List RecoveredIncident
  pub open_states : List (String × BackupSignalState)

abbrev dated : BackupHistoryRun → Option String → List (String × BackupHistoryRun)
dated run none = []
dated run (some completed_at) =
    if is_success run.outcome || is_failed run.outcome then (completed_at, run) ∷ [] else []

-- The runs that have ended, each with its end.
abbrev pub ended_runs : List BackupHistoryRun → List (String × BackupHistoryRun)
ended_runs [] = []
ended_runs (run ∷ rest) = dated run (truthy run.completed_at) ++ ended_runs rest

abbrev pub dated_key : String × BackupHistoryRun → String
dated_key (completed_at, run) = run_key run

-- `contextsByKey`
abbrev pub contexts_by_key :
    List (String × BackupIncidentContext)
    → List BackupIncidentContext
    → List (String × BackupIncidentContext)
contexts_by_key m [] = m
contexts_by_key m (context ∷ rest) = contexts_by_key (set (context_key context) context m) rest

-- `new Set(…)`, of a list of keys
abbrev pub add_keys : List String → List String → List String
add_keys keys [] = keys
add_keys keys (key ∷ rest) = add_keys (add_key key keys) rest

abbrev pub keys_of : {A : Type 0} → List (String × A) → List String
keys_of [] = []
keys_of ((key, a) ∷ rest) = key ∷ keys_of rest

abbrev pub has_episode : BackupSignalState → Option BackupEpisode → Bool
has_episode state none = false
has_episode state (some episode) = state.run_failure || state.checksum

module _ ⦃runtime : Runtime⦄ where
  abbrev pub run_order : String × BackupHistoryRun → String × BackupHistoryRun → Bool
  run_order (left_at, left) (right_at, right) =
      in_order (runtime.parse left_at) (runtime.parse right_at) left.row_id right.row_id

module _ ⦃runtime : Runtime⦄ (range_start : ℕ) where
  -- The runs of one key in their order, after its context.
  unfoldable pub key_runs :
      List (String × List (String × BackupHistoryRun))
      → List (String × BackupIncidentContext)
      → String
      → BackupSignalState × List RecoveredIncident
  unfolding seed_signal_state runs_from
  key_runs grouped contexts key =
      runs_from range_start (seed_signal_state (get key contexts))
        (sort_by run_order (or_else (get key grouped) []))

  -- The loop over the keys.
  unfoldable pub keys_from :
      List (String × List (String × BackupHistoryRun))
      → List (String × BackupIncidentContext)
      → List (String × BackupSignalState)
      → List String
      → BackupRunEpisodes
  unfolding key_runs
  keys_from grouped contexts open_states [] = record { recovered = []; open_states = open_states }
  keys_from grouped contexts open_states (key ∷ rest) =
      let current = key_runs grouped contexts key in
      let later =
        keys_from grouped contexts
          (if has_episode current.0 current.0.episode
            then set key current.0 open_states
            else open_states)
          rest in
      record later { recovered = current.1 ++ later.recovered }

  -- `deriveRunEpisodes`
  unfoldable pub derive_run_episodes :
      List BackupHistoryRun → List BackupIncidentContext → BackupRunEpisodes
  unfolding keys_from group_from
  derive_run_episodes history contexts =
      let grouped = group_from dated_key [] (ended_runs history) in
      let by_key = contexts_by_key [] contexts in
      keys_from grouped by_key [] (add_keys [] (keys_of grouped ++ keys_of by_key))
