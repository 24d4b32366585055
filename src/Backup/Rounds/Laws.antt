-- ===== src/Backup/Rounds/Laws.antt =====
-- Which signals the runs of a backup leave active, and when an episode is open.
use ivrm_dashboard.Prelude.{
  ℕ, ◌+◌, Bool, true, false, not, ◌&&◌, ◌||◌, List, [], ◌∷◌, Option, none, some, String, Runtime,
  any, if◌then◌else◌, truthy, ◌≡◌, refl, ap, ◌∙◌, arith, inl, inr,
}
use ivrm_dashboard.Prelude.Tests.{Bool-cases}
use ivrm_dashboard.Incident.{IncidentSeverity}
use ivrm_dashboard.Incident.Active.{no_later}
use ivrm_dashboard.Backup.{BackupOutcome, BackupHistoryRun, BackupIncidentContext}
use ivrm_dashboard.Backup.Target.{is_true}
use ivrm_dashboard.Backup.Runs.{
  BackupEpisode, BackupSignalState, is_failed, is_success, checksum_failed_in, is_verified,
  seed_episode, seed_signal_state, first_start, is_truthy,
}
use ivrm_dashboard.Backup.Rounds.{
  raise_severity, failure_severity, failure_part, checksum_part, success_part, is_transition,
  count_event, close, failing, settled, run_step, runs_from,
}

exclusive : (outcome : BackupOutcome) → (is_failed outcome && is_success outcome) ≡ false
exclusive BackupOutcome.success = refl
exclusive BackupOutcome.failed = refl
exclusive BackupOutcome.running = refl
exclusive BackupOutcome.unknown = refl

abbrev pub is_open : Option BackupEpisode → Bool
is_open none = false
is_open (some _) = true

-- An episode is open exactly when a signal is active.
abbrev pub IsSettled : BackupSignalState → Type 0
IsSettled state = is_open state.episode ≡ (state.run_failure || state.checksum)

-- No time of a context is the empty text.
abbrev pub HasTimes : BackupIncidentContext → Type 0
HasTimes context =
    (truthy context.failure_started_at ≡ context.failure_started_at)
    × (truthy context.checksum_started_at ≡ context.checksum_started_at)

started-IsSettled :
    ⦃runtime : Runtime⦄ (context : BackupIncidentContext) (failure checksum : Option String)
    → truthy failure ≡ failure
    → truthy checksum ≡ checksum
    → is_open (seed_episode context (truthy (first_start failure checksum)))
      ≡ (is_truthy failure || is_truthy checksum)
started-IsSettled context none none h k = refl
started-IsSettled context (some failure) none h k = rw h refl
started-IsSettled context none (some checksum) h k = rw k refl
started-IsSettled ⦃runtime⦄ context (some failure) (some checksum) h k =
    elim (Bool-cases (no_later (runtime.parse failure) (runtime.parse checksum))) [
      | inl e ↦ rw (e, h) refl
      | inr e ↦ rw (e, k) (ground (arith))
    ]

pub seed_signal_state-IsSettled :
    ⦃runtime : Runtime⦄ (context : BackupIncidentContext)
    → HasTimes context
    → IsSettled (seed_signal_state (some context))
unfolding seed_signal_state
seed_signal_state-IsSettled context (h, k) =
    started-IsSettled context context.failure_started_at context.checksum_started_at h k

raise_severity-open :
    (run : BackupHistoryRun) (occurred_at : String) (severity : IncidentSeverity)
    (episode : Option BackupEpisode)
    → is_open (raise_severity run occurred_at severity episode) ≡ true
unfolding raise_severity
raise_severity-open run occurred_at severity none = refl
raise_severity-open run occurred_at severity (some episode) = refl

count_event-open :
    (transitioned : Bool) (episode : Option BackupEpisode)
    → is_open (count_event transitioned episode) ≡ is_open episode
count_event-open transitioned none = refl
count_event-open true (some episode) = refl
count_event-open false (some episode) = refl

failure-open :
    (run : BackupHistoryRun) (occurred_at : String) (state : BackupSignalState)
    → let next = failure_part run occurred_at state in
      (next.run_failure ≡ (is_failed run.outcome || state.run_failure))
      × (next.checksum ≡ state.checksum)
      × (is_open next.episode ≡ (is_open state.episode || is_failed run.outcome))
unfolding failure_part
failure-open run occurred_at state = elim (Bool-cases (is_failed run.outcome)) [
  | inl e ↦ rw e (
    refl,
    refl,
    ground (
      arith,
      raise_severity-open run occurred_at (failure_severity (state.consecutive_failures + 1))
          state.episode,
    ),
  )
  | inr e ↦ rw e (refl, refl, ground (arith))
]

checksum-open :
    (run : BackupHistoryRun) (occurred_at : String) (state : BackupSignalState)
    → let next = checksum_part run occurred_at state in
      (next.run_failure ≡ state.run_failure)
      × (next.checksum ≡ (checksum_failed_in run || state.checksum))
      × (is_open next.episode ≡ (is_open state.episode || checksum_failed_in run))
unfolding checksum_part
checksum-open run occurred_at state = elim (Bool-cases (checksum_failed_in run)) [
  | inl e ↦ rw e (
    refl,
    ground (arith),
    ground (arith, raise_severity-open run occurred_at IncidentSeverity.critical state.episode),
  )
  | inr e ↦ rw e (refl, ground (arith), ground (arith))
]

success-open :
    (run : BackupHistoryRun) (state : BackupSignalState)
    → ((success_part run state).run_failure ≡ (state.run_failure && not (is_success run.outcome)))
      × ((success_part run state).checksum ≡ (state.checksum && not (is_verified run)))
unfolding success_part
success-open run state = elim (Bool-cases (is_success run.outcome)) [
  | inl e ↦ rw e (ground (arith), refl)
  | inr e ↦ rw e (ground (arith), ground (arith))
]

still_open :
    (failure checksum fails corrupts succeeds verifies : Bool)
    → (verifies && not succeeds) ≡ false
    → (fails && succeeds) ≡ false
    → ((failure || checksum || fails || corrupts)
        && (((fails || failure) && not succeeds)
            || ((corrupts || checksum) && not verifies)
            || not succeeds))
      ≡ (((fails || failure) && not succeeds) || ((corrupts || checksum) && not verifies))
still_open failure checksum fails corrupts succeeds verifies h k = ground (arith)

verified-success : (succeeds verified : Bool) → ((succeeds && verified) && not succeeds) ≡ false
verified-success succeeds verified = ground (arith)

-- What a round does to the two signals, and to the episode before it is closed.
settled-open :
    (run : BackupHistoryRun) (occurred_at : String) (state : BackupSignalState)
    → let next = settled run (failing run occurred_at state) in
      (next.run_failure
        ≡ ((is_failed run.outcome || state.run_failure) && not (is_success run.outcome)))
      × (next.checksum ≡ ((checksum_failed_in run || state.checksum) && not (is_verified run)))
      × (is_open next.episode
          ≡ (is_open state.episode || is_failed run.outcome || checksum_failed_in run))
unfolding settled failing
settled-open run occurred_at state =
    let first = failure_part run occurred_at state in
    let second = checksum_part run occurred_at first in
    let f = failure-open run occurred_at state in
    let c = checksum-open run occurred_at first in
    let s = success-open run second in
    (
      rw (s.0, c.0, f.0) refl,
      rw (s.1, c.1, f.1) refl,
      rw (count_event-open (is_transition run second) second.episode, c.2, f.2) refl,
    )

-- Tests of a run, with its end.
abbrev pub fails : String × BackupHistoryRun → Bool
fails run = is_failed run.1.outcome

abbrev pub succeeds : String × BackupHistoryRun → Bool
succeeds run = is_success run.1.outcome

abbrev pub corrupts : String × BackupHistoryRun → Bool
corrupts run = checksum_failed_in run.1

abbrev pub verifies : String × BackupHistoryRun → Bool
verifies run = is_verified run.1

-- Some run opens what neither it nor a later run closes.
abbrev pub unresolved :
    (String × BackupHistoryRun → Bool)
    → (String × BackupHistoryRun → Bool)
    → List (String × BackupHistoryRun)
    → Bool
unresolved opens closes [] = false
unresolved opens closes (run ∷ rest) =
    (opens run && not (closes run) && not (any closes rest)) || unresolved opens closes rest

-- The same, or it was open before and no run closes it.
abbrev pub stays_open :
    Bool
    → (String × BackupHistoryRun → Bool)
    → (String × BackupHistoryRun → Bool)
    → List (String × BackupHistoryRun)
    → Bool
stays_open before opens closes runs =
    (before && not (any closes runs)) || unresolved opens closes runs

stays_open-cons :
    (before : Bool) (opens closes : String × BackupHistoryRun → Bool)
    (run : String × BackupHistoryRun) (rest : List (String × BackupHistoryRun))
    → stays_open ((opens run || before) && not (closes run)) opens closes rest
      ≡ stays_open before opens closes (run ∷ rest)
stays_open-cons before opens closes run rest = ground (arith)

module _ ⦃runtime : Runtime⦄ (range_start : ℕ) where
  close-open :
      (run : BackupHistoryRun) (occurred_at recovery_reason : String) (state : BackupSignalState)
      (episode : Option BackupEpisode)
      → is_open state.episode ≡ is_open episode
      → let next = (close range_start run occurred_at recovery_reason state episode).0 in
        (next.run_failure ≡ state.run_failure)
        × (next.checksum ≡ state.checksum)
        × (is_open next.episode ≡ (
            is_open episode
            && (state.run_failure || state.checksum || not (is_success run.outcome))))
  unfolding close
  close-open run occurred_at recovery_reason state none h = (refl, refl, h)
  close-open run occurred_at recovery_reason state (some episode) h =
      elim (Bool-cases (state.run_failure || state.checksum || not (is_success run.outcome))) [
        | inl e ↦ rw e (refl, refl, h)
        | inr e ↦ rw e (refl, refl, refl)
      ]

  run_step-open :
      (run : BackupHistoryRun) (occurred_at : String) (state : BackupSignalState)
      → IsSettled state
      → let next = (run_step range_start run occurred_at state).0 in
        (next.run_failure
          ≡ ((is_failed run.outcome || state.run_failure) && not (is_success run.outcome)))
        × (next.checksum ≡ ((checksum_failed_in run || state.checksum) && not (is_verified run)))
        × IsSettled next
  unfolding run_step
  run_step-open run occurred_at state h =
      let failed_state = failing run occurred_at state in
      let next = settled run failed_state in
      let reason =
        if is_verified run && failed_state.checksum
        then "Backup成功 / SHA-256 Verified"
        else "Backup成功" in
      let s = settled-open run occurred_at state in
      let c = close-open run occurred_at reason next next.episode refl in
      (
        c.0 ∙ s.0,
        c.1 ∙ s.1,
        rw (c.0, c.1, c.2, s.0, s.1, s.2, h)
            (still_open state.run_failure state.checksum (is_failed run.outcome)
              (checksum_failed_in run) (is_success run.outcome) (is_verified run)
              (verified-success (is_success run.outcome) (is_true run.sha256_verified))
              (exclusive run.outcome)),
      )

  -- From a state in which an episode is open exactly when a signal is active, the runs lead to such a
  -- state again. In it the signal of a failure is active exactly when a run failed, or the signal was
  -- active before, and no run succeeded since; the signal of a checksum exactly when a run had a wrong
  -- checksum, or the signal was active before, and neither that run nor a later one was verified.
  pub runs_from-open :
      (state : BackupSignalState) (runs : List (String × BackupHistoryRun))
      → IsSettled state
      → let final = (runs_from range_start state runs).0 in
        (final.run_failure ≡ stays_open state.run_failure fails succeeds runs)
        × (final.checksum ≡ stays_open state.checksum corrupts verifies runs)
        × IsSettled final
  unfolding runs_from
  runs_from-open state [] h = (ground (arith), ground (arith), h)
  runs_from-open state ((occurred_at, run) ∷ rest) h =
      let next = (run_step range_start run occurred_at state).0 in
      let s = run_step-open run occurred_at state h in
      let ih = runs_from-open next rest s.2 in
      (
        ih.0
            ∙ ap (λ active. stays_open active fails succeeds rest) s.0
            ∙ stays_open-cons state.run_failure fails succeeds (occurred_at, run) rest,
        ih.1
            ∙ ap (λ active. stays_open active corrupts verifies rest) s.1
            ∙ stays_open-cons state.checksum corrupts verifies (occurred_at, run) rest,
        ih.2,
      )
