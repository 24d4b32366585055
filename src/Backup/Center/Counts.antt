-- ===== src/Backup/Center/Counts.antt =====
-- The incidents and the counts of the incident center with the incidents of the backups.
use ivrm_dashboard.Prelude.{
  ℕ, ◌+◌, ◌-◌, ◌*◌, Bool, true, List, [], ◌∷◌, ◌++◌, map, Perm, String, Runtime, some, length,
  str_eq, sort_by, insert_by, Perm-sort_by, ◌≡◌, refl, ◌∙◌, arith,
}
use ivrm_dashboard.Prelude.Bytes.{length-append}
use ivrm_dashboard.Monitoring.Types.{MonitoringSnapshot}
use ivrm_dashboard.Incident.{
  IncidentRange, IncidentSubject, ActiveIncident, RecoveredIncident, range_hours,
}
use ivrm_dashboard.Incident.Events.{MonitoringEvent, HostMonitoringEvent}
use ivrm_dashboard.Incident.Center.{
  incident_summary, active_order, recovered_order, get_incident_center_snapshot,
}
use ivrm_dashboard.Incident.Center.Counts.{
  critical_first, critical_first-sort_by, length-severities,
}
use ivrm_dashboard.Backup.Episodes.{derive_run_episodes}
use ivrm_dashboard.Backup.Active.{derive_active_backup_incidents}
use ivrm_dashboard.Backup.Center.{
  BackupResult, subject_key, subject_keys, unified_summary, get_unified_incident_center_snapshot,
}
use ivrm_dashboard.Backup.Center.Keys.{IsKeySet, subject_keys-Distinct, any-subject_keys, any-map}

length-insert_by :
    {A : Type 0} (le : A → A → Bool) (x : A) (xs : List A)
    → length (insert_by le x xs) ≡ 1 + length xs
length-insert_by le x [] = refl
length-insert_by le x (y ∷ ys) = ground (arith, length-insert_by le x ys)

length-sort_by : {A : Type 0} (le : A → A → Bool) (xs : List A) → length (sort_by le xs) ≡ length xs
length-sort_by le [] = refl
length-sort_by le (x ∷ xs) =
    omega (arith, length-insert_by le x (sort_by le xs), length-sort_by le xs)

affected-IsKeySet :
    (active : List ActiveIncident) (recovered : List RecoveredIncident)
    → IsKeySet
        (subject_keys
          (subject_keys [] (map (λ incident. incident.subject) active))
          (map (λ incident. incident.subject) recovered))
        active
        recovered
affected-IsKeySet active recovered =
    let active_subjects = map (λ (i : ActiveIncident). i.subject) active in
    let recovered_subjects = map (λ (i : RecoveredIncident). i.subject) recovered in
    (
      subject_keys-Distinct (subject_keys [] active_subjects) recovered_subjects
          (subject_keys-Distinct [] active_subjects tt),
      λ key.
          let about = λ (subject : IncidentSubject). str_eq key (subject_key subject) in
          let a = any-map about (λ (i : ActiveIncident). i.subject) active in
          let r = any-map about (λ (i : RecoveredIncident). i.subject) recovered in
          any-subject_keys key (subject_keys [] active_subjects) recovered_subjects
          ∙ rw (any-subject_keys key [] active_subjects) (rw (a, r)),
    )

-- With backups that could be fetched, the active incidents are those of hosts and containers together
-- with those of the backups, each as often as it was derived, and so are the recovered ones. Critical
-- active incidents stand before the warnings, and each active one counts as critical or as a warning.
-- The counts of active and recovered incidents are the sums of the two parts, those of the backups
-- are also given by themselves, and the affected entities are counted exactly: a key counts once
-- when some active or recovered incident has it.
pub get_unified_incident_center_snapshot-counts :
    ⦃runtime : Runtime⦄ {Number : Type 0} (range : IncidentRange) (generated : ℕ)
    (snapshot : MonitoringSnapshot Number)
    (container_events container_context : List MonitoringEvent)
    (host_events : List HostMonitoringEvent) (result : BackupResult)
    → let base =
        get_incident_center_snapshot range generated snapshot container_events container_context
          host_events in
      let episodes =
        derive_run_episodes
          (generated - range_hours range * 3600000)
          result.history
          result.contexts in
      let backups =
        derive_active_backup_incidents result.generated_at result.now episodes.open_states
          result.history result.targets in
      let center = get_unified_incident_center_snapshot range generated base (some result) in
      Perm center.active (base.active ++ backups)
      × Perm center.recovered (base.recovered ++ episodes.recovered)
      × critical_first center.active ≡ true
      × center.summary.active_critical_count + center.summary.active_warning_count
        ≡ center.summary.active_count
      × center.summary.active_count ≡ base.summary.active_count + length backups
      × center.summary.recovered_count ≡ base.summary.recovered_count + length episodes.recovered
      × center.backup_active_count ≡ length backups
      × center.backup_recovered_count ≡ length episodes.recovered
      × ((keys : List String) × (center.summary.affected_entity_count ≡ length keys)
          × IsKeySet keys center.active center.recovered)
unfolding get_unified_incident_center_snapshot unified_summary get_incident_center_snapshot
    incident_summary
get_unified_incident_center_snapshot-counts range generated snapshot container_events
      container_context host_events result =
    let base =
      get_incident_center_snapshot range generated snapshot container_events container_context
        host_events in
    let episodes =
      derive_run_episodes (generated - range_hours range * 3600000) result.history
        result.contexts in
    let backups =
      derive_active_backup_incidents result.generated_at result.now episodes.open_states
        result.history result.targets in
    let active = sort_by active_order (base.active ++ backups) in
    let recovered = sort_by recovered_order (base.recovered ++ episodes.recovered) in
    (
      Perm-sort_by active_order (base.active ++ backups),
      Perm-sort_by recovered_order (base.recovered ++ episodes.recovered),
      critical_first-sort_by (base.active ++ backups),
      length-severities active,
      length-sort_by active_order (base.active ++ backups) ∙ length-append base.active backups,
      length-sort_by recovered_order (base.recovered ++ episodes.recovered)
          ∙ length-append base.recovered episodes.recovered,
      refl,
      refl,
      (_, refl, affected-IsKeySet active recovered),
    )
