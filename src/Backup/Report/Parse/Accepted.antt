-- ===== src/Backup/Report/Parse/Accepted.antt =====
-- What holds of a report that is accepted.
use ivrm_dashboard.Prelude.{
  ℕ, ◌+◌, ◌≤◌, Bool, true, false, not, ◌||◌, List, [], Option, none, some, String, Runtime, All,
  length, if◌then◌else◌, ◌≡◌, refl, sym, ap, ◌∙◌, arith, ltb,
}
use ivrm_dashboard.Operation.Json.{
  Json, JsonItems, json_null, json_boolean, json_number, json_string, json_array, json_object,
  lookup,
}
use ivrm_dashboard.Prelude.Ascii.{matches, is_name}
use ivrm_dashboard.Backup.Report.{
  BackupRunReport, BackupReportPayload, ReportError, ReportResult, invalid_payload, expired_request,
  duplicate_run_id, refused, accepted, max_clock_skew, max_runs, has_only_keys, member,
}
use ivrm_dashboard.Backup.Report.Parse.{
  report_keys, items_of, count_items, has_duplicate, normalize_runs, finish, with_time,
  with_members, parse_backup_report,
}
use ivrm_dashboard.Backup.Report.Parse.Laws.{
  IsDistinct, IsSound, IsDistinct-has_duplicate, normalize_runs-AreSound,
}

-- A guard of an accepted report did not refuse.
reached :
    (t : Bool) (code : ReportError) (result : ReportResult) (payload : BackupReportPayload)
    → (if t then refused code else result) ≡ accepted payload
    → (t ≡ false) × (result ≡ accepted payload)
reached true code result payload h = absurd (cc)
reached false code result payload h = (refl, h)

module _ ⦃runtime : Runtime⦄ where
  -- An accepted report.
  abbrev pub IsAcceptable : ℕ → BackupReportPayload → Type 0
  IsAcceptable now payload =
      (report_time : ℕ) × (runtime.parse payload.reported_at ≡ some report_time)
      × (now ≤ report_time + max_clock_skew)
      × (report_time ≤ now + max_clock_skew)
      × (1 ≤ length payload.runs)
      × (length payload.runs ≤ max_runs)
      × IsDistinct payload.runs
      × All (IsSound report_time) payload.runs

module _ ⦃runtime : Runtime⦄ (safe_integer : String → Option ℕ) where
  finish-accepted :
      (server_id reported_at : String) (runs : Option (List BackupRunReport))
      (payload : BackupReportPayload)
      → finish server_id reported_at runs ≡ accepted payload
      → (runs ≡ some payload.runs)
        × (payload.reported_at ≡ reported_at)
        × (has_duplicate [] payload.runs ≡ false)
  unfolding finish
  finish-accepted server_id reported_at none payload h = absurd (cc)
  finish-accepted server_id reported_at (some runs) payload h =
      let built : BackupReportPayload = record {
        server_id = server_id;
        reported_at = reported_at;
        runs = runs;
      } in
      let r = reached (has_duplicate [] runs) duplicate_run_id (accepted built) payload h in
      let e : built ≡ payload = cc in
      (
        ap (λ q. some q.runs) e,
        ap (λ q. q.reported_at) (sym e),
        ap (λ q. has_duplicate [] q.runs) (sym e) ∙ r.0,
      )

  with_time-IsAcceptable :
      (now : ℕ) (server_id reported_at : String) (items : JsonItems) (report_time : Option ℕ)
      (payload : BackupReportPayload)
      → runtime.parse reported_at ≡ report_time
      → with_time safe_integer now server_id reported_at items report_time ≡ accepted payload
      → IsAcceptable now payload
  unfolding with_time
  with_time-IsAcceptable now server_id reported_at items none payload p h = absurd (cc)
  with_time-IsAcceptable now server_id reported_at items (some report_time) payload p h =
      let count = ltb (count_items items) 1 || ltb max_runs (count_items items) in
      let skewed =
        ltb (report_time + max_clock_skew) now || ltb (now + max_clock_skew) report_time in
      let parsed = normalize_runs safe_integer report_time items in
      let last = finish server_id reported_at parsed in
      let a =
        reached count invalid_payload (if skewed then refused expired_request else last) payload
          h in
      let b = reached skewed expired_request last payload a.1 in
      let c = finish-accepted server_id reported_at parsed payload b.1 in
      let s = normalize_runs-AreSound safe_integer report_time items payload.runs c.0 in
      (
        report_time,
        ap runtime.parse c.1 ∙ p,
        ground (arith, b.0),
        ground (arith, b.0),
        ground (arith, a.0, s.1),
        ground (arith, a.0, s.1),
        IsDistinct-has_duplicate [] payload.runs c.2,
        s.0,
      )

  with_members-IsAcceptable :
      (now : ℕ) (only_keys : Bool) (server_id reported_at : Option String)
      (items : Option JsonItems) (payload : BackupReportPayload)
      → with_members safe_integer now only_keys server_id reported_at items ≡ accepted payload
      → IsAcceptable now payload
  unfolding with_members
  with_members-IsAcceptable now only_keys (some server_id) (some reported_at) (some items) payload
        h =
      let a =
        reached (not only_keys || not (matches is_name 1 64 server_id)) invalid_payload
          (with_time safe_integer now server_id reported_at items (runtime.parse reported_at))
          payload h in
      with_time-IsAcceptable now server_id reported_at items (runtime.parse reported_at) payload
        refl a.1
  with_members-IsAcceptable now only_keys none reported_at items payload h = absurd (cc)
  with_members-IsAcceptable now only_keys (some _) none items payload h = absurd (cc)
  with_members-IsAcceptable now only_keys (some _) (some _) none payload h = absurd (cc)

  -- A report that is accepted was made within five minutes of now, and has 1 to 20 runs with different
  -- ids. Each run started at most 90 days before the report and at most five minutes after it; it has an
  -- end, not before its start, and a duration exactly when it succeeded or failed, and a failure code
  -- exactly when it failed; no sync and no restore test comes before its end, its retention lasts beyond
  -- it, and none of end, sync and test is later than five minutes after the report.
  pub parse_backup_report-IsAcceptable :
      (now : ℕ) (value : Option Json) (payload : BackupReportPayload)
      → parse_backup_report safe_integer now value ≡ accepted payload
      → IsAcceptable now payload
  unfolding parse_backup_report
  parse_backup_report-IsAcceptable now none payload h = absurd (cc)
  parse_backup_report-IsAcceptable now (some (json_object entries)) payload h =
      with_members-IsAcceptable now (has_only_keys report_keys entries)
        (member some (lookup "serverId" entries)) (member some (lookup "reportedAt" entries))
        (items_of (lookup "runs" entries)) payload h
  parse_backup_report-IsAcceptable now (some json_null) payload h = absurd (cc)
  parse_backup_report-IsAcceptable now (some (json_boolean _)) payload h = absurd (cc)
  parse_backup_report-IsAcceptable now (some (json_number _)) payload h = absurd (cc)
  parse_backup_report-IsAcceptable now (some (json_string _)) payload h = absurd (cc)
  parse_backup_report-IsAcceptable now (some (json_array _)) payload h = absurd (cc)
