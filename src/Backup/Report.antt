-- ===== src/Backup/Report.antt =====
-- `parseBackupReport` of apps/web/lib/backup-report.ts, from the result of JSON.parse on: the shape of a
-- report, the times and outcomes of its runs, and the identity of the runs. `safe_integer` gives the value
-- of a literal that is a safe integer and not negative, and none for any other; `now` is `Date.now()`.
pub mod Parse
use ivrm_dashboard.Prelude.{
  ℕ, ◌+◌, ◌*◌, Bool, true, false, not, ◌&&◌, ◌||◌, List, [], ◌∷◌, ◌++◌, Option, none, some, String,
  Runtime, any, all, length, str_eq, leb, ltb, ◌==◌, if◌then◌else◌, truthy,
}
use ivrm_dashboard.Prelude.Ascii.{codes, between, is_digit, is_hex, is_name, matches}
use ivrm_dashboard.Operation.Json.{
  Json, JsonItems, JsonFields, json_null, json_boolean, json_number, json_string, json_array,
  json_object, no_items, item, no_fields, field, lookup, keys,
}
use ivrm_dashboard.Incident.{BackupType}
use ivrm_dashboard.Backup.{BackupOutcome, BackupDestination, BackupFailureCode, failure_code_text}

pub record BackupRunReport : Type 0 where
  pub run_id : String
  pub backup_target : String
  pub game_mode : String
  pub backup_type : BackupType
  pub destination_type : BackupDestination
  pub started_at : String
  pub completed_at : Option String
  pub outcome : BackupOutcome
  pub duration_seconds : Option ℕ
  pub size_bytes : Option ℕ
  pub sha256_verified : Option Bool
  pub remote_synced_at : Option String
  pub restore_tested_at : Option String
  pub retention_expires_at : Option String
  pub failure_code : Option BackupFailureCode

pub record BackupReportPayload : Type 0 where
  pub server_id : String
  pub reported_at : String
  pub runs : List BackupRunReport

-- The codes of `BackupReportError` that parsing throws.
pub data ReportError : Type 0 where
  invalid_json invalid_payload expired_request duplicate_run_id : ReportError

pub data ReportResult : Type 0 where
  refused : ReportError → ReportResult
  accepted : BackupReportPayload → ReportResult

infixl 5 ◌>>=◌
abbrev pub ◌>>=◌ : {A B : Type 0} → Option A → (A → Option B) → Option B
none >>= f = none
some a >>= f = f a

abbrev pub max_clock_skew : ℕ
max_clock_skew = 300 * 1000

abbrev pub max_age : ℕ
max_age = 90 * 24 * 60 * 60 * 1000

abbrev pub max_runs : ℕ
max_runs = 20

abbrev pub max_duration_seconds : ℕ
max_duration_seconds = 7 * 24 * 60 * 60

abbrev pub max_safe_bytes : ℕ
max_safe_bytes = 9007199254740991

abbrev in_classes : List (ℕ → Bool) → List ℕ → Bool
in_classes [] [] = true
in_classes [] (c ∷ cs) = false
in_classes (p ∷ ps) [] = false
in_classes (p ∷ ps) (c ∷ cs) = p c && in_classes ps cs

abbrev hex_digit : ℕ → Bool
hex_digit c = is_hex c || between b'A' b'F' c

abbrev hyphen : ℕ → Bool
hyphen c = c == b'-'

abbrev version_digit : ℕ → Bool
version_digit c = between b'1' b'5' c

abbrev variant_digit : ℕ → Bool
variant_digit c = c == b'8' || c == b'9' || c == b'a' || c == b'b' || c == b'A' || c == b'B'

abbrev four : List (ℕ → Bool)
four = hex_digit ∷ hex_digit ∷ hex_digit ∷ hex_digit ∷ []

abbrev three : List (ℕ → Bool)
three = hex_digit ∷ hex_digit ∷ hex_digit ∷ []

-- `UUID_PATTERN`
abbrev uuid_classes : List (ℕ → Bool)
uuid_classes =
    four
    ++ (four
        ++ (hyphen ∷ four
            ++ (hyphen ∷ version_digit ∷ three
                ++ (hyphen ∷ variant_digit ∷ three ++ (hyphen ∷ four ++ (four ++ four))))))

unfoldable pub is_uuid : String → Bool
is_uuid text = in_classes uuid_classes (codes text)

abbrev starts_alphanumeric : List ℕ → Bool
starts_alphanumeric [] = false
starts_alphanumeric (c ∷ cs) = is_digit c || between b'a' b'z' c || between b'A' b'Z' c

-- `IDENTIFIER_PATTERN`
unfoldable pub is_identifier : String → Bool
unfolding matches
is_identifier text = starts_alphanumeric (codes text) && matches is_name 1 64 text

-- A text that a pattern accepts.
abbrev pub string_in : (String → Bool) → Option Json → Option String
string_in test (some (json_string text)) = if test text then some text else none
string_in test _ = none

abbrev pub backup_type_of : String → Option BackupType
backup_type_of text =
    if str_eq text "world"
    then some BackupType.world
    else if str_eq text "config"
    then some BackupType.config
    else if str_eq text "permissions"
    then some BackupType.permissions
    else if str_eq text "full"
    then some BackupType.full
    else none

abbrev pub destination_of : String → Option BackupDestination
destination_of text =
    if str_eq text "local"
    then some BackupDestination.local
    else if str_eq text "s3"
    then some BackupDestination.s3
    else none

abbrev pub outcome_of : String → Option BackupOutcome
outcome_of text =
    if str_eq text "success"
    then some BackupOutcome.success
    else if str_eq text "failed"
    then some BackupOutcome.failed
    else if str_eq text "running"
    then some BackupOutcome.running
    else if str_eq text "unknown"
    then some BackupOutcome.unknown
    else none

abbrev code_in : List BackupFailureCode → String → Option BackupFailureCode
code_in [] text = none
code_in (code ∷ rest) text =
    let later = code_in rest text in
    if str_eq text (failure_code_text code) then some code else later

abbrev failure_codes : List BackupFailureCode
failure_codes =
    BackupFailureCode.source_unavailable ∷ BackupFailureCode.archive_failed
    ∷ BackupFailureCode.checksum_failed ∷ BackupFailureCode.remote_sync_failed
    ∷ BackupFailureCode.retention_failed ∷ BackupFailureCode.timeout
    ∷ BackupFailureCode.permission_denied ∷ BackupFailureCode.insufficient_space
    ∷ BackupFailureCode.unknown ∷ []

abbrev pub member : {A : Type 0} → (String → Option A) → Option Json → Option A
member f (some (json_string text)) = f text
member f _ = none

-- A value that is null or undefined is none; one of the wrong form fails.
abbrev pub nullable : {A : Type 0} → (Json → Option A) → Option Json → Option (Option A)
nullable f none = some none
nullable f (some json_null) = some none
nullable f (some value) = f value >>= λ a. some (some a)

abbrev pub boolean_of : Json → Option Bool
boolean_of (json_boolean b) = some b
boolean_of _ = none

abbrev pub failure_code_of : Json → Option BackupFailureCode
failure_code_of (json_string text) = code_in failure_codes text
failure_code_of _ = none

-- `hasOnlyKeys`
abbrev pub has_only_keys : List String → JsonFields → Bool
has_only_keys allowed entries = all (λ key. any (str_eq key) allowed) (keys entries)

-- `RUN_KEYS`
abbrev pub run_keys : List String
run_keys =
    "runId" ∷ "backupTarget" ∷ "gameMode" ∷ "backupType" ∷ "destinationType" ∷ "startedAt"
    ∷ "completedAt" ∷ "outcome" ∷ "durationSeconds" ∷ "sizeBytes" ∷ "sha256Verified"
    ∷ "remoteSyncedAt" ∷ "restoreTestedAt" ∷ "retentionExpiresAt" ∷ "failureCode" ∷ []

abbrev pub is_finished : BackupOutcome → Bool
is_finished BackupOutcome.success = true
is_finished BackupOutcome.failed = true
is_finished _ = false

abbrev pub is_failed : BackupOutcome → Bool
is_failed BackupOutcome.failed = true
is_failed _ = false

abbrev pub is_null : {A : Type 0} → Option A → Bool
is_null none = true
is_null (some _) = false

-- An optional time that is before another one that must be there, or in the future of the report.
abbrev pub is_misplaced : Option ℕ → Option ℕ → ℕ → Bool
is_misplaced none completed latest = false
is_misplaced (some t) none latest = true
is_misplaced (some t) (some completed) latest = ltb t completed || ltb latest t

abbrev pub is_expired : Option ℕ → Option ℕ → Bool
is_expired none completed = false
is_expired (some t) none = true
is_expired (some t) (some completed) = leb t completed

abbrev pub ends_badly : Option ℕ → ℕ → ℕ → Bool
ends_badly none started latest = false
ends_badly (some completed) started latest = ltb completed started || ltb latest completed
