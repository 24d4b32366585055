-- ===== src/Operation/Audit.antt =====
-- What the handler POST of apps/web/app/api/operations/jobs/route.ts records.
use ivrm_dashboard.Prelude.{
  Bool, true, false, [], ◌∷◌, Option, none, some, String, if◌then◌else◌, ◌≡◌, ◌⊎◌,
}
use ivrm_dashboard.Prelude.Fetch.{Fetch}
use ivrm_dashboard.Operation.Json.{Json}
use ivrm_dashboard.Operation.Catalog.{OperationType}
use ivrm_dashboard.Operation.Body.{LimitedBody, broken}
use ivrm_dashboard.Operation.Request.{OperationSession}
use ivrm_dashboard.Operation.Post.{Denial, EnqueueRequest, PostResult, PostInput, aborted}

-- Either a denial is recorded, if the database appends it, of the user of the session and the role it
-- has, and no job is asked for; or a job is asked for and no denial is recorded; or the stream of the
-- request breaks off, and then neither is done and there is no answer.
abbrev pub IsRecorded : PostInput → OperationSession → PostResult → Type 0
IsRecorded input session result =
    ((denial : Denial) × (result.denials ≡ (if input.audit_available then denial ∷ [] else []))
      × (denial.request_id ≡ input.request_id)
      × (denial.discord_user_id ≡ session.discord_user_id)
      × (denial.role ≡ session.console_role)
      × (result.error ≡ some denial.reason)
      × (result.enqueued ≡ none))
    ⊎ ((request : EnqueueRequest) × (result.denials ≡ []) × (result.enqueued ≡ some request))
    ⊎ ((input.body_input.breaks ≡ true) × (result ≡ aborted))

abbrev denial_of : PostInput → OperationSession → Option OperationType → String → Denial
denial_of input session action reason = record {
  request_id = input.request_id;
  discord_user_id = session.discord_user_id;
  role = session.console_role;
  reason = reason;
  action = action;
}

abbrev is_broken : LimitedBody → Bool
is_broken broken = true
is_broken _ = false
