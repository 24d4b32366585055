-- ===== src/Operation/Post.antt =====
-- The handler POST of apps/web/app/api/operations/jobs/route.ts, with the two calls of
-- apps/web/lib/mc-main-operations.ts that it makes: the audit entry of a denial, whose failure is
-- ignored, and the creation of the job, which is a parameter and may fail. An exception of the request's
-- stream leaves the handler.
use ivrm_dashboard.Prelude.{
  ℕ, Bool, false, not, ◌||◌, ◌==◌, List, [], ◌∷◌, Option, none, some, String, Runtime, str_eq, any,
  if◌then◌else◌, truthy, or_else,
}
use ivrm_dashboard.Prelude.Fetch.{Fetch, fetched, failed}
use ivrm_dashboard.Prelude.Ascii.{matches, is_digit, between}
use ivrm_dashboard.Auth.Types.{ConsoleRole}
use ivrm_dashboard.Operation.Json.{
  Json, json_null, json_string, json_object, JsonFields, no_fields, lookup, keys,
}
use ivrm_dashboard.Operation.Catalog.{
  OperationType, parse_operation_type, validate_operation_payload, validate_operation_confirmation,
  validate_idempotency_key,
}
use ivrm_dashboard.Operation.Body.{
  LimitedBody, too_large, no_body, broken, body, BodyInput, read_limited_json,
}
use ivrm_dashboard.Operation.Request.{
  OriginInput, validate_request_origin, requests_enabled, OperationSession,
  resolve_operation_session, role_allows,
}

-- The entry that `recordOperationRequestDenied` asks the database to append.
pub record Denial : Type 0 where
  pub request_id : String
  pub discord_user_id : String
  pub role : ConsoleRole
  pub reason : String
  pub action : Option OperationType

pub record EnqueueRequest : Type 0 where
  pub discord_session_id : String
  pub action : OperationType
  pub idempotency_key_hash : String
  pub confirmation : Option String
  pub request_id : String

pub data EnqueueOutcome : Type 0 where
  created existing conflict denied : EnqueueOutcome

pub record EnqueueResult : Type 0 where
  pub outcome : EnqueueOutcome
  pub error_code : Option String

-- The entries that were appended, the job that was asked for, and the answer: no status where an
-- exception leaves the handler.
pub record PostResult : Type 0 where
  pub denials : List Denial
  pub enqueued : Option EnqueueRequest
  pub status : Option ℕ
  pub error : Option String

pub record PostInput : Type 0 where
  pub origin : OriginInput
  pub enabled : Option String
  pub discord_mode : Option String
  pub session_cookie : Option String
  pub request_id : String
  pub body_input : BodyInput
  pub idempotency_key : Option String
  -- Whether the database appends the audit entry of this request.
  pub audit_available : Bool

-- `[a-z0-9._:-]`
abbrev is_reason_character : ℕ → Bool
is_reason_character c =
    is_digit c || between b'a' b'z' c || c == b'.' || c == b'_' || c == b':' || c == b'-'

-- `recordOperationRequestDenied`, with the entries that it leaves; a failed append is ignored.
unfoldable pub record_operation_request_denied : Bool → Denial → List Denial
unfolding matches
record_operation_request_denied audit_available denial =
    if not (matches is_reason_character 1 120 denial.reason)
    then []
    else if audit_available
    then denial ∷ []
    else []

-- A refusal before there is a session, or of the call that creates the job.
abbrev pub refuse : ℕ → String → PostResult
refuse status reason = record {
  denials = [];
  enqueued = none;
  status = some status;
  error = some reason;
}

-- An exception leaves the handler.
abbrev pub aborted : PostResult
aborted = record { denials = []; enqueued = none; status = none; error = none }

-- A refusal that is recorded.
unfoldable pub deny : PostInput → OperationSession → Option OperationType → ℕ → String → PostResult
unfolding record_operation_request_denied
deny input session action status reason = record {
  denials = record_operation_request_denied input.audit_available (record {
    request_id = input.request_id;
    discord_user_id = session.discord_user_id;
    role = session.console_role;
    reason = reason;
    action = action;
  });
  enqueued = none;
  status = some status;
  error = some reason;
}

-- A key of the body that the handler does not know.
unfoldable pub unknown_key : String → Bool
unknown_key key = not (any (str_eq key) ("target" ∷ "action" ∷ "confirmation" ∷ "payload" ∷ []))

-- `MC_MAIN_OPERATION_ACTIONS`
abbrev pub main_operation_actions : List String
main_operation_actions = "start_backend" ∷ "restart_backend" ∷ "stop_backend" ∷ []

-- The operation that the body asks for, if the route allows it: `isAllowedAction` and
-- `isOperationType`.
unfoldable pub allowed_action : Option Json → Option OperationType
unfolding parse_operation_type
allowed_action (some (json_string text)) =
    if any (str_eq text) main_operation_actions then parse_operation_type text else none
allowed_action _ = none

-- Whether the field is the string "mc-main".
unfoldable pub is_target : Option Json → Bool
is_target (some (json_string text)) = str_eq text "mc-main"
is_target _ = false

-- The confirmation that is sent on: a string that is not empty.
abbrev pub sent_confirmation : Option Json → Option String
sent_confirmation (some (json_string text)) = truthy (some text)
sent_confirmation _ = none

-- `body.payload ?? {}`
abbrev pub payload_of : Option Json → Json
payload_of none = json_object no_fields
payload_of (some json_null) = json_object no_fields
payload_of (some value) = value

abbrev is_insufficient : Option String → Bool
is_insufficient none = false
is_insufficient (some code) = str_eq code "insufficient_role"

-- The answer to a job that is created, that exists, or that the database refuses.
abbrev pub answer_outcome : EnqueueRequest → EnqueueOutcome → Option String → PostResult
answer_outcome request created code = record {
  denials = [];
  enqueued = some request;
  status = some 201;
  error = none;
}
answer_outcome request existing code = record {
  denials = [];
  enqueued = some request;
  status = some 200;
  error = none;
}
answer_outcome request conflict code = record {
  denials = [];
  enqueued = some request;
  status = some 409;
  error = some (or_else code "operation_conflict");
}
answer_outcome request denied code = record {
  denials = [];
  enqueued = some request;
  status = some (if is_insufficient code then 403 else 400);
  error = some (or_else code "operation_denied");
}

unfoldable pub answer : EnqueueRequest → Fetch EnqueueResult → PostResult
answer request failed = record {
  denials = [];
  enqueued = some request;
  status = some 503;
  error = some "operation_enqueue_failed";
}
answer request (fetched result) = answer_outcome request result.outcome result.error_code

module _ ⦃runtime : Runtime⦄ (number_exceeds : String → ℕ → Bool)
    (parse_json : List ℕ → Option Json) (resolve_session : String → Fetch (Option OperationSession))
    (sha256 : String → String) (enqueue : EnqueueRequest → Fetch EnqueueResult) where
  unfoldable pub post_key :
      PostInput → OperationSession → JsonFields → OperationType → Option String → PostResult
  unfolding deny answer
  post_key input session entries action none =
      deny input session (some action) 400 "idempotency_invalid"
  post_key input session entries action (some key) =
      let request : EnqueueRequest = record {
        discord_session_id = session.session_id;
        action = action;
        idempotency_key_hash = sha256 key;
        confirmation = sent_confirmation (lookup "confirmation" entries);
        request_id = input.request_id;
      } in
      answer request (enqueue request)

  unfoldable pub post_action :
      PostInput → OperationSession → JsonFields → Option OperationType → PostResult
  unfolding post_key deny
  post_action input session entries none = deny input session none 400 "action_not_allowed"
  post_action input session entries (some action) =
      if not (role_allows session.console_role action)
      then deny input session (some action) 403 "insufficient_role"
      else if not (validate_operation_payload (payload_of (lookup "payload" entries)))
      then deny input session (some action) 400 "payload_not_allowed"
      else if not (validate_operation_confirmation action (lookup "confirmation" entries))
      then deny input session (some action) 400 "confirmation_invalid"
      else post_key input session entries action (validate_idempotency_key input.idempotency_key)

  unfoldable pub post_body : PostInput → OperationSession → LimitedBody → PostResult
  unfolding post_action deny
  post_body input session too_large = deny input session none 413 "request_body_too_large"
  post_body input session broken = aborted
  post_body input session no_body = deny input session none 400 "request_body_invalid"
  post_body input session (body entries) =
      if any unknown_key (keys entries)
      then deny input session none 400 "request_body_invalid"
      else if not (is_target (lookup "target" entries))
      then deny input session none 400 "target_not_allowed"
      else post_action input session entries (allowed_action (lookup "action" entries))

  unfoldable pub post_session : PostInput → Fetch (Option OperationSession) → PostResult
  unfolding post_body
  post_session input failed = refuse 503 "session_unavailable"
  post_session input (fetched none) = refuse 401 "discord_authentication_required"
  post_session input (fetched (some session)) =
      post_body input session (read_limited_json number_exceeds parse_json input.body_input)

  -- `POST`
  unfoldable pub post : PostInput → PostResult
  unfolding post_session
  post input =
      if not (validate_request_origin input.origin)
      then refuse 403 "origin_or_host_mismatch"
      else if not (requests_enabled input.enabled)
      then refuse 503 "operation_requests_disabled"
      else post_session input
          (resolve_operation_session resolve_session input.discord_mode input.session_cookie)
