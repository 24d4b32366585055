-- ===== src/Tests/Operations.antt =====
-- Requests to apps/web/app/api/operations/jobs/route.ts.
use ivrm_dashboard.Prelude.{
  ℕ, Bool, true, false, List, [], ◌∷◌, Option, none, some, String, str_eq, if◌then◌else◌, ltb,
  length, ◌≡◌, refl,
}
use ivrm_dashboard.Prelude.Fetch.{Fetch, fetched}
use ivrm_dashboard.Prelude.Ascii.{matches}
use ivrm_dashboard.Auth.Types.{operator, get_mode}
use ivrm_dashboard.Operation.Json.{Json, json_string, json_object, field, no_fields}
use ivrm_dashboard.Operation.Catalog.{
  restart_backend, get_operation_definition, parse_operation_type, validate_operation_payload,
  validate_operation_confirmation, validate_idempotency_key,
}
use ivrm_dashboard.Operation.Body.{read_limited_json, read_from, stream_bytes, max_body_bytes}
use ivrm_dashboard.Operation.Request.{
  OperationSession, validate_request_origin, requests_enabled, resolve_operation_session,
  role_allows,
}
use ivrm_dashboard.Operation.Post.{
  EnqueueRequest, EnqueueResult, created, PostInput, post, post_session, post_body, post_action,
  post_key, allowed_action, is_target, unknown_key, answer,
}
use ivrm_dashboard.Operation.Laws.{IsAccepted, post-IsAccepted}
use ivrm_dashboard.Operation.Stream.{read_from-limit}
use ivrm_dashboard.Tests.Fixtures.{calendar}

abbrev number_exceeds : String → ℕ → Bool
number_exceeds text n = false

abbrev restart_body : Json
restart_body = json_object (
    field "target" (json_string "mc-main") (
      field "action" (json_string "restart_backend")
        (field "confirmation" (json_string "RESTART") no_fields)))

abbrev parse_json : List ℕ → Option Json
parse_json bytes = some restart_body

abbrev operator_session : OperationSession
operator_session = record {
  session_id = "s1";
  discord_user_id = "123456789012345678";
  console_role = operator;
}

abbrev live_sessions : String → Fetch (Option OperationSession)
live_sessions token = fetched (if str_eq token "token-op" then some operator_session else none)

abbrev sha256 : String → String
sha256 text = "hash"

abbrev enqueue : EnqueueRequest → Fetch EnqueueResult
enqueue request = fetched (record { outcome = created; error_code = none })

abbrev restart_input : PostInput
restart_input = record {
  origin = record {
    origin = some "https://console.example";
    host = some "console.example";
    forwarded_host = some "console.example,proxy";
    url_origin = "https://console.example";
    trusted = some (record { origin = "https://console.example"; host = "console.example" });
  };
  enabled = some "true";
  discord_mode = some "enforce";
  session_cookie = some "token-op";
  request_id = "r1";
  body_input = record {
    content_length = none;
    content_type = some "application/json; charset=utf-8";
    reads = some (some (123 ∷ []) ∷ none ∷ some (125 ∷ []) ∷ []);
    breaks = false;
  };
  idempotency_key = some "0123456789abcdef";
  audit_available = true;
}

abbrev restart_request : EnqueueRequest
restart_request = record {
  discord_session_id = "s1";
  action = restart_backend;
  idempotency_key_hash = "hash";
  confirmation = some "RESTART";
  request_id = "r1";
}

restart_test :
    (post ⦃runtime = calendar⦄ number_exceeds parse_json live_sessions sha256 enqueue
      restart_input).enqueued
    ≡ some restart_request
unfolding post validate_request_origin requests_enabled resolve_operation_session get_mode
    post_session post_body post_action post_key answer read_limited_json read_from unknown_key
    is_target allowed_action parse_operation_type role_allows get_operation_definition
    validate_operation_payload validate_operation_confirmation validate_idempotency_key matches
restart_test = refl

post-IsAccepted_example :
    IsAccepted ⦃runtime = calendar⦄ number_exceeds parse_json live_sessions sha256 enqueue
      restart_input restart_request
post-IsAccepted_example =
    post-IsAccepted ⦃runtime = calendar⦄ number_exceeds parse_json live_sessions sha256 enqueue
      restart_input restart_request restart_test

abbrev two_reads : List (Option (List ℕ))
two_reads = some (123 ∷ []) ∷ none ∷ some (125 ∷ []) ∷ []

read_from-limit_example : read_from 0 [] two_reads ≡ (
    if ltb max_body_bytes (length (stream_bytes two_reads))
    then none
    else some (stream_bytes two_reads))
read_from-limit_example = read_from-limit two_reads
