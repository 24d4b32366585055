-- ===== src/Operation/Laws.antt =====
-- What the handler POST of apps/web/app/api/operations/jobs/route.ts lets through, and what it records.
use ivrm_dashboard.Prelude.{
  ℕ, Bool, true, false, List, [], Option, none, some, String, Runtime, any, ◌≡◌, refl, sym, ◌∙◌,
  arith,
}
use ivrm_dashboard.Prelude.Fetch.{Fetch, fetched, failed}
use ivrm_dashboard.Operation.Json.{Json, JsonFields, lookup, keys}
use ivrm_dashboard.Operation.Catalog.{
  OperationType, validate_operation_payload, validate_operation_confirmation,
  validate_idempotency_key,
}
use ivrm_dashboard.Operation.Body.{LimitedBody, too_large, no_body, broken, body, read_limited_json}
use ivrm_dashboard.Operation.Request.{
  validate_request_origin, requests_enabled, OperationSession, resolve_operation_session,
  role_allows,
}
use ivrm_dashboard.Operation.Post.{
  EnqueueRequest, EnqueueResult, EnqueueOutcome, answer_outcome, created, existing, conflict,
  denied, PostInput, deny, answer, unknown_key, allowed_action, is_target, sent_confirmation,
  payload_of, post_key, post_action, post_body, post_session, post,
}

-- The parameters are in order for the operation.
abbrev pub IsOrdered : PostInput → OperationSession → JsonFields → OperationType → Type 0
IsOrdered input session entries action =
    (any unknown_key (keys entries) ≡ false)
    × (is_target (lookup "target" entries) ≡ true)
    × (allowed_action (lookup "action" entries) ≡ some action)
    × (role_allows session.console_role action ≡ true)
    × (validate_operation_payload (payload_of (lookup "payload" entries)) ≡ true)
    × (validate_operation_confirmation action (lookup "confirmation" entries) ≡ true)

outcome-enqueued :
    (request : EnqueueRequest) (outcome : EnqueueOutcome) (code : Option String)
    → ((answer_outcome request outcome code).denials ≡ [])
      × ((answer_outcome request outcome code).enqueued ≡ some request)
outcome-enqueued request created code = (refl, refl)
outcome-enqueued request existing code = (refl, refl)
outcome-enqueued request conflict code = (refl, refl)
outcome-enqueued request denied code = (refl, refl)

-- Whatever the call answers, the job was asked for, and no denial was recorded.
pub answer-enqueued :
    (request : EnqueueRequest) (result : Fetch EnqueueResult)
    → ((answer request result).denials ≡ []) × ((answer request result).enqueued ≡ some request)
unfolding answer
answer-enqueued request failed = (refl, refl)
answer-enqueued request (fetched result) = outcome-enqueued request result.outcome result.error_code

some-injective : (a b : EnqueueRequest) → some a ≡ some b → a ≡ b
some-injective a b h = ground (arith)

module _ ⦃runtime : Runtime⦄ (number_exceeds : String → ℕ → Bool)
    (parse_json : List ℕ → Option Json) (resolve_session : String → Fetch (Option OperationSession))
    (sha256 : String → String) (enqueue : EnqueueRequest → Fetch EnqueueResult) where
  -- The job that is asked for, on behalf of the session.
  abbrev pub request_of :
      PostInput → OperationSession → JsonFields → OperationType → String → EnqueueRequest
  request_of input session entries action key = record {
    discord_session_id = session.session_id;
    action = action;
    idempotency_key_hash = sha256 key;
    confirmation = sent_confirmation (lookup "confirmation" entries);
    request_id = input.request_id;
  }

  key-enqueued :
      (input : PostInput) (session : OperationSession) (entries : JsonFields)
      (action : OperationType) (key : Option String) (request : EnqueueRequest)
      → (post_key number_exceeds parse_json resolve_session sha256 enqueue input session entries
          action key).enqueued
        ≡ some request
      → (text : String) × (key ≡ some text)
        × (request ≡ request_of input session entries action text)
  unfolding post_key deny
  key-enqueued input session entries action none request h = ground (arith)
  key-enqueued input session entries action (some text) request h =
      let asked = request_of input session entries action text in
      (text, refl, some-injective request asked (sym h ∙ (answer-enqueued asked (enqueue asked)).1))

  action-enqueued :
      (input : PostInput) (session : OperationSession) (entries : JsonFields)
      (action : Option OperationType) (request : EnqueueRequest)
      → (post_action number_exceeds parse_json resolve_session sha256 enqueue input session entries
          action).enqueued
        ≡ some request
      → (t : OperationType) × (action ≡ some t)
        × (role_allows session.console_role t ≡ true)
        × (validate_operation_payload (payload_of (lookup "payload" entries)) ≡ true)
        × (validate_operation_confirmation t (lookup "confirmation" entries) ≡ true)
        × ((post_key number_exceeds parse_json resolve_session sha256 enqueue input session entries
              t
              (validate_idempotency_key input.idempotency_key)).enqueued
            ≡ some request)
  unfolding post_action deny
  action-enqueued input session entries none request h = ground (arith)
  action-enqueued input session entries (some t) request h =
      (t, refl, ground (arith), ground (arith), ground (arith), ground (arith))

  body-enqueued :
      (input : PostInput) (session : OperationSession) (read : LimitedBody)
      (request : EnqueueRequest)
      → (post_body number_exceeds parse_json resolve_session sha256 enqueue input session
          read).enqueued
        ≡ some request
      → (entries : JsonFields) × (action : OperationType) × (key : String) × (read ≡ body entries)
        × IsOrdered input session entries action
        × (validate_idempotency_key input.idempotency_key ≡ some key)
        × (request ≡ request_of input session entries action key)
  unfolding post_body deny
  body-enqueued input session too_large request h = ground (arith)
  body-enqueued input session no_body request h = ground (arith)
  body-enqueued input session broken request h = ground (arith)
  body-enqueued input session (body entries) request h =
      let (t, a, r, p, c, k) =
        action-enqueued input session entries (allowed_action (lookup "action" entries)) request
          (ground (arith)) in
      let (key, e, q) =
        key-enqueued input session entries t (validate_idempotency_key input.idempotency_key)
          request k in
      (entries, t, key, refl, (ground (arith), ground (arith), a, r, p, c), e, q)

  -- What a request needs for a job to be asked for.
  abbrev pub IsAccepted : PostInput → EnqueueRequest → Type 0
  IsAccepted input request =
      (session : OperationSession) × (entries : JsonFields) × (action : OperationType)
      × (key : String) × (validate_request_origin input.origin ≡ true)
      × (requests_enabled input.enabled ≡ true)
      × (resolve_operation_session resolve_session input.discord_mode input.session_cookie
          ≡ fetched (some session))
      × (read_limited_json number_exceeds parse_json input.body_input ≡ body entries)
      × IsOrdered input session entries action
      × (validate_idempotency_key input.idempotency_key ≡ some key)
      × (request ≡ request_of input session entries action key)

  session-enqueued :
      (input : PostInput) (found : Fetch (Option OperationSession)) (request : EnqueueRequest)
      → (post_session number_exceeds parse_json resolve_session sha256 enqueue input found).enqueued
        ≡ some request
      → (session : OperationSession) × (found ≡ fetched (some session))
        × ((post_body number_exceeds parse_json resolve_session sha256 enqueue input session
              (read_limited_json number_exceeds parse_json input.body_input)).enqueued
            ≡ some request)
  unfolding post_session
  session-enqueued input failed request h = ground (arith)
  session-enqueued input (fetched none) request h = ground (arith)
  session-enqueued input (fetched (some session)) request h = (session, refl, h)

  -- A job is asked for only if the request comes from the trusted origin and host, requests are
  -- enabled, the cookie resolves to a session, and the body is a JSON object within the limit that
  -- has no unknown key, names the target and one of the three actions of the route, and whose
  -- payload and confirmation fit the action; if the session's role reaches the one that the action
  -- requires; and if the idempotency key is well formed. The job that is asked for is then this
  -- action on behalf of this session, with the hash of that key.
  pub post-IsAccepted :
      (input : PostInput) (request : EnqueueRequest)
      → (post number_exceeds parse_json resolve_session sha256 enqueue input).enqueued
        ≡ some request
      → IsAccepted input request
  unfolding post
  post-IsAccepted input request h =
      let (session, found, b) =
        session-enqueued input
          (resolve_operation_session resolve_session input.discord_mode input.session_cookie)
          request (ground (arith)) in
      let (entries, action, key, read, ordered, k, q) =
        body-enqueued input session (read_limited_json number_exceeds parse_json input.body_input)
          request b in
      (session, entries, action, key, ground (arith), ground (arith), found, read, ordered, k, q)
