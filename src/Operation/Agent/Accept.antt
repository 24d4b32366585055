-- ===== src/Operation/Agent/Accept.antt =====
-- Which requests of an agent are accepted.
use ivrm_dashboard.Prelude.{
  ℕ, true, false, List, Option, none, some, String, eq_iff, truthy, ◌≡◌, refl, ◌↔◌, arith,
}
use ivrm_dashboard.Prelude.Bytes.{same_bytes, same-bytes, same_refl}
use ivrm_dashboard.Prelude.StringMap.{get}
use ivrm_dashboard.Prelude.Ascii.{codes, matches, is_digit, is_hex, is_name}
use ivrm_dashboard.Auth.Proxy.{HeaderMap}
use ivrm_dashboard.Operation.Agent.{
  SecretMap, ok, AgentIdentity, AgentRequest, agent_request, from_hex, signed_text, is_skewed,
  decimal, check_signature, check_request, authenticate_operation_agent_with_secrets,
}

module _ (hmac : String → List ℕ → List ℕ) (sha256_hex : List ℕ → String) where
  -- The signature of the request is the HMAC of its time, its nonce and its body under this secret.
  abbrev pub IsSigned : Option String → AgentRequest → Type 0
  IsSigned found request =
      (secret : String) × (found ≡ some secret)
      × (from_hex (codes request.signature)
          ≡ hmac secret (signed_text request.timestamp request.nonce request.raw_body))

  abbrev pub identity_of : AgentRequest → AgentIdentity
  identity_of request = record { nonce = request.nonce; body_sha256 = sha256_hex request.raw_body }

  signature_iff :
      (found : Option String) (request : AgentRequest)
      → (check_signature hmac sha256_hex found request ≡ ok (identity_of request))
        ↔ IsSigned found request
  unfolding check_signature
  signature_iff none request = ((λ h. ground (arith)), (λ (secret, e, s). ground (arith)))
  signature_iff (some secret) request =
      let expected = hmac secret (signed_text request.timestamp request.nonce request.raw_body) in
      let provided = from_hex (codes request.signature) in
      (
        (λ h. (secret, refl, same-bytes provided expected (ground (arith)))),
        (λ (other, e, s).
            let same : provided ≡ expected = ground (arith) in
            let r : same_bytes provided expected ≡ true = rw same (same_refl expected) in
            ground (arith)),
      )

  -- What `authenticateOperationAgentWithSecrets` asks of a request.
  abbrev pub IsGenuine : AgentRequest → String → SecretMap → ℕ → Type 0
  IsGenuine request expected_server_id secrets now_milliseconds =
      (request.server_id ≡ expected_server_id)
      × (matches is_name 1 64 request.server_id ≡ true)
      × (matches is_digit 10 10 request.timestamp ≡ true)
      × (is_skewed now_milliseconds (decimal 0 (codes request.timestamp)) ≡ false)
      × (matches is_hex 32 32 request.nonce ≡ true)
      × (matches is_hex 64 64 request.signature ≡ true)
      × IsSigned (truthy (get request.server_id secrets)) request

  check_iff :
      (request : AgentRequest) (expected_server_id : String) (secrets : SecretMap)
      (now_milliseconds : ℕ)
      → (check_request hmac sha256_hex request expected_server_id secrets now_milliseconds
          ≡ ok (identity_of request))
        ↔ IsGenuine request expected_server_id secrets now_milliseconds
  unfolding check_request
  check_iff request expected_server_id secrets now_milliseconds =
      let signed = signature_iff (truthy (get request.server_id secrets)) request in
      let same = eq_iff request.server_id expected_server_id in
      (
        (λ h. (
          ground (arith),
          ground (arith),
          ground (arith),
          ground (arith),
          ground (arith),
          ground (arith),
          signed.0 (ground (arith)),
        )),
        (λ (i, n, t, k, c, d, s). let ok_signature = signed.1 s in ground (arith)),
      )

  -- A request of an agent is accepted, with its nonce and the digest of its body, exactly when the id
  -- in its headers is the expected one and well formed, its time has ten digits and lies within 300
  -- seconds of the clock, nonce and signature are hexadecimal of 32 and 64 digits, the agent has a
  -- secret that is not empty, and the signature is the HMAC of time, nonce and body under that secret.
  pub authenticate_iff_IsGenuine :
      (headers : HeaderMap) (raw_body : List ℕ) (expected_server_id : String) (secrets : SecretMap)
      (now_milliseconds : ℕ)
      → (authenticate_operation_agent_with_secrets hmac sha256_hex headers raw_body
            expected_server_id secrets now_milliseconds
          ≡ ok (identity_of (agent_request headers raw_body)))
        ↔ IsGenuine (agent_request headers raw_body) expected_server_id secrets now_milliseconds
  unfolding authenticate_operation_agent_with_secrets
  authenticate_iff_IsGenuine headers raw_body expected_server_id secrets now_milliseconds =
      check_iff (agent_request headers raw_body) expected_server_id secrets now_milliseconds
