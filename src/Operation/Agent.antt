-- ===== src/Operation/Agent.antt =====
-- apps/web/lib/operation-agent-auth-core.ts: the secrets of the agents, and the check of a request that
-- an agent signs. An error is its status and code. JSON.parse, the HMAC with SHA-256 and the digest
-- of the body are parameters; times are counted from the Unix epoch, as `Date.now()` does. Of an object
-- only its own keys are in the model.
pub mod Accept
pub mod Secrets
use Prim.Native.Char.{code}
use ivrm_dashboard.Prelude.{
  ℕ, suc, ◌+◌, ◌-◌, ◌*◌, Bool, true, false, not, ◌&&◌, ◌||◌, ◌==◌, List, [], ◌∷◌, ◌++◌, Option,
  none, some, String, str_eq, if◌then◌else◌, ltb, leb, truthy, or_else,
}
use ivrm_dashboard.Prelude.Bytes.{same_bytes, utf16_length}
use ivrm_dashboard.Prelude.StringMap.{get, set}
use ivrm_dashboard.Prelude.Ascii.{codes, matches, is_digit, is_hex, is_name}
use ivrm_dashboard.Auth.Proxy.{HeaderMap}
use ivrm_dashboard.Operation.Json.{Json, json_string, json_object, JsonFields, no_fields, field}

pub data AgentResult {ℓ} (A : Type ℓ) : Type ℓ where
  ok : A → AgentResult A
  agent_error : ℕ → String → AgentResult A

abbrev pub SecretMap : Type 0
SecretMap = List (String × String)

unfoldable pub is_secret : String → Bool
is_secret text = leb 32 (utf16_length (codes text))

-- The loop of `parseAgentSecretMap`, over the entries that are left.
abbrev pub add_secret : String → Json → Option SecretMap → Option SecretMap
unfolding matches is_secret
add_secret id (json_string secret) (some rest) =
    if matches is_name 1 64 id && is_secret secret then some ((id, secret) ∷ rest) else none
add_secret id _ rest = none

unfoldable pub secrets_of : JsonFields → Option SecretMap
unfolding add_secret
secrets_of no_fields = some []
secrets_of (field id secret rest) = add_secret id secret (secrets_of rest)

abbrev pub configured : Option SecretMap → AgentResult SecretMap
configured none = agent_error 503 "service_not_configured"
configured (some secrets) = ok secrets

abbrev pub add_unless : Option String → AgentResult SecretMap → AgentResult SecretMap
add_unless none others = others
add_unless (some _) others = agent_error 503 "service_not_configured"

-- The loop of `parseAgentSecretMaps`: an id that is there is never replaced.
unfoldable pub add_all : SecretMap → SecretMap → AgentResult SecretMap
add_all result [] = ok result
add_all result ((id, secret) ∷ rest) =
    let others = add_all (set id secret result) rest in add_unless (get id result) others

module _ (parse_json : String → Option Json) where
  abbrev object_secrets : Option Json → AgentResult SecretMap
  unfolding secrets_of
  object_secrets (some (json_object entries)) = configured (secrets_of entries)
  object_secrets _ = configured none

  abbrev of_text : Option String → AgentResult SecretMap
  unfolding object_secrets
  of_text none = configured none
  of_text (some text) = object_secrets (parse_json text)

  -- `parseAgentSecretMap`
  unfoldable pub parse_agent_secret_map : Option String → AgentResult SecretMap
  unfolding of_text
  parse_agent_secret_map raw = of_text (truthy raw)

  abbrev with_extra : SecretMap → AgentResult SecretMap → AgentResult SecretMap
  unfolding add_all
  with_extra result (ok extra) = add_all result extra
  with_extra result (agent_error status reason) = agent_error status reason

  abbrev with_additional : AgentResult SecretMap → Option String → AgentResult SecretMap
  unfolding with_extra parse_agent_secret_map
  with_additional (agent_error status reason) additional = agent_error status reason
  with_additional (ok result) none = ok result
  with_additional (ok result) (some text) = with_extra result (parse_agent_secret_map (some text))

  -- `parseAgentSecretMaps`
  unfoldable pub parse_agent_secret_maps : Option String → Option String → AgentResult SecretMap
  unfolding with_additional parse_agent_secret_map
  parse_agent_secret_maps base additional =
      with_additional (parse_agent_secret_map base) (truthy additional)

-- `Number(timestamp)`, of decimal digits.
abbrev pub decimal : ℕ → List ℕ → ℕ
decimal value [] = value
decimal value (c ∷ cs) = decimal (value * 10 + (c - b'0')) cs

-- Whether the two times are more than `MAX_CLOCK_SKEW_SECONDS` apart.
abbrev pub is_skewed : ℕ → ℕ → Bool
is_skewed now_milliseconds seconds =
    ltb (seconds * 1000 + 300000) now_milliseconds
    || ltb (now_milliseconds + 300000) (seconds * 1000)

abbrev hex_digit : ℕ → ℕ
hex_digit c = if is_digit c then c - b'0' else c - b'a' + 10

-- `Buffer.from(signature, "hex")`, of lower-case hexadecimal digits.
abbrev pub from_hex : List ℕ → List ℕ
from_hex (c ∷ d ∷ rest) = (hex_digit c * 16 + hex_digit d) ∷ from_hex rest
from_hex _ = []

-- The text that is signed.
abbrev pub signed_text : String → String → List ℕ → List ℕ
signed_text timestamp nonce raw_body = codes timestamp ++ (b'.' ∷ codes nonce ++ (b'.' ∷ raw_body))

pub record AgentIdentity : Type 0 where
  pub nonce : String
  pub body_sha256 : String

-- The four headers of a request, "" where one is missing.
pub record AgentRequest : Type 0 where
  pub server_id : String
  pub timestamp : String
  pub nonce : String
  pub signature : String
  pub raw_body : List ℕ

unfoldable pub agent_request : HeaderMap → List ℕ → AgentRequest
agent_request headers raw_body = record {
  server_id = or_else (get "x-ivrm-agent-id" headers) "";
  timestamp = or_else (get "x-ivrm-timestamp" headers) "";
  nonce = or_else (get "x-ivrm-nonce" headers) "";
  signature = or_else (get "x-ivrm-signature" headers) "";
  raw_body = raw_body;
}

module _ (hmac : String → List ℕ → List ℕ) (sha256_hex : List ℕ → String) where
  unfoldable pub check_signature : Option String → AgentRequest → AgentResult AgentIdentity
  check_signature none request = agent_error 401 "unknown_agent"
  check_signature (some secret) request =
      if not (
        same_bytes (from_hex (codes request.signature))
          (hmac secret (signed_text request.timestamp request.nonce request.raw_body)))
      then agent_error 401 "invalid_signature"
      else ok (record { nonce = request.nonce; body_sha256 = sha256_hex request.raw_body })

  unfoldable pub check_request : AgentRequest → String → SecretMap → ℕ → AgentResult AgentIdentity
  unfolding check_signature matches
  check_request request expected_server_id secrets now_milliseconds =
      if not (str_eq request.server_id expected_server_id && matches is_name 1 64 request.server_id)
      then agent_error 401 "agent_id_mismatch"
      else if not (matches is_digit 10 10 request.timestamp)
      then agent_error 401 "invalid_timestamp"
      else if is_skewed now_milliseconds (decimal 0 (codes request.timestamp))
      then agent_error 401 "expired_request"
      else if not (matches is_hex 32 32 request.nonce)
      then agent_error 401 "invalid_nonce"
      else if not (matches is_hex 64 64 request.signature)
      then agent_error 401 "invalid_signature"
      else check_signature (truthy (get request.server_id secrets)) request

  -- `authenticateOperationAgentWithSecrets`
  unfoldable pub authenticate_operation_agent_with_secrets :
      HeaderMap → List ℕ → String → SecretMap → ℕ → AgentResult AgentIdentity
  unfolding check_request agent_request
  authenticate_operation_agent_with_secrets headers raw_body expected_server_id secrets
        now_milliseconds =
      check_request (agent_request headers raw_body) expected_server_id secrets now_milliseconds
