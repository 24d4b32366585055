-- ===== src/Tests/Agents.antt =====
-- Requests of agents, as apps/web/lib/operation-agent-auth-core.ts reads them.
use ivrm_dashboard.Prelude.{
  ℕ, List, [], ◌∷◌, Option, some, String, str_eq, if◌then◌else◌, ◌≡◌, refl, ◌↔◌,
}
use ivrm_dashboard.Prelude.StringMap.{get}
use ivrm_dashboard.Prelude.Ascii.{matches}
use ivrm_dashboard.Auth.Proxy.{HeaderMap}
use ivrm_dashboard.Operation.Json.{Json, json_string, json_object, field, no_fields}
use ivrm_dashboard.Operation.Agent.{
  SecretMap, ok, agent_request, authenticate_operation_agent_with_secrets, check_request,
  check_signature, parse_agent_secret_map, parse_agent_secret_maps, secrets_of, is_secret, add_all,
}
use ivrm_dashboard.Operation.Agent.Accept.{IsGenuine, identity_of, authenticate_iff_IsGenuine}
use ivrm_dashboard.Operation.Agent.Secrets.{first_of, parse_agent_secret_maps-get}

abbrev hmac : String → List ℕ → List ℕ
hmac secret text =
    1 ∷ 35 ∷ 69 ∷ 103 ∷ 137 ∷ 171 ∷ 205 ∷ 239 ∷ 1 ∷ 35 ∷ 69 ∷ 103 ∷ 137 ∷ 171 ∷ 205 ∷ 239 ∷ 1 ∷ 35
    ∷ 69 ∷ 103 ∷ 137 ∷ 171 ∷ 205 ∷ 239 ∷ 1 ∷ 35 ∷ 69 ∷ 103 ∷ 137 ∷ 171 ∷ 205 ∷ 239 ∷ []

abbrev sha256_hex : List ℕ → String
sha256_hex bytes = "digest"

abbrev signed_headers : HeaderMap
signed_headers =
    ("x-ivrm-agent-id", "mc-main")
    ∷ ("x-ivrm-timestamp", "1785542400")
    ∷ ("x-ivrm-nonce", "0123456789abcdef0123456789abcdef")
    ∷ ("x-ivrm-signature", "0123456789abcdef0123456789abcdef0123456789abcdef0123456789abcdef")
    ∷ []

abbrev agent_secrets : SecretMap
agent_secrets = ("mc-main", "01234567890123456789012345678901") ∷ []

abbrev other_secrets : SecretMap
other_secrets = ("mc-test", "abcdefghijabcdefghijabcdefghijab") ∷ []

signed_test :
    authenticate_operation_agent_with_secrets hmac sha256_hex signed_headers
      (123 ∷ 125 ∷ [])
      "mc-main"
      agent_secrets
      1785542700000
    ≡ ok (record { nonce = "0123456789abcdef0123456789abcdef"; body_sha256 = "digest" })
unfolding authenticate_operation_agent_with_secrets check_request check_signature agent_request
    matches
signed_test = refl

authenticate_iff_IsGenuine_example :
    (authenticate_operation_agent_with_secrets hmac sha256_hex signed_headers
        (123 ∷ 125 ∷ [])
        "mc-main"
        agent_secrets
        1785542700000
      ≡ ok (identity_of hmac sha256_hex (agent_request signed_headers (123 ∷ 125 ∷ []))))
    ↔ IsGenuine hmac sha256_hex
        (agent_request signed_headers (123 ∷ 125 ∷ []))
        "mc-main"
        agent_secrets
        1785542700000
authenticate_iff_IsGenuine_example =
    authenticate_iff_IsGenuine hmac sha256_hex signed_headers (123 ∷ 125 ∷ []) "mc-main"
      agent_secrets 1785542700000

abbrev parse_json : String → Option Json
parse_json text =
    if str_eq text "base"
    then some
        (json_object (field "mc-main" (json_string "01234567890123456789012345678901") no_fields))
    else some
        (json_object (field "mc-test" (json_string "abcdefghijabcdefghijabcdefghijab") no_fields))

abbrev all_secrets : SecretMap
all_secrets =
    ("mc-main", "01234567890123456789012345678901")
    ∷ ("mc-test", "abcdefghijabcdefghijabcdefghijab")
    ∷ []

parse_agent_secret_maps-get_example :
    get "mc-test" all_secrets ≡ first_of (get "mc-test" agent_secrets) (get "mc-test" other_secrets)
unfolding parse_agent_secret_maps parse_agent_secret_map secrets_of is_secret matches add_all
parse_agent_secret_maps-get_example =
    parse_agent_secret_maps-get parse_json "base" "more" agent_secrets other_secrets all_secrets
      "mc-test" refl refl refl refl
