-- ===== src/Auth/Proxy.antt =====
-- apps/web/proxy.ts: the headers that the pages trust, and who passes. Headers are a map from
-- lower-case names. The access configuration, which is parsed from two URLs of the environment, and
-- the verification of a JWT are parameters.
use mathlib.Core.Option
use ivrm_dashboard.Prelude.{
  ℕ, Bool, true, false, ◌||◌, List, [], ◌∷◌, Option, none, some, String, Runtime, str_eq, any,
  if◌then◌else◌, truthy,
}
use ivrm_dashboard.Prelude.StringMap.{get, set, delete}
use ivrm_dashboard.Prelude.Fetch.{Fetch, fetched, failed}
use ivrm_dashboard.Auth.Types.{
  AccessMode, disabled, report, enforce, AccessState, state_disabled, config_missing, missing,
  invalid, verified, AccessIdentity, show_mode, show_state, get_mode, is_enforce,
}

abbrev pub HeaderMap : Type 0
HeaderMap = List (String × String)

-- `ACCESS_HEADERS` and `DISCORD_PUBLIC_ROUTE_HEADER`
abbrev pub mode_header : String
mode_header = "x-ivrm-access-mode"

abbrev pub state_header : String
state_header = "x-ivrm-access-state"

abbrev pub subject_header : String
subject_header = "x-ivrm-access-subject"

abbrev pub email_header : String
email_header = "x-ivrm-access-email"

abbrev pub public_route_header : String
public_route_header = "x-ivrm-discord-public-route"

-- `isDiscordPublicRoute`
unfoldable pub is_discord_public_route : String → Bool
is_discord_public_route pathname =
    any (str_eq pathname) (
      "/login" ∷ "/api/auth/discord/start" ∷ "/api/auth/discord/callback" ∷ "/api/auth/logout" ∷ [])

-- `cleanRequestHeaders`
unfoldable pub clean_request_headers : HeaderMap → HeaderMap
clean_request_headers headers =
    delete public_route_header (
      delete email_header
        (delete subject_header (delete state_header (delete mode_header headers))))

-- What the proxy answers: the request goes on with these headers, or it is refused.
pub data ProxyOutcome : Type 0 where
  next : HeaderMap → ProxyOutcome
  access_error : ℕ → String → ProxyOutcome
  discord_authentication_required : ProxyOutcome

-- `continueRequest`
unfoldable pub continue_request : HeaderMap → AccessMode → AccessState → ProxyOutcome
continue_request headers mode state =
    next (set state_header (show_state state) (set mode_header (show_mode mode) headers))

-- The environment and the cookie that the proxy reads.
pub record ProxyInput : Type 0 where
  pub pathname : String
  pub headers : HeaderMap
  pub session_cookie : Option String
  pub access_mode : Option String
  pub discord_mode : Option String

-- The trimmed `cf-access-jwt-assertion` header, if it is not empty.
abbrev pub access_token : ⦃runtime : Runtime⦄ → HeaderMap → Option String
access_token ⦃runtime⦄ headers =
    truthy (Option.map runtime.trim (get "cf-access-jwt-assertion" headers))

abbrev has_cookie : Option String → Bool
has_cookie none = false
has_cookie (some _) = true

-- The cleaned headers, marked on a public route.
unfoldable pub request_headers : ProxyInput → HeaderMap
unfolding clean_request_headers is_discord_public_route
request_headers input =
    if is_discord_public_route input.pathname
    then set public_route_header "1" (clean_request_headers input.headers)
    else clean_request_headers input.headers

-- Under `enforce` the request is refused; under `report` it goes on in the given state.
unfoldable pub refuse_or_report : AccessMode → HeaderMap → ℕ → String → AccessState → ProxyOutcome
unfolding continue_request
refuse_or_report mode headers status code state =
    if is_enforce mode then access_error status code else continue_request headers mode state

unfoldable pub with_identity : AccessMode → HeaderMap → Option AccessIdentity → ProxyOutcome
unfolding refuse_or_report
with_identity mode headers none = refuse_or_report mode headers 403 "access_denied" invalid
with_identity mode headers (some identity) =
    continue_request (set email_header identity.email (set subject_header identity.subject headers))
      mode verified

module _ ⦃runtime : Runtime⦄ {Configuration : Type 0}
    (get_access_configuration : Fetch (Option Configuration))
    (verify_jwt : String → Configuration → Option AccessIdentity) where
  unfoldable pub with_token : AccessMode → HeaderMap → Configuration → Option String → ProxyOutcome
  unfolding with_identity
  with_token mode headers configuration none =
      refuse_or_report mode headers 403 "access_denied" missing
  with_token mode headers configuration (some token) =
      with_identity mode headers (verify_jwt token configuration)

  unfoldable pub with_configuration :
      AccessMode → HeaderMap → Option String → Fetch (Option Configuration) → ProxyOutcome
  unfolding with_token
  with_configuration mode headers token failed =
      refuse_or_report mode headers 503 "access_not_configured" config_missing
  with_configuration mode headers token (fetched none) =
      refuse_or_report mode headers 503 "access_not_configured" config_missing
  with_configuration mode headers token (fetched (some configuration)) =
      with_token mode headers configuration token

  unfoldable pub with_access_mode : Option AccessMode → HeaderMap → Option String → ProxyOutcome
  unfolding with_configuration
  with_access_mode none headers token = access_error 503 "access_not_configured"
  with_access_mode (some disabled) headers token = continue_request headers disabled state_disabled
  with_access_mode (some mode) headers token =
      with_configuration mode headers token get_access_configuration

  unfoldable pub with_discord_mode :
      Option AccessMode → Bool → HeaderMap → ProxyInput → ProxyOutcome
  unfolding with_access_mode
  with_discord_mode none public_route headers input =
      if public_route
      then continue_request headers disabled state_disabled
      else access_error 503 "access_not_configured"
  with_discord_mode (some disabled) public_route headers input =
      with_access_mode (get_mode input.access_mode) headers (access_token input.headers)
  with_discord_mode (some enforce) public_route headers input =
      if public_route || has_cookie (truthy input.session_cookie)
      then continue_request headers disabled state_disabled
      else discord_authentication_required
  with_discord_mode (some report) public_route headers input =
      if public_route
      then continue_request headers disabled state_disabled
      else with_access_mode (get_mode input.access_mode) headers (access_token input.headers)

  -- `proxy`
  unfoldable pub proxy : ProxyInput → ProxyOutcome
  unfolding with_discord_mode request_headers
  proxy input =
      with_discord_mode (get_mode input.discord_mode) (is_discord_public_route input.pathname)
        (request_headers input) input
