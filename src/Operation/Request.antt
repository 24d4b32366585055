-- ===== src/Operation/Request.antt =====
-- What the route apps/web/app/api/operations/jobs/route.ts asks of a request before its body: the
-- origin and the session. The trusted origin and host, which `new URL` reads from the environment, are
-- data, none where this throws.
use mathlib.Core.Option
use ivrm_dashboard.Prelude.{
  Bool, false, ◌&&◌, ◌==◌, Option, none, some, String, Runtime, str_eq, opt_str_eq, if◌then◌else◌,
  truthy, or_else, leb,
}
use ivrm_dashboard.Prelude.Fetch.{Fetch, fetched, failed}
use Prim.Native.Char.{code}
use ivrm_dashboard.Auth.Types.{AccessMode, disabled, ConsoleRole, role_rank, get_mode}
use ivrm_dashboard.Operation.Catalog.{OperationType, get_operation_definition}

pub record TrustedUrl : Type 0 where
  pub origin : String
  pub host : String

pub record OriginInput : Type 0 where
  pub origin : Option String
  pub host : Option String
  pub forwarded_host : Option String
  pub url_origin : String
  pub trusted : Option TrustedUrl

-- `value.split(",")[0]`
abbrev pub before_comma : String → String
before_comma String.[] = ""
before_comma (String.◌∷◌ c s) =
    let rest = before_comma s in if code c == b',' then "" else String.◌∷◌ c rest

module _ ⦃runtime : Runtime⦄ where
  abbrev lower_host : Option String → String
  lower_host host = or_else (Option.map runtime.to_lower_case host) ""

  abbrev forwarded_or_host : OriginInput → String
  forwarded_or_host input =
      or_else
        (Option.map (λ s. runtime.to_lower_case (runtime.trim (before_comma s)))
          input.forwarded_host)
        (lower_host input.host)

  abbrev matches_trusted : Option TrustedUrl → OriginInput → Bool
  matches_trusted none input = false
  matches_trusted (some trusted) input =
      opt_str_eq (truthy input.origin) (some trusted.origin)
      && str_eq input.url_origin trusted.origin
      && str_eq (lower_host input.host) trusted.host
      && str_eq (forwarded_or_host input) trusted.host

  -- `validateRequestOrigin`
  unfoldable pub validate_request_origin : OriginInput → Bool
  validate_request_origin input = matches_trusted input.trusted input

  -- IVRM_OPERATION_REQUESTS_ENABLED is "true".
  unfoldable pub requests_enabled : Option String → Bool
  requests_enabled raw =
      opt_str_eq (Option.map (λ s. runtime.to_lower_case (runtime.trim s)) raw) (some "true")

-- The Discord session, as far as the route reads it.
pub record OperationSession : Type 0 where
  pub session_id : String
  pub discord_user_id : String
  pub console_role : ConsoleRole

module _ (resolve_session : String → Fetch (Option OperationSession)) where
  abbrev of_token : Option String → Fetch (Option OperationSession)
  of_token none = fetched none
  of_token (some token) = resolve_session token

  abbrev in_mode : Option AccessMode → Option String → Fetch (Option OperationSession)
  in_mode none cookie = failed
  in_mode (some disabled) cookie = fetched none
  in_mode (some _) cookie = of_token (truthy cookie)

  -- `resolveSession`
  unfoldable pub resolve_operation_session :
      ⦃runtime : Runtime⦄ → Option String → Option String → Fetch (Option OperationSession)
  unfolding get_mode
  resolve_operation_session discord_mode cookie = in_mode (get_mode discord_mode) cookie

-- `roleAllows`
unfoldable pub role_allows : ConsoleRole → OperationType → Bool
unfolding get_operation_definition
role_allows role t = leb (role_rank (get_operation_definition t).required_role) (role_rank role)
