-- ===== src/Auth/Forged.antt =====
-- proxy.ts against a client that sends the headers by which the proxy tells the pages who the caller is.
use ivrm_dashboard.Prelude.{Bool, Option, none, some, String, Runtime, ◌≡◌, refl}
use ivrm_dashboard.Prelude.StringMap.{get, set, delete, get-set, delete-set, delete-set_comm}
use ivrm_dashboard.Prelude.Fetch.{Fetch}
use ivrm_dashboard.Auth.Types.{AccessIdentity, AccessMode, disabled, report, enforce, get_mode}
use ivrm_dashboard.Auth.Proxy.{
  HeaderMap, mode_header, state_header, subject_header, email_header, public_route_header,
  clean_request_headers, ProxyInput, proxy, with_discord_mode, is_discord_public_route,
  request_headers,
}

-- The headers that only the proxy may write.
pub data TrustedHeader : Type 0 where
  trusted_mode trusted_state trusted_subject trusted_email trusted_route : TrustedHeader

abbrev pub header_name : TrustedHeader → String
header_name trusted_mode = mode_header
header_name trusted_state = state_header
header_name trusted_subject = subject_header
header_name trusted_email = email_header
header_name trusted_route = public_route_header

abbrev pub with_header : TrustedHeader → String → ProxyInput → ProxyInput
with_header h v input = record input { headers = set (header_name h) v input.headers }

clean-set :
    (h : TrustedHeader) (v : String) (m : HeaderMap)
    → clean_request_headers (set (header_name h) v m) ≡ clean_request_headers m
unfolding clean_request_headers
clean-set trusted_mode v m = simp (delete-set)
clean-set trusted_state v m = simp (delete-set_comm mode_header state_header v m refl, delete-set)
clean-set trusted_subject v m = simp (
  delete-set_comm mode_header subject_header v m refl,
  delete-set_comm state_header subject_header v (delete mode_header m) refl,
  delete-set,
)
clean-set trusted_email v m = simp (
  delete-set_comm mode_header email_header v m refl,
  delete-set_comm state_header email_header v (delete mode_header m) refl,
  delete-set_comm subject_header email_header v (delete state_header (delete mode_header m)) refl,
  delete-set,
)
clean-set trusted_route v m = simp (
  delete-set_comm mode_header public_route_header v m refl,
  delete-set_comm state_header public_route_header v (delete mode_header m) refl,
  delete-set_comm subject_header public_route_header v (delete state_header (delete mode_header m))
      refl,
  delete-set_comm email_header public_route_header v
      (delete subject_header (delete state_header (delete mode_header m))) refl,
  delete-set,
)

token-set :
    (h : TrustedHeader) (v : String) (m : HeaderMap)
    → get "cf-access-jwt-assertion" (set (header_name h) v m) ≡ get "cf-access-jwt-assertion" m
token-set trusted_mode v m = get-set mode_header "cf-access-jwt-assertion" v m
token-set trusted_state v m = get-set state_header "cf-access-jwt-assertion" v m
token-set trusted_subject v m = get-set subject_header "cf-access-jwt-assertion" v m
token-set trusted_email v m = get-set email_header "cf-access-jwt-assertion" v m
token-set trusted_route v m = get-set public_route_header "cf-access-jwt-assertion" v m

request_headers-with_header :
    (h : TrustedHeader) (v : String) (input : ProxyInput)
    → request_headers (with_header h v input) ≡ request_headers input
unfolding request_headers
request_headers-with_header h v input = simp (clean-set h v input.headers)

module _ ⦃runtime : Runtime⦄ {Configuration : Type 0}
    (get_access_configuration : Fetch (Option Configuration))
    (verify_jwt : String → Configuration → Option AccessIdentity) where
  mode-with_header :
      (h : TrustedHeader) (v : String) (input : ProxyInput) (mode : Option AccessMode)
      (public_route : Bool) (headers : HeaderMap)
      → with_discord_mode get_access_configuration verify_jwt mode public_route headers
          (with_header h v input)
        ≡ with_discord_mode get_access_configuration verify_jwt mode public_route headers input
  unfolding with_discord_mode
  mode-with_header h v input none public_route headers = refl
  mode-with_header h v input (some enforce) public_route headers = refl
  mode-with_header h v input (some disabled) public_route headers = rw (token-set h v input.headers)
  mode-with_header h v input (some report) public_route headers = rw (token-set h v input.headers)

  -- The answer of the proxy does not depend on what the client sends under the five headers by
  -- which the proxy tells the pages the access mode, the access state, the subject, the e-mail
  -- address and that the route is public: another value, or a value where there was none, changes
  -- neither the outcome nor any header that the request goes on with.
  pub proxy-with_header :
      (h : TrustedHeader) (v : String) (input : ProxyInput)
      → proxy get_access_configuration verify_jwt (with_header h v input)
        ≡ proxy get_access_configuration verify_jwt input
  unfolding proxy
  proxy-with_header h v input = rw (request_headers-with_header h v input) (
      mode-with_header h v input (get_mode input.discord_mode)
        (is_discord_public_route input.pathname) (request_headers input))
