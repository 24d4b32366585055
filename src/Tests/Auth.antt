-- ===== src/Tests/Auth.antt =====
-- Requests and sessions of apps/web/proxy.ts and apps/web/lib/console-auth.ts.
use ivrm_dashboard.Prelude.{
  true, [], ◌∷◌, Option, none, some, String, str_eq, if◌then◌else◌, truthy, ◌≡◌, refl, ◌↔◌,
}
use ivrm_dashboard.Prelude.Fetch.{Fetch, fetched, failed}
use ivrm_dashboard.Auth.Types.{
  AccessIdentity, ConsoleUserRow, DiscordSessionRow, authenticated, is_authenticated, operator,
  administrator, can_perform_console_action, can_read_console_during_rollout, viewer, get_mode,
}
use ivrm_dashboard.Auth.Proxy.{
  HeaderMap, ProxyInput, next, proxy, access_token, with_discord_mode, with_access_mode,
  with_configuration, with_token, with_identity, continue_request, clean_request_headers,
  is_discord_public_route, request_headers,
}
use ivrm_dashboard.Auth.Session.{
  SessionInput, get_console_session, safe_discord_mode, with_cookie,
  get_console_session_from_headers, session_in_mode, session_of_identity, session_of_user,
  header_mode, header_state,
}
use ivrm_dashboard.Auth.Forged.{trusted_subject, with_header, proxy-with_header}
use ivrm_dashboard.Auth.Roles.{is_some, session-has_role}
use ivrm_dashboard.Auth.Live.{IsLive, action_iff_IsLive, read_iff_IsLive}
use ivrm_dashboard.Auth.Verified.{IsVerified}
use ivrm_dashboard.Auth.Access.{page_input, access_session-IsVerified}
use ivrm_dashboard.Tests.Fixtures.{calendar}

abbrev alice : AccessIdentity
alice = record { subject = "sub-alice"; email = "alice@example.com" }

-- The access configuration is its audience tag; one text is a valid assertion.
abbrev verify_jwt : String → String → Option AccessIdentity
verify_jwt text audience = if str_eq text "jwt-alice" then some alice else none

abbrev alice_row : ConsoleUserRow
alice_row = record {
  id = "1";
  access_subject = "sub-alice";
  email = "alice@example.com";
  display_name = none;
  role = operator;
  is_active = true;
}

abbrev users : String → Fetch (Option ConsoleUserRow)
users subject = fetched (if str_eq subject "sub-alice" then some alice_row else none)

abbrev live_row : DiscordSessionRow
live_row = record {
  discord_user_id = "123456789012345678";
  discord_username = "carol";
  discord_global_name = none;
  discord_avatar_hash = none;
  matched_role_ids = "234567890123456789" ∷ [];
  console_role = administrator;
  expires_at = "2026-08-01T01:00:00.000Z";
}

abbrev sessions : String → Fetch (Option DiscordSessionRow)
sessions token = if str_eq token "token-carol" then fetched (some live_row) else failed

abbrev request : ProxyInput
request = record {
  pathname = "/hosts";
  headers =
      ("cf-access-jwt-assertion", "jwt-alice") ∷ ("x-ivrm-access-email", "owner@example.com") ∷ [];
  session_cookie = none;
  access_mode = some "enforce";
  discord_mode = none;
}

-- The headers behind the proxy: the address that the client sent is replaced.
abbrev passed_on : HeaderMap
passed_on =
    ("cf-access-jwt-assertion", "jwt-alice")
    ∷ ("x-ivrm-access-subject", "sub-alice")
    ∷ ("x-ivrm-access-email", "alice@example.com")
    ∷ ("x-ivrm-access-mode", "enforce")
    ∷ ("x-ivrm-access-state", "verified")
    ∷ []

request_test : proxy ⦃runtime = calendar⦄ (fetched (some "aud")) verify_jwt request ≡ next passed_on
unfolding proxy with_discord_mode with_access_mode with_configuration with_token with_identity
    continue_request clean_request_headers request_headers is_discord_public_route get_mode
request_test = refl

abbrev page : SessionInput
page =
    page_input ⦃runtime = calendar⦄ (fetched (some "aud")) verify_jwt users sessions passed_on
      request

page_test : (get_console_session ⦃runtime = calendar⦄ users sessions page).status ≡ authenticated
unfolding get_console_session with_cookie safe_discord_mode get_console_session_from_headers
    session_in_mode session_of_identity session_of_user header_mode header_state get_mode
page_test = refl

proxy-with_header_example :
    proxy ⦃runtime = calendar⦄
      (fetched (some "aud"))
      verify_jwt
      (with_header trusted_subject "sub-owner" request)
    ≡ proxy ⦃runtime = calendar⦄ (fetched (some "aud")) verify_jwt request
proxy-with_header_example =
    proxy-with_header ⦃runtime = calendar⦄ (fetched (some "aud")) verify_jwt trusted_subject
      "sub-owner" request

session-has_role_example :
    is_some (get_console_session ⦃runtime = calendar⦄ users sessions page).role
    ≡ is_authenticated (get_console_session ⦃runtime = calendar⦄ users sessions page).status
session-has_role_example = session-has_role ⦃runtime = calendar⦄ users sessions page

access_session-IsVerified_example :
    IsVerified ⦃runtime = calendar⦄
      (fetched (some "aud"))
      verify_jwt
      users
      (access_token ⦃runtime = calendar⦄ request.headers)
      (get_console_session ⦃runtime = calendar⦄ users sessions page)
unfolding get_mode
access_session-IsVerified_example =
    access_session-IsVerified ⦃runtime = calendar⦄ (fetched (some "aud")) verify_jwt users sessions
      request passed_on refl request_test page_test

-- A mode that is none, and a live session.
abbrev mistyped : SessionInput
mistyped = record {
  headers = passed_on;
  session_cookie = some "token-carol";
  access_mode = none;
  discord_mode = some "enforced";
}

action_iff_IsLive_example :
    (can_perform_console_action
        (get_console_session ⦃runtime = calendar⦄ users sessions mistyped)
        operator
      ≡ true)
    ↔ IsLive ⦃runtime = calendar⦄ users sessions (truthy mistyped.session_cookie) operator
unfolding safe_discord_mode get_mode
action_iff_IsLive_example =
    action_iff_IsLive ⦃runtime = calendar⦄ users sessions mistyped operator refl

read_iff_IsLive_example :
    (can_read_console_during_rollout
        (get_console_session ⦃runtime = calendar⦄ users sessions mistyped)
      ≡ true)
    ↔ IsLive ⦃runtime = calendar⦄ users sessions (truthy mistyped.session_cookie) viewer
unfolding safe_discord_mode get_mode
read_iff_IsLive_example = read_iff_IsLive ⦃runtime = calendar⦄ users sessions mistyped refl
