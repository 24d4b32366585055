-- ===== src/Auth/Roles.antt =====
-- The role of a session of console-auth.ts, over every way in which it comes about.
use ivrm_dashboard.Prelude.{
  Bool, true, false, Option, none, some, String, Runtime, truthy, ◌≡◌, refl, arith,
}
use ivrm_dashboard.Prelude.Fetch.{Fetch, fetched, failed}
use ivrm_dashboard.Auth.Types.{
  AccessMode, disabled, report, enforce, AccessState, verified, ConsoleSession, ConsoleUserRow,
  DiscordSessionRow, is_authenticated,
}
use ivrm_dashboard.Auth.Session.{
  session_of_user, session_of_identity, session_in_mode, get_console_session_from_headers,
  without_discord, with_resolved, with_cookie, get_console_session, SessionInput, safe_discord_mode,
  header_mode,
}
use ivrm_dashboard.Auth.Proxy.{HeaderMap}

abbrev pub is_some : {A : Type 0} → Option A → Bool
is_some none = false
is_some (some _) = true

abbrev HasRole : ConsoleSession → Type 0
HasRole session = is_some session.role ≡ is_authenticated session.status

user-HasRole :
    (mode : AccessMode) (state : AccessState) (discord_mode : AccessMode) (s e : String)
    (found : Fetch (Option ConsoleUserRow))
    → HasRole (session_of_user mode state discord_mode s e found)
unfolding session_of_user
user-HasRole mode state discord_mode s e failed = refl
user-HasRole mode state discord_mode s e (fetched none) = refl
user-HasRole mode state discord_mode s e (fetched (some user)) = ground (arith)

module _ ⦃runtime : Runtime⦄ (find_console_user : String → Fetch (Option ConsoleUserRow))
    (resolve_session : String → Fetch (Option DiscordSessionRow)) where
  identity-HasRole :
      (mode : AccessMode) (state : AccessState) (discord_mode : AccessMode) (s e : Option String)
      → HasRole (session_of_identity find_console_user mode state discord_mode s e)
  unfolding session_of_identity
  identity-HasRole mode verified discord_mode (some s) (some e) =
      user-HasRole mode verified discord_mode s e (find_console_user s)
  identity-HasRole mode _ discord_mode _ _ = refl

  mode-HasRole :
      (mode : Option AccessMode) (discord_mode : AccessMode) (headers : HeaderMap)
      → HasRole (session_in_mode find_console_user mode discord_mode headers)
  unfolding session_in_mode
  mode-HasRole none discord_mode headers = refl
  mode-HasRole (some disabled) discord_mode headers = refl
  mode-HasRole (some report) discord_mode headers = identity-HasRole report _ discord_mode _ _
  mode-HasRole (some enforce) discord_mode headers = identity-HasRole enforce _ discord_mode _ _

  headers-HasRole :
      (input : SessionInput)
      → HasRole (get_console_session_from_headers find_console_user resolve_session input)
  unfolding get_console_session_from_headers
  headers-HasRole input =
      mode-HasRole (header_mode input.headers input.access_mode)
        (safe_discord_mode input.discord_mode) input.headers

  without-HasRole :
      (discord_mode : AccessMode) (input : SessionInput)
      → HasRole (without_discord find_console_user resolve_session discord_mode input)
  unfolding without_discord
  without-HasRole disabled input = headers-HasRole input
  without-HasRole report input = headers-HasRole input
  without-HasRole enforce input = refl

  resolved-HasRole :
      (discord_mode : AccessMode) (found : Fetch (Option DiscordSessionRow)) (input : SessionInput)
      → HasRole (with_resolved find_console_user resolve_session discord_mode found input)
  unfolding with_resolved
  resolved-HasRole disabled failed input = without-HasRole disabled input
  resolved-HasRole report failed input = without-HasRole report input
  resolved-HasRole enforce failed input = refl
  resolved-HasRole discord_mode (fetched none) input = without-HasRole discord_mode input
  resolved-HasRole discord_mode (fetched (some row)) input = refl

  cookie-HasRole :
      (discord_mode : AccessMode) (cookie : Option String) (input : SessionInput)
      → HasRole (with_cookie find_console_user resolve_session discord_mode cookie input)
  unfolding with_cookie
  cookie-HasRole disabled cookie input = headers-HasRole input
  cookie-HasRole report none input = without-HasRole report input
  cookie-HasRole enforce none input = without-HasRole enforce input
  cookie-HasRole report (some token) input = resolved-HasRole report (resolve_session token) input
  cookie-HasRole enforce (some token) input = resolved-HasRole enforce (resolve_session token) input

  -- A console session has a role exactly when it is authenticated, whatever way it came about:
  -- refused, unknown and failed lookups never leave a role behind.
  pub session-has_role :
      (input : SessionInput)
      → is_some (get_console_session find_console_user resolve_session input).role
        ≡ is_authenticated (get_console_session find_console_user resolve_session input).status
  unfolding get_console_session
  session-has_role input =
      cookie-HasRole (safe_discord_mode input.discord_mode) (truthy input.session_cookie) input
