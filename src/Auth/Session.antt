-- ===== src/Auth/Session.antt =====
-- apps/web/lib/console-auth.ts: who the caller of a page or an API route is. The two database calls
-- (findConsoleUser, resolveDiscordConsoleSession) are parameters, which may fail. A header reader is
-- the map of the request's headers, and the three values of the environment and the cookie are data.
use mathlib.Core.Option
use ivrm_dashboard.Prelude.{
  ℕ, Bool, false, not, ◌&&◌, ◌==◌, opt_str_eq, List, [], ◌∷◌, Option, none, some, String, Runtime,
  str_eq, concat, if◌then◌else◌, truthy, or_else,
}
use ivrm_dashboard.Prelude.StringMap.{get}
use ivrm_dashboard.Prelude.Fetch.{Fetch, fetched, failed}
use ivrm_dashboard.Prelude.Ascii.{codes, matches, is_digit}
use ivrm_dashboard.Auth.Types.{
  AccessMode, disabled, enforce, AccessState, state_disabled, config_missing, missing, verified,
  ConsoleAuthProvider, discord, cloudflare_access, none_provided, ConsoleSessionStatus,
  status_disabled, unauthenticated, unregistered, inactive, identity_mismatch, authenticated, error,
  ConsoleSession, ConsoleUserRow, DiscordSessionRow, parse_mode, parse_state, get_mode, is_enforce,
}
use ivrm_dashboard.Auth.Proxy.{
  HeaderMap, mode_header, state_header, subject_header, email_header, public_route_header,
}

-- A session without a user: no role and none of the Discord fields.
abbrev pub no_session :
    AccessMode
    → AccessState
    → AccessMode
    → ConsoleAuthProvider
    → ConsoleSessionStatus
    → Option String
    → ConsoleSession
no_session mode access_state discord_mode provider status email = record {
  mode = mode;
  access_state = access_state;
  discord_mode = discord_mode;
  auth_provider = provider;
  status = status;
  email = email;
  display_name = none;
  role = none;
  discord_user_id = none;
  discord_username = none;
  discord_avatar_url = none;
  matched_discord_role_ids = [];
  session_expires_at = none;
}

-- The answer for a row of console_users, or none, found for `subject`.
unfoldable pub session_of_user :
    AccessMode
    → AccessState
    → AccessMode
    → String
    → String
    → Fetch (Option ConsoleUserRow)
    → ConsoleSession
session_of_user mode access_state discord_mode subject email failed =
    no_session mode access_state discord_mode cloudflare_access error (some email)
session_of_user mode access_state discord_mode subject email (fetched none) =
    no_session mode access_state discord_mode cloudflare_access unregistered (some email)
session_of_user mode access_state discord_mode subject email (fetched (some user)) =
    if not (str_eq user.email email && str_eq user.access_subject subject)
    then no_session mode access_state discord_mode cloudflare_access identity_mismatch (some email)
    else if not user.is_active
    then record (no_session mode access_state discord_mode cloudflare_access inactive
        (some email)) { display_name = user.display_name }
    else record (no_session mode access_state discord_mode cloudflare_access authenticated
        (some email)) { display_name = user.display_name; role = some user.role }

-- The mode that the proxy wrote, or that of the environment, if it is one.
abbrev either_mode : Option AccessMode → Option AccessMode → Option AccessMode
either_mode none other = other
either_mode (some mode) other = some mode

abbrev then_parse : {A : Type 0} → (String → Option A) → Option String → Option A
then_parse f none = none
then_parse f (some raw) = f raw

unfoldable pub header_mode : ⦃runtime : Runtime⦄ → HeaderMap → Option String → Option AccessMode
unfolding get_mode
header_mode headers access_mode =
    either_mode (then_parse parse_mode (get mode_header headers)) (get_mode access_mode)

abbrev pub state_without_header : AccessMode → AccessState
state_without_header disabled = state_disabled
state_without_header _ = missing

unfoldable pub header_state : AccessMode → HeaderMap → AccessState
header_state mode headers =
    or_else (then_parse parse_state (get state_header headers)) (state_without_header mode)

module _ ⦃runtime : Runtime⦄ (find_console_user : String → Fetch (Option ConsoleUserRow)) where
  unfoldable pub session_of_identity :
      AccessMode → AccessState → AccessMode → Option String → Option String → ConsoleSession
  unfolding session_of_user
  session_of_identity mode verified discord_mode (some subject) (some email) =
      session_of_user mode verified discord_mode subject email (find_console_user subject)
  session_of_identity mode access_state discord_mode _ _ =
      no_session mode access_state discord_mode none_provided unauthenticated none

  unfoldable pub session_in_mode : Option AccessMode → AccessMode → HeaderMap → ConsoleSession
  unfolding session_of_identity header_state
  session_in_mode none discord_mode headers =
      no_session enforce config_missing discord_mode none_provided error none
  session_in_mode (some disabled) discord_mode headers =
      no_session disabled (header_state disabled headers) discord_mode none_provided status_disabled
        none
  session_in_mode (some mode) discord_mode headers =
      session_of_identity mode (header_state mode headers) discord_mode
        (truthy (Option.map runtime.trim (get subject_header headers)))
        (truthy
          (Option.map (λ s. runtime.to_lower_case (runtime.trim s)) (get email_header headers)))

-- `safeDiscordMode`
unfoldable pub safe_discord_mode : ⦃runtime : Runtime⦄ → Option String → AccessMode
unfolding get_mode
safe_discord_mode raw = or_else (get_mode raw) enforce

-- `avatarHash.startsWith("a_")`
abbrev is_animated : List ℕ → Bool
is_animated (c ∷ d ∷ _) = c == b'a' && d == b'_'
is_animated _ = false

abbrev avatar_of : Option String → Option String → Option String
avatar_of (some user_id) (some avatar_hash) =
    if not (matches is_digit 17 20 user_id)
    then none
    else some (
        concat (
          "https://cdn.discordapp.com/avatars/"
          ∷ user_id
          ∷ "/"
          ∷ avatar_hash
          ∷ "."
          ∷ (if is_animated (codes avatar_hash) then "gif" else "png")
          ∷ "?size=128"
          ∷ []))
avatar_of _ _ = none

-- `discordAvatarUrl`, of apps/web/lib/discord-auth.ts
unfoldable pub discord_avatar_url : Option String → Option String → Option String
unfolding matches
discord_avatar_url user_id avatar_hash = avatar_of (truthy user_id) (truthy avatar_hash)

-- The headers and the cookie of the request, and the environment.
pub record SessionInput : Type 0 where
  pub headers : HeaderMap
  pub session_cookie : Option String
  pub access_mode : Option String
  pub discord_mode : Option String

abbrev pub session_of_discord : AccessMode → DiscordSessionRow → ConsoleSession
unfolding discord_avatar_url
session_of_discord discord_mode row = record {
  mode = disabled;
  access_state = state_disabled;
  discord_mode = discord_mode;
  auth_provider = discord;
  status = authenticated;
  email = none;
  display_name = some (or_else (truthy row.discord_global_name) row.discord_username);
  role = some row.console_role;
  discord_user_id = some row.discord_user_id;
  discord_username = some row.discord_username;
  discord_avatar_url = discord_avatar_url (some row.discord_user_id) row.discord_avatar_hash;
  matched_discord_role_ids = row.matched_role_ids;
  session_expires_at = some row.expires_at;
}

module _ ⦃runtime : Runtime⦄ (find_console_user : String → Fetch (Option ConsoleUserRow))
    (resolve_session : String → Fetch (Option DiscordSessionRow)) where
  -- `getConsoleSessionFromHeaders`
  unfoldable pub get_console_session_from_headers : SessionInput → ConsoleSession
  unfolding session_in_mode header_mode safe_discord_mode
  get_console_session_from_headers input =
      session_in_mode find_console_user (header_mode input.headers input.access_mode)
        (safe_discord_mode input.discord_mode) input.headers

  -- Without a Discord session: refused under `enforce`, else as the headers say.
  unfoldable pub without_discord : AccessMode → SessionInput → ConsoleSession
  unfolding get_console_session_from_headers
  without_discord discord_mode input =
      if is_enforce discord_mode
      then no_session disabled state_disabled discord_mode none_provided unauthenticated none
      else get_console_session_from_headers input

  unfoldable pub with_resolved :
      AccessMode → Fetch (Option DiscordSessionRow) → SessionInput → ConsoleSession
  unfolding without_discord session_of_discord
  with_resolved discord_mode failed input =
      if is_enforce discord_mode
      then no_session disabled state_disabled discord_mode discord error none
      else without_discord discord_mode input
  with_resolved discord_mode (fetched none) input = without_discord discord_mode input
  with_resolved discord_mode (fetched (some row)) input = session_of_discord discord_mode row

  unfoldable pub with_cookie : AccessMode → Option String → SessionInput → ConsoleSession
  unfolding with_resolved
  with_cookie disabled _ input = get_console_session_from_headers input
  with_cookie discord_mode none input = without_discord discord_mode input
  with_cookie discord_mode (some token) input =
      with_resolved discord_mode (resolve_session token) input

  -- `getConsoleSession`
  unfoldable pub get_console_session : SessionInput → ConsoleSession
  unfolding with_cookie
  get_console_session input =
      with_cookie (safe_discord_mode input.discord_mode) (truthy input.session_cookie) input

-- `isPublicConsoleRoute`
unfoldable pub is_public_console_route : HeaderMap → Bool
is_public_console_route headers = opt_str_eq (get public_route_header headers) (some "1")
