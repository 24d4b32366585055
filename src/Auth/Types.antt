-- ===== src/Auth/Types.antt =====
-- The types of apps/web/lib/cloudflare-access.ts and console-auth.ts, the modes read from the
-- environment, and the role checks.
use mathlib.Core.Option
use ivrm_dashboard.Prelude.{
  ℕ, Bool, true, false, ◌&&◌, List, Option, none, some, String, Runtime, str_eq, if◌then◌else◌,
  truthy, or_else, leb,
}

-- Also `DiscordAuthMode`, which has the same three values.
pub data AccessMode : Type 0 where
  disabled report enforce : AccessMode

pub data AccessState : Type 0 where
  state_disabled config_missing missing invalid verified : AccessState

pub data ConsoleRole : Type 0 where
  viewer operator administrator owner : ConsoleRole

pub data ConsoleAuthProvider : Type 0 where
  discord cloudflare_access none_provided : ConsoleAuthProvider

pub data ConsoleSessionStatus : Type 0 where
  status_disabled unauthenticated unregistered inactive identity_mismatch authenticated error :
      ConsoleSessionStatus

pub record ConsoleSession : Type 0 where
  pub mode : AccessMode
  pub access_state : AccessState
  pub discord_mode : AccessMode
  pub auth_provider : ConsoleAuthProvider
  pub status : ConsoleSessionStatus
  pub email : Option String
  pub display_name : Option String
  pub role : Option ConsoleRole
  pub discord_user_id : Option String
  pub discord_username : Option String
  pub discord_avatar_url : Option String
  pub matched_discord_role_ids : List String
  pub session_expires_at : Option String

pub record ConsoleUserRow : Type 0 where
  pub id : String
  pub access_subject : String
  pub email : String
  pub display_name : Option String
  pub role : ConsoleRole
  pub is_active : Bool

-- `DiscordConsoleSessionRow`, as far as a session shows it.
pub record DiscordSessionRow : Type 0 where
  pub discord_user_id : String
  pub discord_username : String
  pub discord_global_name : Option String
  pub discord_avatar_hash : Option String
  pub matched_role_ids : List String
  pub console_role : ConsoleRole
  pub expires_at : String

pub record AccessIdentity : Type 0 where
  pub subject : String
  pub email : String

-- The value of a mode, if it is one.
abbrev pub parse_mode : String → Option AccessMode
parse_mode raw =
    if str_eq raw "disabled"
    then some disabled
    else if str_eq raw "report"
    then some report
    else if str_eq raw "enforce"
    then some enforce
    else none

abbrev pub show_mode : AccessMode → String
show_mode disabled = "disabled"
show_mode report = "report"
show_mode enforce = "enforce"

abbrev pub show_state : AccessState → String
show_state state_disabled = "disabled"
show_state config_missing = "config_missing"
show_state missing = "missing"
show_state invalid = "invalid"
show_state verified = "verified"

-- `isAccessState`, with the state that the text is.
abbrev pub parse_state : String → Option AccessState
parse_state raw =
    if str_eq raw "disabled"
    then some state_disabled
    else if str_eq raw "config_missing"
    then some config_missing
    else if str_eq raw "missing"
    then some missing
    else if str_eq raw "invalid"
    then some invalid
    else if str_eq raw "verified"
    then some verified
    else none

-- `getAccessMode` and `getDiscordAuthMode`, of the environment's value; none where they throw.
unfoldable pub get_mode : ⦃runtime : Runtime⦄ → Option String → Option AccessMode
get_mode ⦃runtime⦄ raw =
    parse_mode
      (or_else (truthy (Option.map (λ s. runtime.to_lower_case (runtime.trim s)) raw)) "disabled")

-- `ROLE_RANK`
abbrev pub role_rank : ConsoleRole → ℕ
role_rank viewer = 0
role_rank operator = 1
role_rank administrator = 2
role_rank owner = 3

abbrev pub is_authenticated : ConsoleSessionStatus → Bool
is_authenticated authenticated = true
is_authenticated _ = false

abbrev pub role_reaches : Option ConsoleRole → ConsoleRole → Bool
role_reaches none minimum_role = false
role_reaches (some role) minimum_role = leb (role_rank minimum_role) (role_rank role)

-- `hasConsoleRole`
unfoldable pub has_console_role : ConsoleSession → ConsoleRole → Bool
has_console_role session minimum_role =
    is_authenticated session.status && role_reaches session.role minimum_role

abbrev pub is_enforce : AccessMode → Bool
is_enforce enforce = true
is_enforce _ = false

-- `canReadConsoleDuringRollout`
unfoldable pub can_read_console_during_rollout : ConsoleSession → Bool
unfolding has_console_role
can_read_console_during_rollout session =
    if is_enforce session.discord_mode
    then has_console_role session viewer
    else if is_enforce session.mode
    then has_console_role session viewer
    else true

-- `canPerformConsoleAction`
unfoldable pub can_perform_console_action : ConsoleSession → ConsoleRole → Bool
unfolding has_console_role
can_perform_console_action session minimum_role = has_console_role session minimum_role
