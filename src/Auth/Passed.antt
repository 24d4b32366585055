-- ===== src/Auth/Passed.antt =====
-- What console-auth.ts reads in the headers that proxy.ts passes on.
use mathlib.Core.Option
use ivrm_dashboard.Prelude.{
  Bool, true, false, Option, some, String, Runtime, truthy, or_else, ◌≡◌, refl, ◌∙◌, arith,
}
use ivrm_dashboard.Prelude.StringMap.{get, set, get-set}
use ivrm_dashboard.Prelude.Fetch.{Fetch}
use ivrm_dashboard.Auth.Types.{
  AccessMode, disabled, report, enforce, AccessState, state_disabled, config_missing, missing,
  invalid, verified, parse_state, ConsoleSession, ConsoleUserRow, show_mode, show_state,
}
use ivrm_dashboard.Auth.Proxy.{HeaderMap, mode_header, state_header, subject_header, email_header}
use ivrm_dashboard.Auth.Session.{
  state_without_header, header_mode, header_state, session_in_mode, session_of_identity,
}

abbrev pub is_disabled : AccessMode → Bool
is_disabled disabled = true
is_disabled _ = false

-- The headers that `continue_request` passes on.
abbrev pub marked : HeaderMap → AccessMode → AccessState → HeaderMap
marked headers mode state =
    set state_header (show_state state) (set mode_header (show_mode mode) headers)

mode-marked :
    (headers : HeaderMap) (mode : AccessMode) (state : AccessState)
    → get mode_header (marked headers mode state) ≡ some (show_mode mode)
mode-marked headers mode state =
    get-set state_header mode_header (show_state state) (set mode_header (show_mode mode) headers)
    ∙ get-set mode_header mode_header (show_mode mode) headers

state-marked :
    (headers : HeaderMap) (mode : AccessMode) (state : AccessState)
    → get state_header (marked headers mode state) ≡ some (show_state state)
state-marked headers mode state =
    get-set state_header state_header (show_state state) (set mode_header (show_mode mode) headers)

subject-marked :
    (headers : HeaderMap) (mode : AccessMode) (state : AccessState)
    → get subject_header (marked headers mode state) ≡ get subject_header headers
subject-marked headers mode state =
    get-set state_header subject_header (show_state state)
      (set mode_header (show_mode mode) headers)
    ∙ get-set mode_header subject_header (show_mode mode) headers

email-marked :
    (headers : HeaderMap) (mode : AccessMode) (state : AccessState)
    → get email_header (marked headers mode state) ≡ get email_header headers
email-marked headers mode state =
    get-set state_header email_header (show_state state) (set mode_header (show_mode mode) headers)
    ∙ get-set mode_header email_header (show_mode mode) headers

pub header_mode-marked :
    ⦃runtime : Runtime⦄ (headers : HeaderMap) (mode : AccessMode) (state : AccessState)
    (raw : Option String)
    → header_mode (marked headers mode state) raw ≡ some mode
unfolding header_mode
header_mode-marked headers disabled state raw = simp (mode-marked headers disabled state)
header_mode-marked headers report state raw = simp (mode-marked headers report state)
header_mode-marked headers enforce state raw = simp (mode-marked headers enforce state)

shown :
    (mode : AccessMode) (state : AccessState)
    → or_else (parse_state (show_state state)) (state_without_header mode) ≡ state
shown mode state_disabled = refl
shown mode config_missing = refl
shown mode missing = refl
shown mode invalid = refl
shown mode verified = refl

header_state-marked :
    (headers : HeaderMap) (mode : AccessMode) (state : AccessState)
    → header_state mode (marked headers mode state) ≡ state
unfolding header_state
header_state-marked headers mode state = rw (state-marked headers mode state) (shown mode state)

abbrev pub trimmed : ⦃runtime : Runtime⦄ → Option String → Option String
trimmed ⦃runtime⦄ raw = truthy (Option.map runtime.trim raw)

abbrev pub lowered : ⦃runtime : Runtime⦄ → Option String → Option String
lowered ⦃runtime⦄ raw = truthy (Option.map (λ s. runtime.to_lower_case (runtime.trim s)) raw)

module _ ⦃runtime : Runtime⦄ (find_console_user : String → Fetch (Option ConsoleUserRow)) where
  -- The session of the pages that get the headers that the proxy passed on.
  abbrev pub passed_session : HeaderMap → Option String → AccessMode → ConsoleSession
  passed_session headers raw discord_mode =
      session_in_mode find_console_user (header_mode headers raw) discord_mode headers

  pub session-marked :
      (headers : HeaderMap) (mode : AccessMode) (state : AccessState) (raw : Option String)
      (discord_mode : AccessMode)
      → is_disabled mode ≡ false
      → passed_session (marked headers mode state) raw discord_mode
        ≡ session_of_identity find_console_user mode state discord_mode
            (trimmed (get subject_header headers))
            (lowered (get email_header headers))
  unfolding session_in_mode
  session-marked headers disabled state raw discord_mode h = ground (arith)
  session-marked headers report state raw discord_mode h =
      rw (header_mode-marked headers report state raw) (
        rw (header_state-marked headers report state)
          (rw (subject-marked headers report state) (rw (email-marked headers report state) refl)))
  session-marked headers enforce state raw discord_mode h =
      rw (header_mode-marked headers enforce state raw) (
        rw (header_state-marked headers enforce state) (
          rw (subject-marked headers enforce state) (rw (email-marked headers enforce state) refl)))
