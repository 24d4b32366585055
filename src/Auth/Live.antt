-- ===== src/Auth/Live.antt =====
-- What console-auth.ts allows where Discord authentication is enforced.
use ivrm_dashboard.Prelude.{
  true, Option, none, some, String, Runtime, truthy, ◌≡◌, refl, ◌↔◌, arith,
}
use ivrm_dashboard.Prelude.Fetch.{Fetch, fetched, failed}
use ivrm_dashboard.Auth.Types.{
  enforce, ConsoleUserRow, DiscordSessionRow, ConsoleRole, can_perform_console_action,
  can_read_console_during_rollout, viewer, has_console_role, role_reaches,
}
use ivrm_dashboard.Auth.Session.{
  without_discord, with_resolved, with_cookie, get_console_session, SessionInput, safe_discord_mode,
}

module _ ⦃runtime : Runtime⦄ (find_console_user : String → Fetch (Option ConsoleUserRow))
    (resolve_session : String → Fetch (Option DiscordSessionRow)) where
  -- A live Discord session for the cookie whose role reaches the minimum.
  abbrev pub IsLive : Option String → ConsoleRole → Type 0
  IsLive cookie minimum =
      (token : String) × (row : DiscordSessionRow) × (cookie ≡ some token)
      × (resolve_session token ≡ fetched (some row))
      × (role_reaches (some row.console_role) minimum ≡ true)

  resolved-enforce :
      (token : String) (found : Fetch (Option DiscordSessionRow)) (input : SessionInput)
      (minimum : ConsoleRole)
      → resolve_session token ≡ found
      → (has_console_role
            (with_resolved find_console_user resolve_session enforce found input)
            minimum
          ≡ true)
        ↔ IsLive (some token) minimum
  unfolding with_resolved without_discord has_console_role
  resolved-enforce token failed input minimum e =
      ((λ h. ground (arith)), (λ (t, row, p, q, r). ground (arith)))
  resolved-enforce token (fetched none) input minimum e =
      ((λ h. ground (arith)), (λ (t, row, p, q, r). ground (arith)))
  resolved-enforce token (fetched (some row)) input minimum e =
      ((λ h. (token, row, refl, e, h)), (λ (t, other, p, q, r). ground (arith)))

  cookie-enforce :
      (cookie : Option String) (input : SessionInput) (minimum : ConsoleRole)
      → (has_console_role
            (with_cookie find_console_user resolve_session enforce cookie input)
            minimum
          ≡ true)
        ↔ IsLive cookie minimum
  unfolding with_cookie without_discord has_console_role
  cookie-enforce none input minimum = ((λ h. ground (arith)), (λ (t, row, p, q, r). ground (arith)))
  cookie-enforce (some token) input minimum =
      resolved-enforce token (resolve_session token) input minimum refl

  -- Where IVRM_DISCORD_AUTH_MODE asks for enforcement, or has a value that is no mode, a console
  -- action that needs a role is allowed exactly when the session cookie is not empty and resolves to
  -- a Discord session whose role reaches that one. The headers play no part, nor does a database
  -- error ever allow an action.
  pub action_iff_IsLive :
      (input : SessionInput) (minimum : ConsoleRole)
      → safe_discord_mode input.discord_mode ≡ enforce
      → (can_perform_console_action
            (get_console_session find_console_user resolve_session input)
            minimum
          ≡ true)
        ↔ IsLive (truthy input.session_cookie) minimum
  unfolding get_console_session can_perform_console_action
  action_iff_IsLive input minimum e =
      rw e (cookie-enforce (truthy input.session_cookie) input minimum)

  resolved-mode :
      (found : Fetch (Option DiscordSessionRow)) (input : SessionInput)
      → (with_resolved find_console_user resolve_session enforce found input).discord_mode ≡ enforce
  unfolding with_resolved without_discord
  resolved-mode failed input = refl
  resolved-mode (fetched none) input = refl
  resolved-mode (fetched (some row)) input = refl

  cookie-mode :
      (cookie : Option String) (input : SessionInput)
      → (with_cookie find_console_user resolve_session enforce cookie input).discord_mode ≡ enforce
  unfolding with_cookie without_discord
  cookie-mode none input = refl
  cookie-mode (some token) input = resolved-mode (resolve_session token) input

  -- Where IVRM_DISCORD_AUTH_MODE asks for enforcement, or has a value that is no mode, the pages may be
  -- read exactly when the session cookie is not empty and resolves to a Discord session: in particular
  -- a failed lookup, or an identity of Cloudflare Access alone, does not suffice.
  pub read_iff_IsLive :
      (input : SessionInput)
      → safe_discord_mode input.discord_mode ≡ enforce
      → (can_read_console_during_rollout
            (get_console_session find_console_user resolve_session input)
          ≡ true)
        ↔ IsLive (truthy input.session_cookie) viewer
  unfolding get_console_session can_read_console_during_rollout
  read_iff_IsLive input e = rw e (
      rw (cookie-mode (truthy input.session_cookie) input)
        (cookie-enforce (truthy input.session_cookie) input viewer))
