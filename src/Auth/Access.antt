-- ===== src/Auth/Access.antt =====
-- From the proxy to the session: whom Cloudflare Access makes a console user.
use ivrm_dashboard.Prelude.{Option, some, String, Runtime, truthy, ◌≡◌, refl, sym, ap, ◌∙◌, arith}
use ivrm_dashboard.Prelude.Fetch.{Fetch}
use ivrm_dashboard.Auth.Types.{
  AccessMode, disabled, report, enforce, authenticated, AccessIdentity, ConsoleUserRow,
  DiscordSessionRow, get_mode,
}
use ivrm_dashboard.Auth.Proxy.{
  HeaderMap, ProxyInput, next, proxy, with_access_mode, with_discord_mode, access_token,
  request_headers,
}
use ivrm_dashboard.Auth.Session.{
  SessionInput, get_console_session, get_console_session_from_headers, with_cookie,
  safe_discord_mode,
}
use ivrm_dashboard.Auth.Passed.{passed_session}
use ivrm_dashboard.Auth.Verified.{IsVerified, Vouched, mode-OnNext, on-next}

module _ ⦃runtime : Runtime⦄ {Configuration : Type 0}
    (get_access_configuration : Fetch (Option Configuration))
    (verify_jwt : String → Configuration → Option AccessIdentity)
    (find_console_user : String → Fetch (Option ConsoleUserRow))
    (resolve_session : String → Fetch (Option DiscordSessionRow)) where
  -- What the pages read, behind the proxy.
  abbrev pub page_input : HeaderMap → ProxyInput → SessionInput
  page_input out input = record {
    headers = out;
    session_cookie = input.session_cookie;
    access_mode = input.access_mode;
    discord_mode = input.discord_mode;
  }

  disabled-cookie :
      (mode : AccessMode) (cookie : Option String) (input : SessionInput)
      → mode ≡ disabled
      → with_cookie find_console_user resolve_session mode cookie input
        ≡ get_console_session_from_headers find_console_user resolve_session input
  unfolding with_cookie
  disabled-cookie disabled cookie input e = refl
  disabled-cookie report cookie input e = ground (arith)
  disabled-cookie enforce cookie input e = ground (arith)

  safe-disabled :
      (raw : Option String) → get_mode raw ≡ some disabled → safe_discord_mode raw ≡ disabled
  unfolding safe_discord_mode
  safe-disabled raw e = rw e refl

  disabled-session :
      (out : HeaderMap) (input : ProxyInput)
      → get_mode input.discord_mode ≡ some disabled
      → get_console_session find_console_user resolve_session (page_input out input)
        ≡ passed_session find_console_user out input.access_mode
            (safe_discord_mode input.discord_mode)
  unfolding get_console_session get_console_session_from_headers
  disabled-session out input e =
      disabled-cookie (safe_discord_mode input.discord_mode) (truthy input.session_cookie)
        (page_input out input) (safe-disabled input.discord_mode e)

  disabled-proxy :
      (input : ProxyInput)
      → get_mode input.discord_mode ≡ some disabled
      → proxy get_access_configuration verify_jwt input
        ≡ with_access_mode get_access_configuration verify_jwt
            (get_mode input.access_mode)
            (request_headers input)
            (access_token input.headers)
  unfolding proxy with_discord_mode
  disabled-proxy input e = rw e refl

  -- Where Discord authentication is disabled, and the proxy lets a request go on, the session that
  -- the pages read from the headers that it passes on is authenticated only if the access
  -- configuration is complete, the request has an assertion, this verifies as an identity, and the
  -- database has a user for the identity's subject that is active and has the identity's e-mail
  -- address; and the session has the role of that user. Subject and address are trimmed, and the
  -- address is in lower case. No header that the client sends makes up for any of these.
  pub access_session-IsVerified :
      (input : ProxyInput) (out : HeaderMap)
      → get_mode input.discord_mode ≡ some disabled
      → proxy get_access_configuration verify_jwt input ≡ next out
      → (get_console_session find_console_user resolve_session (page_input out input)).status
        ≡ authenticated
      → IsVerified get_access_configuration verify_jwt find_console_user
          (access_token input.headers)
          (get_console_session find_console_user resolve_session (page_input out input))
  access_session-IsVerified input out d e h =
      let same = disabled-session out input d in
      rw same (
        on-next get_access_configuration verify_jwt find_console_user
          (Vouched get_access_configuration verify_jwt find_console_user input.access_mode
            (safe_discord_mode input.discord_mode) (access_token input.headers))
          (with_access_mode get_access_configuration verify_jwt (get_mode input.access_mode)
            (request_headers input) (access_token input.headers))
          out (sym (disabled-proxy input d) ∙ e)
          (mode-OnNext get_access_configuration verify_jwt find_console_user
            (get_mode input.access_mode) (request_headers input) (access_token input.headers)
            input.access_mode (safe_discord_mode input.discord_mode))
          (sym (ap (λ session. session.status) same) ∙ h))
