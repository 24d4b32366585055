-- ===== src/Auth/Verified.antt =====
-- From the proxy to the session, branch by branch: every request that goes on carries headers from
-- which only a verified user is read.
use mathlib.Core.Path.{transport}
use ivrm_dashboard.Prelude.{
  ℕ, false, ◌≢◌, Option, none, some, String, Runtime, truthy, ◌≡◌, refl, sym, ap, ◌∙◌, arith,
}
use ivrm_dashboard.Prelude.StringMap.{get, set, get-set}
use ivrm_dashboard.Prelude.Fetch.{Fetch, fetched, failed}
use ivrm_dashboard.Auth.Types.{
  AccessMode, disabled, report, enforce, AccessState, state_disabled, config_missing, missing,
  invalid, verified, authenticated, status_disabled, ConsoleSession, AccessIdentity, ConsoleUserRow,
}
use ivrm_dashboard.Auth.Proxy.{
  HeaderMap, subject_header, email_header, ProxyOutcome, next, continue_request, with_access_mode,
  with_configuration, with_token, with_identity, refuse_or_report,
}
use ivrm_dashboard.Auth.Session.{session_in_mode}
use ivrm_dashboard.Auth.Identity.{IsUser, session_of_identity-authenticated}
use ivrm_dashboard.Auth.Passed.{
  is_disabled, marked, trimmed, lowered, passed_session, session-marked, header_mode-marked,
}

truthy-some : (x s : String) → truthy (some x) ≡ some s → x ≡ s
truthy-some x s h = ground (arith)

set-subject :
    (identity : AccessIdentity) (headers : HeaderMap)
    → get subject_header
        (set email_header identity.email (set subject_header identity.subject headers))
      ≡ some identity.subject
set-subject identity headers =
    get-set email_header subject_header identity.email (set subject_header identity.subject headers)
    ∙ get-set subject_header subject_header identity.subject headers

set-email :
    (identity : AccessIdentity) (headers : HeaderMap)
    → get email_header
        (set email_header identity.email (set subject_header identity.subject headers))
      ≡ some identity.email
set-email identity headers =
    get-set email_header email_header identity.email (set subject_header identity.subject headers)

disabled-not-authenticated : status_disabled ≢ authenticated
disabled-not-authenticated h = ground (arith)

module _ ⦃runtime : Runtime⦄ {Configuration : Type 0}
    (get_access_configuration : Fetch (Option Configuration))
    (verify_jwt : String → Configuration → Option AccessIdentity)
    (find_console_user : String → Fetch (Option ConsoleUserRow)) where
  -- A verified assertion names an active console user, whose role the session has.
  abbrev pub IsVerified : Option String → ConsoleSession → Type 0
  IsVerified token session =
      (configuration : Configuration) × (text : String) × (identity : AccessIdentity)
      × (get_access_configuration ≡ fetched (some configuration))
      × (token ≡ some text)
      × (verify_jwt text configuration ≡ some identity)
      × IsUser find_console_user (runtime.trim identity.subject)
          (runtime.to_lower_case (runtime.trim identity.email)) session

  abbrev pub Vouched : Option String → AccessMode → Option String → HeaderMap → Type 0
  Vouched raw discord_mode token headers =
      (passed_session find_console_user headers raw discord_mode).status ≡ authenticated
      → IsVerified token (passed_session find_console_user headers raw discord_mode)

  abbrev pub OnNext : (HeaderMap → Type 0) → ProxyOutcome → Type 0
  OnNext P (next headers) = P headers
  OnNext P _ = Unit

  disabled-status :
      (headers : HeaderMap) (state : AccessState) (raw : Option String) (discord_mode : AccessMode)
      → (passed_session find_console_user (marked headers disabled state) raw discord_mode).status
        ≡ status_disabled
  unfolding session_in_mode
  disabled-status headers state raw discord_mode =
      rw (header_mode-marked headers disabled state raw) refl

  disabled-Vouched :
      (headers : HeaderMap) (state : AccessState) (raw : Option String) (discord_mode : AccessMode)
      (token : Option String)
      → Vouched raw discord_mode token (marked headers disabled state)
  disabled-Vouched headers state raw discord_mode token h =
      absurd (disabled-not-authenticated (sym (disabled-status headers state raw discord_mode) ∙ h))

  -- What an authenticated session says of the headers that it was read from.
  marked-authenticated :
      (headers : HeaderMap) (mode : AccessMode) (state : AccessState) (raw : Option String)
      (discord_mode : AccessMode)
      → is_disabled mode ≡ false
      → (passed_session find_console_user (marked headers mode state) raw discord_mode).status
        ≡ authenticated
      → (s : String) × (e : String) × (state ≡ verified)
        × (trimmed (get subject_header headers) ≡ some s)
        × (lowered (get email_header headers) ≡ some e)
        × IsUser find_console_user s e
            (passed_session find_console_user (marked headers mode state) raw discord_mode)
  marked-authenticated headers mode state raw discord_mode n h =
      let same = session-marked find_console_user headers mode state raw discord_mode n in
      rw same (
        session_of_identity-authenticated find_console_user mode state discord_mode
          (trimmed (get subject_header headers)) (lowered (get email_header headers))
          (sym (ap (λ session. session.status) same) ∙ h))

  unverified-Vouched :
      (headers : HeaderMap) (mode : AccessMode) (state : AccessState) (raw : Option String)
      (discord_mode : AccessMode) (token : Option String)
      → is_disabled mode ≡ false
      → state ≢ verified
      → Vouched raw discord_mode token (marked headers mode state)
  unverified-Vouched headers mode state raw discord_mode token n m h =
      let (s, e, v, p, q, user) = marked-authenticated headers mode state raw discord_mode n h in
      absurd (m v)

  refused-OnNext :
      (headers : HeaderMap) (mode : AccessMode) (state : AccessState) (raw : Option String)
      (discord_mode : AccessMode) (token : Option String) (status : ℕ) (reason : String)
      → is_disabled mode ≡ false
      → state ≢ verified
      → OnNext (Vouched raw discord_mode token) (refuse_or_report mode headers status reason state)
  unfolding refuse_or_report continue_request
  refused-OnNext headers disabled state raw discord_mode token status reason n m = ground (arith)
  refused-OnNext headers enforce state raw discord_mode token status reason n m = tt
  refused-OnNext headers report state raw discord_mode token status reason n m =
      unverified-Vouched headers report state raw discord_mode token n m

  identity-OnNext :
      (mode : AccessMode) (headers : HeaderMap) (found : Option AccessIdentity)
      (raw : Option String) (discord_mode : AccessMode) (configuration : Configuration)
      (text : String)
      → is_disabled mode ≡ false
      → get_access_configuration ≡ fetched (some configuration)
      → verify_jwt text configuration ≡ found
      → OnNext (Vouched raw discord_mode (some text)) (with_identity mode headers found)
  unfolding with_identity continue_request
  identity-OnNext mode headers none raw discord_mode configuration text n c v =
      refused-OnNext headers mode invalid raw discord_mode (some text) 403 "access_denied" n
        (λ h. ground (arith))
  identity-OnNext mode headers (some identity) raw discord_mode configuration text n c v = λ h.
      let named = set email_header identity.email (set subject_header identity.subject headers) in
      let (s, e, w, p, q, user) = marked-authenticated named mode verified raw discord_mode n h in
      let subject =
        truthy-some (runtime.trim identity.subject) s
          (sym (ap trimmed (set-subject identity headers)) ∙ p) in
      let email =
        truthy-some (runtime.to_lower_case (runtime.trim identity.email)) e
          (sym (ap lowered (set-email identity headers)) ∙ q) in
      (configuration, text, identity, c, refl, v, rw subject (rw email user))

  token-OnNext :
      (mode : AccessMode) (headers : HeaderMap) (token : Option String) (raw : Option String)
      (discord_mode : AccessMode) (configuration : Configuration)
      → is_disabled mode ≡ false
      → get_access_configuration ≡ fetched (some configuration)
      → OnNext
          (Vouched raw discord_mode token)
          (with_token get_access_configuration verify_jwt mode headers configuration token)
  unfolding with_token
  token-OnNext mode headers none raw discord_mode configuration n c =
      refused-OnNext headers mode missing raw discord_mode none 403 "access_denied" n
        (λ h. ground (arith))
  token-OnNext mode headers (some text) raw discord_mode configuration n c =
      identity-OnNext mode headers (verify_jwt text configuration) raw discord_mode configuration
        text n c refl

  configuration-OnNext :
      (mode : AccessMode) (headers : HeaderMap) (token : Option String) (raw : Option String)
      (discord_mode : AccessMode) (found : Fetch (Option Configuration))
      → is_disabled mode ≡ false
      → get_access_configuration ≡ found
      → OnNext
          (Vouched raw discord_mode token)
          (with_configuration get_access_configuration verify_jwt mode headers token found)
  unfolding with_configuration
  configuration-OnNext mode headers token raw discord_mode failed n c =
      refused-OnNext headers mode config_missing raw discord_mode token 503 "access_not_configured"
        n (λ h. ground (arith))
  configuration-OnNext mode headers token raw discord_mode (fetched none) n c =
      refused-OnNext headers mode config_missing raw discord_mode token 503 "access_not_configured"
        n (λ h. ground (arith))
  configuration-OnNext mode headers token raw discord_mode (fetched (some configuration)) n c =
      token-OnNext mode headers token raw discord_mode configuration n c

  pub mode-OnNext :
      (mode : Option AccessMode) (headers : HeaderMap) (token : Option String) (raw : Option String)
      (discord_mode : AccessMode)
      → OnNext
          (Vouched raw discord_mode token)
          (with_access_mode get_access_configuration verify_jwt mode headers token)
  unfolding with_access_mode continue_request
  mode-OnNext none headers token raw discord_mode = tt
  mode-OnNext (some disabled) headers token raw discord_mode =
      disabled-Vouched headers state_disabled raw discord_mode token
  mode-OnNext (some report) headers token raw discord_mode =
      configuration-OnNext report headers token raw discord_mode get_access_configuration refl refl
  mode-OnNext (some enforce) headers token raw discord_mode =
      configuration-OnNext enforce headers token raw discord_mode get_access_configuration refl refl

  pub on-next :
      (P : HeaderMap → Type 0) (outcome : ProxyOutcome) (out : HeaderMap)
      → outcome ≡ next out
      → OnNext P outcome
      → P out
  on-next P outcome out e p = transport (ap (OnNext P) e) p
