-- ===== src/Auth/Identity.antt =====
-- The user behind a session of console-auth.ts that comes from the headers.
use ivrm_dashboard.Prelude.{true, Option, none, some, String, Runtime, eq_iff, ◌≡◌, refl, arith}
use ivrm_dashboard.Prelude.Fetch.{Fetch, fetched, failed}
use ivrm_dashboard.Auth.Types.{
  AccessMode, AccessState, verified, authenticated, ConsoleSession, ConsoleUserRow,
}
use ivrm_dashboard.Auth.Session.{session_of_user, session_of_identity}

-- The user found for this subject is active, has this address, and gives the session its role.
abbrev pub IsUser :
    (String → Fetch (Option ConsoleUserRow)) → String → String → ConsoleSession → Type 0
IsUser find_console_user subject email session =
    (user : ConsoleUserRow) × (find_console_user subject ≡ fetched (some user))
    × (user.access_subject ≡ subject)
    × (user.email ≡ email)
    × (user.is_active ≡ true)
    × (session.role ≡ some user.role)

session_of_user-authenticated :
    (mode : AccessMode) (state : AccessState) (discord_mode : AccessMode) (subject email : String)
    (found : Fetch (Option ConsoleUserRow))
    → (session_of_user mode state discord_mode subject email found).status ≡ authenticated
    → (user : ConsoleUserRow) × (found ≡ fetched (some user))
      × (user.access_subject ≡ subject)
      × (user.email ≡ email)
      × (user.is_active ≡ true)
      × ((session_of_user mode state discord_mode subject email found).role ≡ some user.role)
unfolding session_of_user
session_of_user-authenticated mode state discord_mode subject email failed h = ground (arith)
session_of_user-authenticated mode state discord_mode subject email (fetched none) h =
    ground (arith)
session_of_user-authenticated mode state discord_mode subject email (fetched (some user)) h = (
  user,
  refl,
  ground (arith, eq_iff user.access_subject subject),
  ground (arith, eq_iff user.email email),
  ground (arith),
  ground (arith),
)

module _ ⦃runtime : Runtime⦄ (find_console_user : String → Fetch (Option ConsoleUserRow)) where
  -- A session read from the headers is authenticated in a verified state only, for a known user.
  pub session_of_identity-authenticated :
      (mode : AccessMode) (state : AccessState) (discord_mode : AccessMode)
      (subject email : Option String)
      → (session_of_identity find_console_user mode state discord_mode subject email).status
        ≡ authenticated
      → (s : String) × (e : String) × (state ≡ verified)
        × (subject ≡ some s)
        × (email ≡ some e)
        × IsUser find_console_user s e
            (session_of_identity find_console_user mode state discord_mode subject email)
  unfolding session_of_identity
  session_of_identity-authenticated mode verified discord_mode (some s) (some e) h = (
    s,
    e,
    refl,
    refl,
    refl,
    session_of_user-authenticated mode verified discord_mode s e (find_console_user s) h,
  )
  session_of_identity-authenticated mode _ discord_mode _ _ h = ground (arith)
