-- ===== src/Discord.antt =====
-- The sign-in with Discord: apps/web/lib/discord-oauth-cookies.ts and the pure functions of
-- apps/web/lib/discord-auth.ts. Texts are lists of code points here.
pub mod Base64
pub mod ReturnPath
pub mod Attempt
pub mod SignIn
pub mod RoleMap
