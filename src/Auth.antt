-- ===== src/Auth.antt =====
-- Who may use the console: apps/web/proxy.ts and apps/web/lib/console-auth.ts.
pub mod Types
pub mod Proxy
pub mod Session
pub mod Forged
pub mod Identity
pub mod Roles
pub mod Live
pub mod Passed
pub mod Verified
pub mod Access
