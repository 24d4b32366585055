-- ===== src/Operation.antt =====
-- The requests for operations on the game server: apps/web/lib/operation-catalog.ts, the route
-- apps/web/app/api/operations/jobs/route.ts, and apps/web/lib/operation-agent-auth-core.ts.
pub mod Json
pub mod Agent
pub mod Catalog
pub mod Body
pub mod Request
pub mod Post
pub mod Laws
pub mod Audit
pub mod Stream
pub mod Roles
