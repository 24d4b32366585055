-- ===== src/Lib.antt =====
-- Verification library of the IVRM dashboard, the console that watches a game server, its hosts,
-- containers and backups (apps/web, a Next.js application over a Supabase database).
--
-- The program, as far as it is modelled here:
--   * Reliability. From the incidents of a range the console computes the downtime of each service and
--     of each SLO, without the time that a planned maintenance excuses.
--     Reliability/Types, Intervals, Metrics and Maintenance model the intervals and their union
--     (apps/web/lib/reliability-metrics.ts: clipInterval, unionSeconds, median,
--     collectKnownDowntime) and the adjustment by maintenance windows
--     (apps/web/lib/reliability-maintenance-metrics.ts: subtractIntervals, maintenanceExcludable,
--     appliesToIncident, effectiveWindowInterval, collectMaintenanceAdjustedDowntime,
--     buildReliabilityMaintenanceAdjustments).
--   * Monitoring. Monitoring/Types, Status and Snapshot model apps/web/lib/monitoring.ts: the status of
--     a host by the age of its heartbeat, the status of a container by its expectation, and
--     getMonitoringSnapshot, which joins the rows of the four queries.
--   * Incidents. Incident and its Names and Events hold the records of active and recovered incidents
--     (apps/web/lib/incidents.ts, unified-incidents.ts) and the events (monitoring-events.ts,
--     host-monitoring-events.ts). Incident/Signals models signalName, resolvesSignal, eventTransition
--     and deriveOpenSignals; Incident/Episodes the loop of deriveRecoveredContainerIncidents over the
--     events of one container; Incident/Active deriveActiveContainerIncidents and
--     deriveActiveHostIncidents; Incident/Gaps deriveRecoveredHostGaps; Incident/Grouping
--     eventByEntity, hostEventsByEntity and mergeUniqueEvents; Incident/Center
--     getIncidentCenterSnapshot, from the results of its queries on.
--   * Backups. Backup holds the types of apps/web/lib/backups.ts. Backup/Target models evaluateTarget, as
--     a chain of steps that each change the health and add a reason. Of apps/web/lib/unified-incidents.ts
--     Backup/Runs models seedSignalState, Backup/Rounds one round of the loop of deriveRunEpisodes,
--     Backup/Episodes that function, Backup/Active deriveActiveBackupIncidents and Backup/Center
--     getUnifiedIncidentCenterSnapshot, which joins these to the incident center. Backup/Report models
--     normalizeRun and parseBackupReport of apps/web/lib/backup-report.ts.
--   * Access. Auth/Types, Proxy and Session model apps/web/proxy.ts, which cleans the headers of a
--     request and writes who sent it, and apps/web/lib/console-auth.ts, which reads a session from
--     those headers or from the Discord cookie, with the role checks.
--   * Operations. Operation/Json, Catalog, Body, Request and Post model
--     apps/web/lib/operation-catalog.ts and the route POST of
--     apps/web/app/api/operations/jobs/route.ts, which asks for a job on the game server and records
--     what it refuses. Operation/Agent models apps/web/lib/operation-agent-auth-core.ts: the secrets of
--     the agents and the check of a request that an agent signs.
--   * Sign-in. Discord/ReturnPath, RoleMap (apps/web/lib/discord-auth.ts: sanitizeReturnPath,
--     parseRoleMap, resolveDiscordConsoleRole), Base64 and Attempt
--     (apps/web/lib/discord-oauth-cookies.ts) model the signed state and the cookie of a sign-in, and the
--     role that a member gets; SignIn puts the two routes of app/api/auth/discord together.
-- Prelude holds what these share: Boolean tests on numbers, the array methods (Lists), a stable
-- sort (Sort), strings (Text, Ascii), sequences of bytes (Bytes), a JavaScript Map with string keys
-- (StringMap), the result of a call that may throw (Fetch), and the runtime (Platform). Tests has
-- runs of the definitions.
--
-- How the code is represented. A class of objects is a record, a union of string literals a data type,
-- null and undefined are none. An instant is a number of milliseconds counted from the earliest
-- instant that a Date holds, so that it is never negative, and comparisons and differences are those of
-- the source. Date.parse and toISOString, trim and toLowerCase, and the test Number(text) === 0 are the
-- fields of the record Runtime, a parameter. A loop over an array is a
-- recursion on the list, with the variables that it changes as arguments; nothing needs fuel. An
-- exception that a caller catches is none or failed; where one leaves the handler POST, its answer has
-- no status. The names of the HTTP headers are in lower case.
--
-- Parameters: the value of a number literal, the verification of a Cloudflare Access assertion and
-- its configuration, the lookups of a console user and of a Discord session, JSON.parse with the
-- decoding of UTF-8, the number in a Content-Length header, SHA-256 and its HMAC, random bytes,
-- UTF-8, the parser of URLs, and the call that creates a job.
--
-- Not modelled: the queries themselves and the validation of their rows, the HTML of the proxy's
-- error pages, a header value that Headers.set refuses (which the proxy answers as an assertion
-- that is not valid), and the database functions that the calls reach. Of apps/web/lib the links of
-- incidents.ts to pages, the burn rate and the SLO states, the queries of backups and the route of
-- their reports, capacity, history, logs, notifications, the status center, the inventories, the
-- requests of discord-auth.ts and the verification in cloudflare-access.ts; the pages and
-- components under apps/web/app; the agents and collectors in Go, Java, Python and shell; and the
-- SQL migrations.
pub mod Prelude
pub mod Incident
pub mod Monitoring
pub mod Reliability
pub mod Backup
pub mod Auth
pub mod Operation
pub mod Discord
mod Tests
