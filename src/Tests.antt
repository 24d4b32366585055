-- ===== src/Tests.antt =====
-- Each theorem of the results at a concrete input, and runs of the definitions.
mod Fixtures
mod Intervals
mod Maintenance
mod Monitoring
mod Incidents
mod Auth
mod Center
mod Operations
mod Agents
mod Discord
mod Backups
mod Reports
