-- ===== src/Reliability.antt =====
-- apps/web/lib/reliability-*.ts: how incidents become downtime, health and alerts.
pub mod Types
pub mod Intervals
pub mod Metrics
pub mod Maintenance
