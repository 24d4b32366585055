-- ===== src/Incident/Names.antt =====
-- The reasons that several modules of apps/web/lib compare.
use ivrm_dashboard.Prelude.{String}

-- The start reason of an incident that an OOM kill opened.
abbrev pub oom_killed_reason : String
oom_killed_reason = "OOMKilledを検知"
