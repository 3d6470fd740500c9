-- ===== src/Governance/Retention/Report.antt =====
-- The counts of a retention report.
use nexus_rag.Prelude.{◌+◌, ◌≡◌, Bool, if◌then◌else◌}
use nexus_rag.Governance.Retention.{Category}

-- Each row processed is deleted, anonymized or skipped, and nothing is deleted in the mode
-- "anonymize".
abbrev pub AddsUp : Bool → Category → Type 0
AddsUp hard c =
    (c.processed ≡ c.deleted + c.anonymized + c.skipped_hold)
    × (if hard then c.anonymized ≡ 0 else c.deleted ≡ 0)
