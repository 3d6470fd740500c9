-- ===== src/Operability.antt =====
-- The operability services of nexusrag/services/operability.
pub mod Notifications
pub mod Incidents
