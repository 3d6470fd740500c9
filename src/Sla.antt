-- ===== src/Sla.antt =====
-- The service levels of nexusrag/services/sla.
pub mod Autoscaling
