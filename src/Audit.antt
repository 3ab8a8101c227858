-- ===== src/Audit.antt =====
-- holonbridge/audit.py: which requests are recorded, and at what level.
pub mod Naming
pub mod Policy
pub mod Settings
