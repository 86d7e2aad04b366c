-- ===== src/Audit.antt =====
-- internal/srvgovaudit: the audit events, and how their free text is replaced by fingerprints.
pub mod Events
pub mod Fingerprints
pub mod Sanitize
