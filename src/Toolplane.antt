-- ===== src/Toolplane.antt =====
-- internal/toolplane: the two dials, the sandbox, the registry of tools and its audit log.
pub mod Level
pub mod Consent
pub mod Dials
pub mod Tools
pub mod Sandbox
pub mod Truncation
pub mod Registry
