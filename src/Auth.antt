-- ===== src/Auth.antt =====
-- Credentials (internal/auth): tokens, scopes and capabilities.
pub mod Token
pub mod Scope
pub mod Capability
