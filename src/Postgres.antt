-- ===== src/Postgres.antt =====
-- The repositories over PostgreSQL (internal/postgres).
pub mod Delivery
pub mod Capability
pub mod CreateQuota
pub mod Mailbox
