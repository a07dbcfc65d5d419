-- ===== src/HttpApi.antt =====
-- The HTTP API (internal/httpapi).
pub mod MessageCursor
