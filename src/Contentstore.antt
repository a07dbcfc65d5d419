-- ===== src/Contentstore.antt =====
-- The content store (internal/contentstore).
pub mod Capacity
pub mod Store
