-- ===== src/Lmtp.antt =====
-- The LMTP boundary (internal/lmtp).
pub mod Line
pub mod DataReader
pub mod Command
pub mod Session
pub mod Server
pub mod Delivery
