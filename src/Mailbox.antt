-- ===== src/Mailbox.antt =====
-- The mailboxes (internal/mailbox).
pub mod Messages
pub mod Create
