-- ===== src/Lmtp/Session.antt =====
-- The session of internal/lmtp/session.go: its state, the replies, and the handler of each command.
-- What the session calls, the InboxResolver and the MessageReceiver, is the record `Services`.
pub mod State
pub mod Transaction
pub mod Run
pub mod Invariant
pub mod Data
pub mod Verdicts
pub mod World
pub mod Input
pub mod Total
