-- ===== src/Message.antt =====
-- The delivery of messages (internal/message): addresses, deliveries, and the receiver.
pub mod Address
pub mod Delivery
pub mod Receiver
