-- ===== src/Tests.antt =====
-- The theorems at concrete inputs.
pub mod Lmtp
pub mod Message
pub mod Auth
pub mod Postgres
pub mod Server
pub mod Mailbox
pub mod Credentials
pub mod Contentstore
pub mod Quota
pub mod Create
pub mod HttpApi
pub mod App
