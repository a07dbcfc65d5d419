-- ===== src/Encoding.antt =====
-- What the program uses of the packages encoding/base64 and encoding/hex.
pub mod Base64
pub mod Hex
pub mod Base32
