-- ===== src/Crypto.antt =====
-- lib/crypto: the hash functions.
pub mod Sha256
pub mod Hmac
pub mod Hkdf
mod Tests
