-- ===== src/Config.antt =====
-- internal/config: the hosts file and the encryption of stored passwords.
pub mod Base64
pub mod Crypto
pub mod Storage
pub mod Merge
pub mod Tests
