-- ===== src/Security.antt =====
-- internal/security: the encryption of messages, its keys, and what it takes from Go's library.
pub mod Base64
pub mod Cipher
pub mod Audit
pub mod AesCtr
pub mod KeyStore
pub mod KeyManager
pub mod MessageEncryption
pub mod Signal
pub mod Fixtures
