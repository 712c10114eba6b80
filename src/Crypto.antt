-- ===== src/Crypto.antt =====
-- The cipher of the IP module's messages (paradox/lib/crypto.py): AES with a key of 32 bytes.
pub mod Tables
pub mod Cipher
pub mod Keys
pub mod Message
mod Tests
