-- ===== src/Connections.antt =====
-- The connection layer (paradox/connections): checksums and the serial and IP protocols.
pub mod Checksum
pub mod Serial
pub mod Ip
pub mod Life
mod Tests
