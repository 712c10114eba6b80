-- ===== src/Interfaces.antt =====
-- The interfaces that commands and notifications come by: paradox/interfaces.
pub mod Text
pub mod Mqtt
mod Tests
