-- ===== src/Interfaces/Mqtt.antt =====
-- The MQTT interface: paradox/interfaces/mqtt.
pub mod Topics
pub mod Challenge
pub mod Toggle
pub mod Control
pub mod Safety
pub mod ToggleLaws
pub mod Link
pub mod Cache
mod Tests
