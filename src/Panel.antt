-- ===== src/Panel.antt =====
-- The panel objects (paradox/hardware/panel.py).
mod Tests
pub mod Commands
pub mod Login
pub mod Dump
pub mod Parsing
pub mod Eeprom
pub mod Adapters
