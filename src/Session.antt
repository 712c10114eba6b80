-- ===== src/Session.antt =====
-- The session with the panel: the class `Paradox` of paradox/paradox.py, and the retry loop around
-- it in paradox/main.py.
pub mod Changes
pub mod Request
pub mod Polling
pub mod Restarts
pub mod Connecting
pub mod Partitions
pub mod Clock
pub mod Control
pub mod Troubles
pub mod Errors
mod Tests
use pai.Prelude.{ℕ}

-- `RunState` of paradox/data/enums.py
pub data RunState : Type 0 where
  stop init connected run pause error : RunState
