-- ===== src/Events/Tables/Evo.antt =====
-- The tables of paradox/hardware/evo.
use pai.Prelude.{ℕ, String, List, [], ◌∷◌, ◌++◌}
use pai.Events.Tables.{Entry}
use pai.Events.Change.{PropertyEntry}
use pai.Events.Tables.Evo.Events0.{events_from_0}
use pai.Events.Tables.Evo.Events12.{events_from_12}
use pai.Events.Tables.Evo.Events25.{events_from_25}
use pai.Events.Tables.Evo.Events37.{events_from_37}
use pai.Events.Tables.Evo.Events57.{events_from_57}
use pai.Events.Tables.Evo.Properties1.{properties_1}
use pai.Events.Tables.Evo.Properties2.{properties_2}
use pai.Events.Tables.Evo.Properties3.{properties_3}
use pai.Events.Tables.Evo.Properties4.{properties_4}
use pai.Events.Tables.Evo.Properties5.{properties_5}
pub mod Events0
pub mod Events12
pub mod Events25
pub mod Events37
pub mod Events57
pub mod Properties1
pub mod Properties2
pub mod Properties3
pub mod Properties4
pub mod Properties5

-- `event_map`
abbrev pub evo_event_map : List Entry
evo_event_map =
    events_from_0 ++ events_from_12 ++ events_from_25 ++ events_from_37 ++ events_from_57

-- `property_map`
abbrev pub evo_property_map : List (String × PropertyEntry)
evo_property_map = properties_1 ++ properties_2 ++ properties_3 ++ properties_4 ++ properties_5
