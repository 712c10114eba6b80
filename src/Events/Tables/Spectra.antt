-- ===== src/Events/Tables/Spectra.antt =====
-- The tables of paradox/hardware/spectra_magellan.
use pai.Prelude.{ℕ, String, List, [], ◌∷◌, ◌++◌}
use pai.Events.Tables.{Entry}
use pai.Events.Change.{PropertyEntry}
use pai.Events.Tables.Spectra.Events0.{events_from_0}
use pai.Events.Tables.Spectra.Events6.{events_from_6}
use pai.Events.Tables.Spectra.Events11.{events_from_11}
use pai.Events.Tables.Spectra.Events32.{events_from_32}
use pai.Events.Tables.Spectra.Events44.{events_from_44}
use pai.Events.Tables.Spectra.Events53.{events_from_53}
use pai.Events.Tables.Spectra.Properties1.{properties_1}
use pai.Events.Tables.Spectra.Properties2.{properties_2}
use pai.Events.Tables.Spectra.Properties3.{properties_3}
use pai.Events.Tables.Spectra.Properties4.{properties_4}
pub mod Elements
pub mod Events0
pub mod Events6
pub mod Events11
pub mod Events32
pub mod Events44
pub mod Events53
pub mod Properties1
pub mod Properties2
pub mod Properties3
pub mod Properties4

-- `event_map`
abbrev pub spectra_event_map : List Entry
spectra_event_map =
    events_from_0 ++ events_from_6 ++ events_from_11 ++ events_from_32 ++ events_from_44
    ++ events_from_53

-- `property_map`
abbrev pub spectra_property_map : List (String × PropertyEntry)
spectra_property_map = properties_1 ++ properties_2 ++ properties_3 ++ properties_4
