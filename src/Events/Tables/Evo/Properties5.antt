-- ===== src/Events/Tables/Evo/Properties5.antt =====
-- The entries "presently_in_alarm" to "target_state" of `property_map` of
-- paradox/hardware/evo/property.py.
use pai.Prelude.{String, some, List, [], ◌∷◌}
use pai.Events.Tables.{debug, info, property, yes_no}
use pai.Events.Change.{PropertyEntry, plain, by_value}

abbrev pub properties_5 : List (String × PropertyEntry)
properties_5 =
    property "presently_in_alarm" info (some ([]))
      (yes_no "{Type} {label} triggered alarm" "{Type} {label} alarm restored")
    ∷ property "shut_down" info (some ([]))
        (yes_no "{Type} {label} shut down active" "{Type} {label} shut down inactive")
    ∷ property "tx_delay" info (some ([]))
        (yes_no "{Type} {label} tx delay active" "{Type} {label} tx delay inactive")
    ∷ property "time" debug (some ("system" ∷ "time" ∷ [])) (plain "Panel time is {value}")
    ∷ property "current_state" info (some ([])) (
        by_value (
          ("triggered", "{Type} {label} triggered alarm")
          ∷ ("pending", "{Type} {label} arming pending")
          ∷ ("armed_home", "{Type} {label} armed stay")
          ∷ ("armed_away", "{Type} {label} armed away")
          ∷ ("armed_night", "{Type} {label} armed night")
          ∷ ("disarmed", "{Type} {label} disarmed")
          ∷ []))
    ∷ property "target_state" info (some ([])) (
        by_value (
          ("armed_home", "{Type} {label} arm stay")
          ∷ ("armed_away", "{Type} {label} arm away")
          ∷ ("armed_night", "{Type} {label} arm night")
          ∷ ("disarmed", "{Type} {label} disarm")
          ∷ []))
    ∷ []
