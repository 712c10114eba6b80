-- ===== src/Events/Tables/Spectra/Properties1.antt =====
-- The entries "ac_failure_trouble" to "bell_trouble" of `property_map` of
-- paradox/hardware/spectra_magellan/property.py.
use pai.Prelude.{String, some, List, [], ◌∷◌}
use pai.Events.Tables.{debug, info, critical, property, yes_no}
use pai.Events.Change.{PropertyEntry, plain}

abbrev pub properties_1 : List (String × PropertyEntry)
properties_1 =
    property "ac_failure_trouble" critical (some ("trouble" ∷ "power" ∷ []))
      (yes_no "AC Power failure" "AC Power restored")
    ∷ property "ac_loss_trouble" critical (some ("trouble" ∷ "power" ∷ []))
        (yes_no "{Type} {label} AC Power lost" "{Type} {label} AC Power is OK")
    ∷ property "alarm" critical (some ("alarm" ∷ []))
        (yes_no "{Type} {label} in alarm" "{Type} {label} not in alarm")
    ∷ property "alarms_in_memory" info (some ("alarm" ∷ []))
        (yes_no "{Type} {label} has alarms in memory" "{Type} {label} alarms memory empty")
    ∷ property "arm" info (some ("arm" ∷ []))
        (yes_no "{Type} {label} is armed" "{Type} {label} is disarmed")
    ∷ property "arm_force" info (some ("arm" ∷ []))
        (yes_no "{Type} {label} forced arm" "{Type} {label} arm not forced")
    ∷ property "arm_sleep" info (some ("arm" ∷ []))
        (yes_no "{Type} {label} sleep arm is active" "{Type} {label} sleep arm is inactive")
    ∷ property "arm_stay" info (some ("arm" ∷ []))
        (yes_no "{Type} {label} stay arm active" "{Type} {label} stay arm inactive")
    ∷ property "arm_with_remote" info (some ("arm" ∷ []))
        (yes_no "{Type} {label} is armed with remote" "{Type} {label} is not armed with remote")
    ∷ property "audible_alarm" critical (some ("alarm" ∷ []))
        (yes_no "{Type} {label} alarm is audible" "{Type} {label} alarm is silent")
    ∷ property "auto_arming_engaged" critical (some ("arm" ∷ []))
        (yes_no "{Type} {label} auto arming engaged" "{Type} {label} auto arming is not engaged")
    ∷ property "auxiliary_output_overload_trouble" critical (some ("trouble" ∷ "output" ∷ []))
        (yes_no "Auxiliary output overloaded" "Auxiliary output load is adequate")
    ∷ property "battery" debug (some ("voltage" ∷ "battery" ∷ []))
        (plain "Battery voltage is {value}V")
    ∷ property "battery_failure_trouble" critical (some ("battery" ∷ "trouble" ∷ []))
        (yes_no "{Type} {label} battery is low" "{Type} {label} battery is OK")
    ∷ property "bell_activated" critical (some ("bell" ∷ "alarm" ∷ []))
        (yes_no "{Type} {label} bell is active" "{Type} {label} bell is inactive")
    ∷ property "bell_delay_finished" critical (some ("bell" ∷ "alarm" ∷ []))
        (yes_no "{Type} {label} bell delay is inactive" "{Type} {label} bell delay is active")
    ∷ property "bell_output_disconnected_trouble" critical (some ("trouble" ∷ "bell" ∷ []))
        (yes_no "Bell output disconnected" "Bell output connected")
    ∷ property "bell_output_overload_trouble" critical (some ("trouble" ∷ "bell" ∷ []))
        (yes_no "Bell output overloaded" "Bell output load is adequate")
    ∷ property "bell_trouble" critical (some ("trouble" ∷ "bell" ∷ []))
        (yes_no "Bell trouble" "Bell restored")
    ∷ []
