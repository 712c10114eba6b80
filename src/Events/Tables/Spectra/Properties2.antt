-- ===== src/Events/Tables/Spectra/Properties2.antt =====
-- The entries "bypassed" to "module_tamper_trouble" of `property_map` of
-- paradox/hardware/spectra_magellan/property.py.
use pai.Prelude.{String, none, some, List, [], ◌∷◌}
use pai.Events.Tables.{debug, info, critical, property, yes_no}
use pai.Events.Change.{PropertyEntry, plain}

abbrev pub properties_2 : List (String × PropertyEntry)
properties_2 =
    property "bypassed" info none (yes_no "{Type} {label} bypassed" "{Type} {label} not bypassed")
    ∷ property "central_1_reporting_ftc_indicator_trouble" critical
        (some ("trouble" ∷ "central" ∷ []))
        (yes_no "Central 1 reporting trouble" "Central 1 reporting OK")
    ∷ property "central_2_reporting_ftc_indicator_trouble" critical
        (some ("trouble" ∷ "central" ∷ []))
        (yes_no "Central 2 reporting trouble" "Central 2 reporting OK")
    ∷ property "communication_trouble" critical (some ("trouble" ∷ "communication" ∷ []))
        (yes_no "Communication trouble" "Communication restored")
    ∷ property "computer_fail_to_communicate_trouble" critical
        (some ("trouble" ∷ "communication" ∷ []))
        (yes_no "PC communication failed" "PC communication OK")
    ∷ property "dc" debug (some ("voltage" ∷ "power" ∷ [])) (plain "DC voltage is {value}V")
    ∷ property "entry_delay" info (some ("entry" ∷ "delay" ∷ []))
        (yes_no "{Type} {label} in entry delay" "{Type} {label} not in entry delay")
    ∷ property "entry_delay_finished" debug (some ("entry" ∷ "delay" ∷ [])) (
        yes_no "{Type} {label} entry delay is finished"
          "{Type} {label} entry delay is not finished")
    ∷ property "exit_delay" info (some ("exit" ∷ "delay" ∷ []))
        (yes_no "{Type} {label} in exit delay" "{Type} {label} not in exit delay")
    ∷ property "exit_delay_finished" debug (some ("exit" ∷ "delay" ∷ []))
        (yes_no "{Type} {label} exit delay is finished" "{Type} {label} exit delay is not finished")
    ∷ property "fire_delay" info (some ("alarm" ∷ "fire" ∷ []))
        (yes_no "{Type} {label} is in fire delay" "{Type} {label} is in fire delay")
    ∷ property "fire" critical (some ("alarm" ∷ "fire" ∷ []))
        (yes_no "{Type} {label} fire" "{Type} {label} has no fire")
    ∷ property "fire_loop_trouble" critical (some ("trouble" ∷ []))
        (yes_no "Fire loop" "Fire loop recovered")
    ∷ property "in_remote_delay" debug none
        (yes_no "{Type} {label} in remote delay" "{Type} {label} not in remote delay")
    ∷ property "intellizone_delay" debug none
        (yes_no "{Type} {label} in intellizone delay" "{Type} {label} not in intellizone delay")
    ∷ property "intellizone_delay_finished" debug none (
        yes_no "{Type} {label} intellizone delay finished"
          "{Type} {label} intellizone delay is active")
    ∷ property "in_tx_delay" debug none
        (yes_no "{Type} {label} in TX delay" "{Type} {label} not in TX delay")
    ∷ property "keypad_battery_failure_trouble" critical (some ("battery" ∷ "trouble" ∷ []))
        (yes_no "Keypad {l} battery is low" "Keypad {label} battery is OK")
    ∷ property "low_battery_trouble" critical (some ("battery" ∷ "trouble" ∷ []))
        (yes_no "{Type} {label} Battery is low" "{Type} {label} Battery level is adequate")
    ∷ property "module_supervision_trouble" critical (some ("supervision" ∷ "trouble" ∷ []))
        (yes_no "Module supervision trouble" "Module supervision OK")
    ∷ property "module_tamper_trouble" critical (some ("tamper" ∷ "trouble" ∷ []))
        (yes_no "Module tampered" "Module tamper cleared")
    ∷ []
