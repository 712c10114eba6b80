-- ===== src/Events/Tables/Spectra/Properties4.antt =====
-- The entries "telephone_line" to "current_state" of `property_map` of
-- paradox/hardware/spectra_magellan/property.py.
use pai.Prelude.{String, none, some, List, [], ◌∷◌}
use pai.Events.Tables.{debug, info, critical, property, yes_no}
use pai.Events.Change.{PropertyEntry, plain, by_value}

abbrev pub properties_4 : List (String × PropertyEntry)
properties_4 =
    property "telephone_line" critical (some ("telephone" ∷ "communication" ∷ "trouble" ∷ []))
      (yes_no "Telephone line trouble" "Telephone line OK")
    ∷ property "timer_loss_trouble" critical (some ("timer" ∷ "trouble" ∷ []))
        (yes_no "Timer lost trouble" "Timer recovered")
    ∷ property "transmission_delay_finished" debug none (
        yes_no "{Type} {label} Transmission delay finished"
          "{Type} {label} Transmission delay is active")
    ∷ property "trouble" critical (some ("trouble" ∷ []))
        (yes_no "{Type} {label} has trouble" "No trouble for {Type} {label}")
    ∷ property "vdc" debug (some ("voltage" ∷ "power" ∷ [])) (plain "VDC voltage is {value}V")
    ∷ property "voice_fail_to_communicate_trouble" critical
        (some ("voice" ∷ "communication" ∷ "trouble" ∷ []))
        (yes_no "Voice module communication failed" "Voice module communication OK")
    ∷ property "wait_window" debug none
        (yes_no "{Type} {label} wait window is active" "{Type} {label} wait window is inactive")
    ∷ property "was_bypassed" info none
        (yes_no "{Type} {label} was bypassed" "{Type} {label} was not bypassed")
    ∷ property "was_in_alarm" info (some ("alarm" ∷ []))
        (yes_no "{Type} {label} was in alarm" "{Type} {label} was not in alarm")
    ∷ property "wireless_keypad_ac_trouble" critical (some ("ac" ∷ "power" ∷ "trouble" ∷ []))
        (yes_no "Wireless Keypad AC power with trouble" "Wireless Keypad AC power OK")
    ∷ property "wireless_keypad_battery_trouble" critical (some ("battery" ∷ "trouble" ∷ []))
        (yes_no "Wireless Keypad battery with trouble" "Wireless Keypad battery OK")
    ∷ property "wireless_repeater_ac_loss_trouble" critical (some ("ac" ∷ "power" ∷ "trouble" ∷ []))
        (yes_no "Wireless Repeater with AC power failure" "Wireless Repeater AC power is OK")
    ∷ property "wireless_repeater_battery_trouble" critical (some ("battery" ∷ "trouble" ∷ []))
        (yes_no "Wireless Repeater battery with trouble" "Wireless Repeater battery OK")
    ∷ property "zone_bypassed" info none
        (yes_no "{Type} {label} is bypassed" "{Type} {label} is not bypassed")
    ∷ property "zone_supervision_trouble" critical (some ("supervision" ∷ "trouble" ∷ []))
        (yes_no "Zone with supervision trouble" "Zone supervision is OK")
    ∷ property "zone_tamper_trouble" critical (some ("tamper" ∷ "trouble" ∷ []))
        (yes_no "Zone tampered" "No Zone is tampered")
    ∷ property "time" debug (some ("system" ∷ "time" ∷ [])) (plain "Panel time is {value}")
    ∷ property "current_state" info (some ([])) (
        by_value (
          ("triggered", "{Type} {label} triggered alarm")
          ∷ ("pending", "{Type} {label} arming pending")
          ∷ ("armed_home", "{Type} {label} armed stay")
          ∷ ("armed_away", "{Type} {label} armed away")
          ∷ ("disarmed", "{Type} {label} disarmed")
          ∷ []))
    ∷ []
