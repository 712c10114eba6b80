-- ===== src/Events/Tables/Spectra/Properties3.antt =====
-- The entries "no_delay" to "tamper" of `property_map` of
-- paradox/hardware/spectra_magellan/property.py.
use pai.Prelude.{String, none, some, List, [], ◌∷◌}
use pai.Events.Tables.{debug, info, critical, property, yes_no}
use pai.Events.Change.{PropertyEntry, plain}

abbrev pub properties_3 : List (String × PropertyEntry)
properties_3 =
    property "no_delay" critical none
      (yes_no "{Type} {label} has no delay" "{Type} {label} has a delay active")
    ∷ property "open" debug none (yes_no "Zone {label} open" "Zone {label} closed")
    ∷ property "pager_fail_to_communicate_trouble" critical
        (some ("pager" ∷ "communication" ∷ "trouble" ∷ []))
        (yes_no "Pager communication failed" "Pager communication OK")
    ∷ property "paramedic_alarm" critical (some ("alarm" ∷ "medic" ∷ [])) (
        yes_no "{Type} {label} paramedic alarm active" "{Type} {label} paramedic alarm is inactive")
    ∷ property "power_trouble" critical (some ("trouble" ∷ "power" ∷ []))
        (yes_no "Power trouble" "Power restored")
    ∷ property "pulse_fire_alarm" critical (some ("fire" ∷ "alarm" ∷ [])) (
        yes_no "{Type} {label} fire alarm pulse is active"
          "{Type} {label} fire alarm pulse is inactive")
    ∷ property "ready_status" debug none (yes_no "{Type} {label} ready" "{Type} {label} not ready")
    ∷ property "recent_closing_delay" debug none
        (yes_no "{Type} {label} recent closing delay" "{Type} {label} no recent closing delay")
    ∷ property "rf_interference_trouble" critical (some ("trouble" ∷ "rf" ∷ "interference" ∷ []))
        (yes_no "RF Interference trouble" "RF Interference cleared")
    ∷ property "rf_low_battery_trouble" critical (some ("trouble" ∷ "rf" ∷ "battery" ∷ []))
        (yes_no "{Type} {label} RF battery low" "{Type} {label} RF battery OK")
    ∷ property "noise_floor" debug (some ("rf" ∷ "interference" ∷ []))
        (plain "RF Noise floor is {value}")
    ∷ property "rf_supervision_trouble" critical (some ("rf" ∷ "supervision" ∷ "trouble" ∷ [])) (
        yes_no "{Type} {label} has supervision trouble" "{Type} {label} has no supervision trouble")
    ∷ property "shutdown" info none (yes_no "{Type} {label} is shutdown" "{Type} {label} is active")
    ∷ property "signal_strength" debug (some ("rf" ∷ []))
        (plain "{Type} {label} signal strength {value}")
    ∷ property "silent_alarm" critical (some ("alarm" ∷ []))
        (yes_no "{Type} {label} silent alarm is active" "{Type} {label} silent alarm is inactive")
    ∷ property "squawk" debug none (yes_no "{Type} {label} Squawk On" "{Type} {label} Squawk Off")
    ∷ property "stayd_mode_active" debug none
        (yes_no "{Type} {label} StayD mode is active" "{Type} {label} StayD mode is inactive")
    ∷ property "strobe_alarm" critical (some ("alarm" ∷ []))
        (yes_no "{Type} {label} Alarm Strobe is active" "{Type} {label} Alarm Strobe is inactive")
    ∷ property "supervision_failure_trouble" critical (some ("supervision" ∷ "trouble" ∷ []))
        (yes_no "{Type} {label} supervision lost" "{Type} {label} supervision is OK")
    ∷ property "supervision_trouble" critical (some ("supervision" ∷ "trouble" ∷ []))
        (yes_no "{Type} {label} supervision trouble" "{Type} {label} supervision OK")
    ∷ property "tamper" critical (some ("tamper" ∷ "trouble" ∷ []))
        (yes_no "{Type} {label} tampered" "{Type} {label} tamper cleared")
    ∷ []
