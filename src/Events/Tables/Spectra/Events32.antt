-- ===== src/Events/Tables/Spectra/Events32.antt =====
-- The entries 32 to 43 of `event_map` of paradox/hardware/spectra_magellan/event.py.
use pai.Prelude.{List, [], ◌∷◌}
use pai.Events.Tables.{
  Entry, debug, info, warn, critical, at, says, of_type, tagged, changing, yes, no, by_element,
  by_minor, on, toggled,
}

abbrev pub events_from_32 : List Entry
events_from_32 =
    by_element 32 (
      at info
      ∷ of_type "user"
      ∷ tagged ("disarm" ∷ "after_alarm" ∷ [])
      ∷ says "Disarming after alarm by user {label}"
      ∷ [])
    ∷ by_element 33 (
        at info
        ∷ of_type "user"
        ∷ tagged ("alarm" ∷ "cancel" ∷ [])
        ∷ says "Alarm cancelled by user {label}"
        ∷ [])
    ∷ by_minor 34 (at warn ∷ of_type "special" ∷ []) (
        on 0 (says "Auto-arm cancelled (on time/no movement)" ∷ [])
        ∷ on 1 (at info ∷ tagged ("disarm" ∷ []) ∷ says "Disarming through WinLoad" ∷ [])
        ∷ on 2 (
            at info
            ∷ tagged ("disarm" ∷ "after_alarm" ∷ [])
            ∷ says "Disarming through WinLoad after alarm"
            ∷ [])
        ∷ on 3 (
            at info
            ∷ tagged ("alarm" ∷ "cancel" ∷ [])
            ∷ says "Alarm cancelled through WinLoad"
            ∷ [])
        ∷ on 4
            (at info ∷ tagged ("alarm" ∷ "cancel" ∷ []) ∷ says "Paramedical alarm cancelled" ∷ [])
        ∷ on 5 (at debug ∷ tagged ("disarm" ∷ []) ∷ says "Disarm with keyswitch" ∷ [])
        ∷ on 6 (
            at debug
            ∷ tagged ("disarm" ∷ "after_alarm" ∷ [])
            ∷ says "Disarm with keyswitch after an alarm"
            ∷ [])
        ∷ on 7 (
            at info ∷ tagged ("alarm" ∷ "cancel" ∷ []) ∷ says "Alarm cancelled with keyswitch" ∷ [])
        ∷ on 99 (at info ∷ tagged ("disarm" ∷ []) ∷ says "Any special disarming" ∷ [])
        ∷ [])
    ∷ by_element 35 (
        at info
        ∷ changing (("bypassed", toggled) ∷ [])
        ∷ of_type "zone"
        ∷ tagged ("bypass" ∷ [])
        ∷ says "Zone {label} bypass toggled"
        ∷ [])
    ∷ by_element 36 (
        at critical
        ∷ changing (yes "alarm" ∷ [])
        ∷ of_type "zone"
        ∷ tagged ("alarm" ∷ "trigger" ∷ [])
        ∷ says "Zone {label} in alarm"
        ∷ [])
    ∷ by_element 37 (
        at critical
        ∷ changing (yes "fire_alarm" ∷ [])
        ∷ of_type "zone"
        ∷ tagged ("alarm" ∷ "fire" ∷ "trigger" ∷ [])
        ∷ says "Zone {label} in fire alarm"
        ∷ [])
    ∷ by_element 38 (
        at critical
        ∷ changing (no "alarm" ∷ [])
        ∷ of_type "zone"
        ∷ tagged ("alarm" ∷ "restore" ∷ [])
        ∷ says "Zone {label} alarm restore"
        ∷ [])
    ∷ by_element 39 (
        at critical
        ∷ changing (no "fire_alarm" ∷ [])
        ∷ of_type "zone"
        ∷ tagged ("alarm" ∷ "fire" ∷ "restore" ∷ [])
        ∷ says "Zone {label} fire alarm restore"
        ∷ [])
    ∷ by_minor 40
        (at critical
          ∷ of_type "special"
          ∷ tagged ("alarm" ∷ "trigger" ∷ [])
          ∷ says "Special alarm"
          ∷ [])
        (on 0 (says "Panic non-medical emergency" ∷ [])
          ∷ on 1 (says "Panic medical" ∷ [])
          ∷ on 2 (says "Panic fire" ∷ [])
          ∷ on 3 (says "Recent closing" ∷ [])
          ∷ on 4 (says "Global shutdown" ∷ [])
          ∷ on 5 (says "Duress alarm" ∷ [])
          ∷ on 6 (says "Keypad lockout" ∷ [])
          ∷ on 99 (says "Any special alarm event" ∷ [])
          ∷ [])
    ∷ by_element 41 (
        at info
        ∷ changing (yes "shutdown" ∷ [])
        ∷ of_type "zone"
        ∷ says "Zone {label} shutdown"
        ∷ [])
    ∷ by_element 42 (
        at warn
        ∷ changing (yes "zone_tamper_trouble" ∷ [])
        ∷ tagged ("tamper" ∷ [])
        ∷ of_type "zone"
        ∷ says "Zone {label} tampered"
        ∷ [])
    ∷ by_element 43 (
        at info
        ∷ changing (no "zone_tamper_trouble" ∷ [])
        ∷ tagged ("tamper" ∷ "restore" ∷ [])
        ∷ of_type "zone"
        ∷ says "Zone {label} tamper restore"
        ∷ [])
    ∷ []
