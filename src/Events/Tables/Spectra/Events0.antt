-- ===== src/Events/Tables/Spectra/Events0.antt =====
-- The entries 0 to 3 of `event_map` of paradox/hardware/spectra_magellan/event.py.
use pai.Prelude.{List, [], ◌∷◌}
use pai.Events.Tables.{
  Entry, debug, info, critical, at, says, of_type, tagged, changing, yes, no, by_element, by_minor,
  on,
}
use pai.Events.Live.{number}

abbrev pub events_from_0 : List Entry
events_from_0 =
    by_element 0
      (at debug ∷ changing (no "open" ∷ []) ∷ of_type "zone" ∷ says "Zone {label} OK" ∷ [])
    ∷ by_element 1
        (at debug ∷ changing (yes "open" ∷ []) ∷ of_type "zone" ∷ says "Zone {label} open" ∷ [])
    ∷ by_minor 2 (at critical ∷ of_type "partition" ∷ []) (
        on 0 (says "N/A" ∷ [])
        ∷ on 1 (says "N/A" ∷ [])
        ∷ on 2 (
            changing (yes "silent_alarm" ∷ yes "alarm" ∷ [])
            ∷ tagged ("alarm" ∷ "silent_alarm" ∷ [])
            ∷ says "Partition {label} silent alarm active"
            ∷ [])
        ∷ on 3 (
            changing (yes "audible_alarm" ∷ yes "alarm" ∷ [])
            ∷ tagged ("alarm" ∷ "buzzer_alarm" ∷ [])
            ∷ says "Partition {label} buzzer alarm active"
            ∷ [])
        ∷ on 4 (
            changing (yes "audible_alarm" ∷ yes "alarm" ∷ [])
            ∷ tagged ("alarm" ∷ "steady_alarm" ∷ [])
            ∷ says "Partition {label} steady alarm active"
            ∷ [])
        ∷ on 5 (
            changing (yes "audible_alarm" ∷ yes "alarm" ∷ [])
            ∷ tagged ("alarm" ∷ "pulse_alarm" ∷ [])
            ∷ says "Partition {label} pulse alarm active"
            ∷ [])
        ∷ on 6 (
            changing (yes "strobe_alarm" ∷ yes "alarm" ∷ [])
            ∷ tagged ("alarm" ∷ "strobe" ∷ [])
            ∷ says "Partition {label} strobe active"
            ∷ [])
        ∷ on 7 (at info ∷ changing (no "alarm" ∷ []) ∷ says "Partition {label} alarm stopped" ∷ [])
        ∷ on 8 (at debug ∷ changing (yes "squawk" ∷ []) ∷ ("id", number 1) ∷ says "Squawk ON" ∷ [])
        ∷ on 9 (at debug ∷ changing (no "squawk" ∷ []) ∷ ("id", number 1) ∷ says "Squawk OFF" ∷ [])
        ∷ on 10 (at debug ∷ says "Ground Start" ∷ [])
        ∷ on 11 (
            at info
            ∷ changing (no "arm" ∷ no "arm_sleep" ∷ no "arm_stay" ∷ no "alarm" ∷ [])
            ∷ tagged ("disarm" ∷ [])
            ∷ says "Partition {label} disarmed"
            ∷ [])
        ∷ on 12 (
            at info
            ∷ changing (yes "arm" ∷ [])
            ∷ tagged ("arm" ∷ [])
            ∷ says "Partition {label} armed"
            ∷ [])
        ∷ on 13 (
            at info
            ∷ changing (yes "entry_delay" ∷ [])
            ∷ says "Partition {label} in entry delay"
            ∷ [])
        ∷ on 14 (
            at info
            ∷ changing (yes "exit_delay" ∷ [])
            ∷ says "Partition {label} in exit delay"
            ∷ [])
        ∷ on 15 (at debug ∷ says "Pre-alarm delay" ∷ [])
        ∷ on 16 (at debug ∷ says "Report confirmation" ∷ [])
        ∷ on 99 (at debug ∷ says "Any partition status event" ∷ [])
        ∷ [])
    ∷ by_minor 3 (at debug ∷ of_type "system" ∷ []) (
        on 0 (changing (no "bell_activated" ∷ []) ∷ says "Bell OFF" ∷ [])
        ∷ on 1 (changing (yes "bell_activated" ∷ []) ∷ says "Bell ON" ∷ [])
        ∷ on 2 (says "Bell squawk arm" ∷ [])
        ∷ on 3 (says "Bell squawk disarm" ∷ [])
        ∷ on 99 (says "Any bell status event" ∷ [])
        ∷ [])
    ∷ []
