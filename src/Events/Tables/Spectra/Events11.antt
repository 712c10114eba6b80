-- ===== src/Events/Tables/Spectra/Events11.antt =====
-- The entries 11 to 31 of `event_map` of paradox/hardware/spectra_magellan/event.py.
use pai.Prelude.{List, [], ◌∷◌}
use pai.Events.Tables.{
  Entry, debug, info, warn, at, says, of_type, tagged, changing, yes, by_element, by_minor, on,
  toggled, stamped,
}

abbrev pub events_from_11 : List Entry
events_from_11 =
    by_element 11 (
      at debug
      ∷ of_type "user"
      ∷ changing (("button_e", stamped) ∷ [])
      ∷ says "Button E pressed on remote of {@user}"
      ∷ [])
    ∷ by_element 12 (at debug ∷ of_type "user" ∷ says "Cold start wireless zone {label}" ∷ [])
    ∷ by_element 13 (at debug ∷ of_type "user" ∷ says "Cold start wireless module {label}" ∷ [])
    ∷ by_element 14 (
        at debug
        ∷ of_type "zone"
        ∷ changing (("bypassed", toggled) ∷ [])
        ∷ says "Bypass programming on zone {label}"
        ∷ [])
    ∷ by_element 15
        (at debug ∷ of_type "partition" ∷ says "User code activated output {label}" ∷ [])
    ∷ by_element 16 (at debug ∷ of_type "zone" ∷ says "Wireless smoke maintenance signal" ∷ [])
    ∷ by_element 17 (at debug ∷ of_type "zone" ∷ says "Delay zone {label} alarm transmission" ∷ [])
    ∷ by_element 18 (at warn ∷ of_type "zone" ∷ says "Zone {label} signal strength weak 1" ∷ [])
    ∷ by_element 19 (at warn ∷ of_type "zone" ∷ says "Zone {label} signal strength weak 2" ∷ [])
    ∷ by_element 20 (at warn ∷ of_type "zone" ∷ says "Zone {label} signal strength weak 3" ∷ [])
    ∷ by_element 21 (at warn ∷ of_type "zone" ∷ says "Zone {label} signal strength weak 4" ∷ [])
    ∷ by_element 22 (
        at debug
        ∷ of_type "user"
        ∷ changing (("button_5", stamped) ∷ [])
        ∷ says "Button 5 pressed on remote of {@user}"
        ∷ [])
    ∷ by_element 23 (
        at debug
        ∷ of_type "user"
        ∷ changing (("button_6", stamped) ∷ [])
        ∷ says "Button 6 pressed on remote of {@user}"
        ∷ [])
    ∷ by_element 24 (
        at warn
        ∷ of_type "zone"
        ∷ changing (yes "fire_delay" ∷ [])
        ∷ says "Fire delay started"
        ∷ [])
    ∷ by_minor 26 (at debug ∷ of_type "system" ∷ says "Software access" ∷ []) (
        on 0 (says "Non-valid source ID" ∷ [])
        ∷ on 1 (says "WinLoad direct" ∷ [])
        ∷ on 2 (says "WinLoad through IP module" ∷ [])
        ∷ on 3 (says "WinLoad through GSM module" ∷ [])
        ∷ on 4 (says "WinLoad through modem" ∷ [])
        ∷ on 9 (says "IP100 direct" ∷ [])
        ∷ on 10 (says "VDMP3 direct" ∷ [])
        ∷ on 11 (says "Voice through GSM module" ∷ [])
        ∷ on 12 (says "Remote access" ∷ [])
        ∷ on 13 (says "SMS through GSM module" ∷ [])
        ∷ on 99 (says "Any software access" ∷ [])
        ∷ [])
    ∷ by_minor 27 (at debug ∷ of_type "bus" ∷ says "Bus module event" ∷ []) (
        on 0 (says "A bus module was added" ∷ [])
        ∷ on 1 (says "A bus module was removed" ∷ [])
        ∷ on 2 (says "2-way RF Module Communication Failure" ∷ [])
        ∷ on 3 (says "2-way RF Module Communication Restored" ∷ [])
        ∷ [])
    ∷ by_element 28 (at info ∷ of_type "zone" ∷ says "StayD pass acknowledged for {label}" ∷ [])
    ∷ by_element 29
        (at info ∷ of_type "user" ∷ tagged ("arm" ∷ []) ∷ says "Arming by user {label}" ∷ [])
    ∷ by_minor 30 (at info ∷ of_type "special" ∷ says "Special arming" ∷ []) (
        on 0 (tagged ("arm" ∷ []) ∷ says "Auto-arming (on time/no movement)" ∷ [])
        ∷ on 1 (says "Late to close" ∷ [])
        ∷ on 2 (tagged ("arm" ∷ []) ∷ says "No movement arming" ∷ [])
        ∷ on 3 (tagged ("arm" ∷ []) ∷ says "Partial arming" ∷ [])
        ∷ on 4 (tagged ("arm" ∷ []) ∷ says "Quick arming" ∷ [])
        ∷ on 5 (tagged ("arm" ∷ []) ∷ says "Arming through WinLoad" ∷ [])
        ∷ on 6 (tagged ("arm" ∷ []) ∷ says "Arming with keyswitch" ∷ [])
        ∷ on 99 (tagged ("arm" ∷ []) ∷ says "Any special arming" ∷ [])
        ∷ [])
    ∷ by_element 31
        (at info ∷ of_type "user" ∷ tagged ("disarm" ∷ []) ∷ says "Disarming by user {label}" ∷ [])
    ∷ []
