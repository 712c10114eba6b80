-- ===== src/Events/Tables/Evo/Events57.antt =====
-- The entries 57 to 67 of `event_map` of paradox/hardware/evo/event.py.
use pai.Prelude.{List, [], ◌∷◌}
use pai.Events.Tables.{
  Entry, info, warn, at, says, of_type, tagged, minor2_provider, by_element, by_minor, on_text,
}

abbrev pub events_from_57 : List Entry
events_from_57 =
    by_element 57 (at warn ∷ of_type "zone" ∷ says "Zone went back to arm status" ∷ [])
    ∷ by_element 58 (at info ∷ of_type "module" ∷ says "New module assigned on combus" ∷ [])
    ∷ by_element 59 (at info ∷ of_type "module" ∷ says "Module manually removed from combus" ∷ [])
    ∷ by_minor 60 (at info ∷ of_type "system" ∷ says "Non-saved event" ∷ [])
        (on_text 0 "Remote control rejected" ∷ on_text 1 "Future use" ∷ [])
    ∷ by_element 61 (at info ∷ of_type "module" ∷ says "Module manually removed from combus" ∷ [])
    ∷ by_element 62 (
        at info
        ∷ of_type "user"
        ∷ tagged ("access" ∷ "granted" ∷ [])
        ∷ says "{@door} access granted to user {label}"
        ∷ ("door", minor2_provider)
        ∷ [])
    ∷ by_element 63 (
        at info
        ∷ of_type "user"
        ∷ tagged ("access" ∷ "denied" ∷ [])
        ∷ says "{@door} access denied to user {label}"
        ∷ ("door", minor2_provider)
        ∷ [])
    ∷ by_minor 64 (at info ∷ of_type "system" ∷ says "Status 1" ∷ []) (
        on_text 0 "Armed"
        ∷ on_text 1 "Force armed"
        ∷ on_text 2 "Stay armed"
        ∷ on_text 3 "Instant armed"
        ∷ on_text 4 "Strobe alarm"
        ∷ on_text 5 "Silent alarm"
        ∷ on_text 6 "Audible alarm"
        ∷ on_text 7 "Fire alarm"
        ∷ [])
    ∷ by_minor 65 (at info ∷ of_type "system" ∷ says "Status 2" ∷ []) (
        on_text 0 "Ready"
        ∷ on_text 1 "Exit delay"
        ∷ on_text 2 "Entry delay"
        ∷ on_text 3 "System in trouble"
        ∷ on_text 4 "Alarm in memory"
        ∷ on_text 5 "Zones bypassed"
        ∷ on_text 6 "Bypass, master, installer programming"
        ∷ on_text 7 "Keypad lockout"
        ∷ [])
    ∷ by_minor 66 (at info ∷ of_type "system" ∷ says "Status 3" ∷ []) (
        on_text 0 "Intellizone delay engaged"
        ∷ on_text 1 "Fire delay engaged"
        ∷ on_text 2 "Auto arm"
        ∷ on_text 3 "Arming with voice module (set until exit delay finishes)"
        ∷ on_text 4 "Tamper"
        ∷ on_text 5 "Zone low battery"
        ∷ on_text 6 "Fire loop trouble"
        ∷ on_text 7 "Zone supervision trouble"
        ∷ [])
    ∷ by_minor 67 (at info ∷ of_type "system" ∷ says "Special status" ∷ []) (
        on_text 4 "Smoke detector power reset"
        ∷ on_text 5 "Ground start"
        ∷ on_text 6 "Kiss off"
        ∷ on_text 7 "Telephone ring"
        ∷ on_text 96 "Trouble in system"
        ∷ on_text 97 "Trouble in dialer"
        ∷ on_text 98 "Trouble in module"
        ∷ on_text 99 "Trouble in combus"
        ∷ on_text 103 "Time and date trouble"
        ∷ on_text 104 "AC failure"
        ∷ on_text 105 "Battery failure"
        ∷ on_text 106 "Auxiliary current limit"
        ∷ on_text 107 "Bell current limit"
        ∷ on_text 108 "Bell absent"
        ∷ on_text 109 "ROM error"
        ∷ on_text 110 "RAM error"
        ∷ on_text 111 "Future use"
        ∷ on_text 112 "TLM 1 trouble"
        ∷ on_text 113 "Fail to communicate 1"
        ∷ on_text 114 "Fail to communicate 2"
        ∷ on_text 115 "Fail to communicate 3"
        ∷ on_text 116 "Fail to communicate 4"
        ∷ on_text 117 "Fail to communicate with PC"
        ∷ on_text 120 "Module tamper trouble"
        ∷ on_text 121 "Module ROM error"
        ∷ on_text 122 "Module TLM error"
        ∷ on_text 123 "Module Failure to communicate"
        ∷ on_text 124 "Module printer trouble"
        ∷ on_text 125 "Module AC failure"
        ∷ on_text 126 "Module battery trouble"
        ∷ on_text 127 "Module auxiliary failure"
        ∷ on_text 128 "Missing  keypad"
        ∷ on_text 129 "Missing  module"
        ∷ on_text 133 "Global combus failure"
        ∷ on_text 134 "Combus overload"
        ∷ on_text 136 "Dialer relay"
        ∷ [])
    ∷ []
