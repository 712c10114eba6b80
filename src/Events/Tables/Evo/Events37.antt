-- ===== src/Events/Tables/Evo/Events37.antt =====
-- The entries 37 to 56 of `event_map` of paradox/hardware/evo/event.py.
use pai.Prelude.{List, [], ◌∷◌}
use pai.Events.Tables.{
  Entry, info, warn, at, says, of_type, tagged, yes, no, minor2_provider, by_element, by_minor, on,
  on_text,
}
use pai.Events.Live.{changes}

abbrev pub events_from_37 : List Entry
events_from_37 =
    by_minor 37
      (at info
        ∷ of_type "system"
        ∷ says "Trouble restore"
        ∷ tagged ("trouble" ∷ "restore" ∷ [])
        ∷ [])
      (on 0 (says "TLM trouble restore" ∷ [])
        ∷ on 1 (says "AC failure restore" ∷ [])
        ∷ on 2 (says "Battery failure restore" ∷ [])
        ∷ on 3 (says "Auxiliary current overload restore" ∷ [])
        ∷ on 4 (says "Bell current overload restore" ∷ [])
        ∷ on 5 (says "Bell disconnected restore" ∷ [])
        ∷ on 6 (tagged ("clock" ∷ []) ∷ says "Clock loss restore" ∷ [])
        ∷ on 7 (says "Fire loop trouble restore" ∷ [])
        ∷ on 8 (says "Fail to communicate to monitoring station telephone #1 restore" ∷ [])
        ∷ on 9 (says "Fail to communicate to monitoring station telephone #2 restore" ∷ [])
        ∷ on 11 (says "Fail to communicate to voice report restore" ∷ [])
        ∷ on 12 (says "RF jamming restore" ∷ [])
        ∷ on 13 (says "GSM RF jamming restore" ∷ [])
        ∷ on 14 (says "GSM no service restore" ∷ [])
        ∷ on 15 (says "GSM supervision lost restore" ∷ [])
        ∷ on 16 (says "Fail To Communicate IP Receiver 1 (GPRS) restore" ∷ [])
        ∷ on 17 (says "Fail To Communicate IP Receiver 2 (GPRS) restore" ∷ [])
        ∷ on 18 (says "IP Module No Service restore" ∷ [])
        ∷ on 19 (says "IP Module Supervision Loss restore" ∷ [])
        ∷ on 20 (says "Fail To Communicate IP Receiver 1 (IP) restore" ∷ [])
        ∷ on 21 (says "Fail To Communicate IP Receiver 2 (IP) restore" ∷ [])
        ∷ on 99 (says "Any trouble event restore" ∷ [])
        ∷ [])
    ∷ by_minor 38
        (at warn
          ∷ of_type "system"
          ∷ says "Module trouble"
          ∷ tagged ("trouble" ∷ [])
          ∷ ("module", minor2_provider)
          ∷ [])
        (on 0 (says "Combus fault" ∷ [])
          ∷ on 1 (says "Module tamper" ∷ [])
          ∷ on 2 (says "ROM/RAM error" ∷ [])
          ∷ on 3 (says "TLM trouble" ∷ [])
          ∷ on 4 (says "Fail to communicate" ∷ [])
          ∷ on 5 (says "Printer fault" ∷ [])
          ∷ on 6 (says "AC failure" ∷ [])
          ∷ on 7 (says "Battery failure" ∷ [])
          ∷ on 8 (says "Auxiliary failure" ∷ [])
          ∷ on 9 (says "Future use" ∷ [])
          ∷ [])
    ∷ by_minor 39
        (at info
          ∷ of_type "system"
          ∷ says "Module trouble restore"
          ∷ tagged ("trouble" ∷ "restore" ∷ [])
          ∷ ("module", minor2_provider)
          ∷ [])
        (on 0 (says "Combus fault restored" ∷ [])
          ∷ on 1 (says "Module tamper restored" ∷ [])
          ∷ on 2 (says "ROM/RAM error restored" ∷ [])
          ∷ on 3 (says "TLM trouble restored" ∷ [])
          ∷ on 4 (says "Fail to communicate restored" ∷ [])
          ∷ on 5 (says "Printer fault restored" ∷ [])
          ∷ on 6 (says "AC failure restored" ∷ [])
          ∷ on 7 (says "Battery failure restored" ∷ [])
          ∷ on 8 (says "Auxiliary failure restored" ∷ [])
          ∷ on 9 (says "Future use" ∷ [])
          ∷ [])
    ∷ by_element 40 (
        at warn
        ∷ of_type "system"
        ∷ says "Fail to communicate on telephone number"
        ∷ ("telephone", minor2_provider)
        ∷ [])
    ∷ by_element 41 (
        at warn
        ∷ of_type "zone"
        ∷ ("changes", changes (yes "zone_low_battery_trouble" ∷ []))
        ∷ tagged ("trouble" ∷ [])
        ∷ says "Low battery on zone {label}"
        ∷ [])
    ∷ by_element 42 (
        at warn
        ∷ of_type "zone"
        ∷ ("changes", changes (yes "zone_supervision_trouble" ∷ []))
        ∷ tagged ("trouble" ∷ [])
        ∷ says "Zone {label} supervision trouble"
        ∷ [])
    ∷ by_element 43 (
        at info
        ∷ of_type "zone"
        ∷ ("changes", changes (no "zone_low_battery_trouble" ∷ []))
        ∷ tagged ("trouble" ∷ "restore" ∷ [])
        ∷ says "Low battery on zone {label} restored"
        ∷ [])
    ∷ by_element 44 (
        at info
        ∷ of_type "zone"
        ∷ ("changes", changes (no "zone_supervision_trouble" ∷ []))
        ∷ tagged ("trouble" ∷ "restore" ∷ [])
        ∷ says "Zone {label} supervision trouble restored"
        ∷ [])
    ∷ by_minor 45 (at info ∷ of_type "system" ∷ says "Special events" ∷ []) (
        on_text 0 "Power-up after total power down"
        ∷ on_text 1 "Software reset (watchdog)"
        ∷ on_text 2 "Test report"
        ∷ on_text 3 "Listen-in request"
        ∷ on_text 4 "WinLoad in (connected)"
        ∷ on_text 5 "WinLoad out (disconnected)"
        ∷ on_text 6 "Installer in programming"
        ∷ on_text 7 "Installer out of programming"
        ∷ on_text 8 "Future use"
        ∷ [])
    ∷ by_element 46 (at warn ∷ of_type "user" ∷ says "Early to arm by user" ∷ [])
    ∷ by_element 47 (at warn ∷ of_type "user" ∷ says "Late to arm by user" ∷ [])
    ∷ by_element 48 (at info ∷ of_type "utility" ∷ says "Utility key" ∷ [])
    ∷ by_element 49 (at warn ∷ of_type "door" ∷ says "Request for exit" ∷ [])
    ∷ by_element 50 (at warn ∷ of_type "door" ∷ says "Access denied" ∷ [])
    ∷ by_element 51 (at warn ∷ of_type "door" ∷ says "Door left open alarm" ∷ [])
    ∷ by_element 52 (at warn ∷ of_type "door" ∷ says "Door forced alarm" ∷ [])
    ∷ by_element 53 (at warn ∷ of_type "door" ∷ says "Door left open restore" ∷ [])
    ∷ by_element 54 (at warn ∷ of_type "door" ∷ says "Door forced open restore" ∷ [])
    ∷ by_element 55 (at warn ∷ of_type "zone" ∷ says "Intellizone triggered" ∷ [])
    ∷ by_element 56 (at warn ∷ of_type "zone" ∷ says "Zone excluded on Force arming" ∷ [])
    ∷ []
