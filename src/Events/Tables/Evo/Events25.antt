-- ===== src/Events/Tables/Evo/Events25.antt =====
-- The entries 25 to 36 of `event_map` of paradox/hardware/evo/event.py.
use pai.Prelude.{List, [], ◌∷◌}
use pai.Events.Tables.{
  Entry, info, warn, critical, at, says, of_type, tagged, changing, yes, no, request_status_refresh,
  by_element, by_minor, on,
}

abbrev pub events_from_25 : List Entry
events_from_25 =
    by_element 25 (
      at critical
      ∷ tagged ("alarm" ∷ "fire" ∷ "trigger" ∷ [])
      ∷ of_type "zone"
      ∷ changing (yes "fire_alarm" ∷ [])
      ∷ says "Zone {label} in fire alarm"
      ∷ ("hook_fn", request_status_refresh)
      ∷ [])
    ∷ by_element 26 (
        at warn
        ∷ tagged ("alarm" ∷ "restore" ∷ [])
        ∷ of_type "zone"
        ∷ changing (no "presently_in_alarm" ∷ [])
        ∷ says "Zone {label} alarm restore"
        ∷ ("hook_fn", request_status_refresh)
        ∷ [])
    ∷ by_element 27 (
        at warn
        ∷ tagged ("alarm" ∷ "fire" ∷ "restore" ∷ [])
        ∷ of_type "zone"
        ∷ changing (no "fire_alarm" ∷ [])
        ∷ says "Zone {label} fire alarm restore"
        ∷ ("hook_fn", request_status_refresh)
        ∷ [])
    ∷ by_element 28 (at info ∷ of_type "user" ∷ says "{label} Early to disarm by user" ∷ [])
    ∷ by_element 29 (at info ∷ of_type "user" ∷ says "{label} Late to disarm by user" ∷ [])
    ∷ by_minor 30
        (at critical
          ∷ of_type "special"
          ∷ says "Special alarm"
          ∷ tagged ("alarm" ∷ "trigger" ∷ [])
          ∷ ("hook_fn", request_status_refresh)
          ∷ [])
        (on 0 (says "Panic emergency" ∷ [])
          ∷ on 1 (says "Panic medical" ∷ [])
          ∷ on 2 (says "Panic fire" ∷ [])
          ∷ on 3 (says "Recent closing" ∷ [])
          ∷ on 4 (says "Police code" ∷ [])
          ∷ on 5 (says "Zone shutdown" ∷ [])
          ∷ on 6 (says "Future use 1" ∷ [])
          ∷ on 7 (says "Future use 2" ∷ [])
          ∷ on 8 (says "TLM alarm" ∷ [])
          ∷ on 9 (says "Central communication failure alarm" ∷ [])
          ∷ on 10 (says "Module tamper alarm" ∷ [])
          ∷ on 11 (says "Missing GSM module alarm" ∷ [])
          ∷ on 12 (says "GSM no service alarm" ∷ [])
          ∷ on 13 (says "Missing IP module alarm" ∷ [])
          ∷ on 14 (says "IP no service alarm" ∷ [])
          ∷ on 15 (says "Missing voice module alarm" ∷ [])
          ∷ [])
    ∷ by_element 31 (
        at critical
        ∷ of_type "user"
        ∷ tagged ("alarm" ∷ "trigger" ∷ [])
        ∷ says "Duress alarm by user {label}"
        ∷ ("hook_fn", request_status_refresh)
        ∷ [])
    ∷ by_element 32 (
        at info
        ∷ of_type "zone"
        ∷ changing (yes "shutdown" ∷ [])
        ∷ says "Zone {label} shutdown"
        ∷ [])
    ∷ by_element 33 (
        at info
        ∷ tagged ("tamper" ∷ [])
        ∷ of_type "zone"
        ∷ changing (yes "zone_tamper_trouble" ∷ [])
        ∷ says "Zone {label} tamper"
        ∷ [])
    ∷ by_element 34 (
        at info
        ∷ tagged ("tamper" ∷ "restore" ∷ [])
        ∷ of_type "zone"
        ∷ changing (no "zone_tamper_trouble" ∷ [])
        ∷ says "Zone {label} tamper restore"
        ∷ [])
    ∷ by_minor 35
        (at info
          ∷ tagged ("tamper" ∷ [])
          ∷ of_type "zone"
          ∷ says "Zone special {label} tamper"
          ∷ [])
        (on 0 (says "Keypad Lockout" ∷ []) ∷ on 1 (says "Voice lockout" ∷ []) ∷ [])
    ∷ by_minor 36 (at warn ∷ of_type "system" ∷ says "Trouble" ∷ tagged ("trouble" ∷ []) ∷ []) (
        on 0 (says "TLM trouble" ∷ [])
        ∷ on 1 (says "AC failure" ∷ [])
        ∷ on 2 (says "Battery failure" ∷ [])
        ∷ on 3 (says "Auxiliary current overload" ∷ [])
        ∷ on 4 (says "Bell current overload" ∷ [])
        ∷ on 5 (says "Bell disconnected" ∷ [])
        ∷ on 6 (tagged ("clock" ∷ []) ∷ says "Clock loss" ∷ [])
        ∷ on 7 (says "Fire loop trouble" ∷ [])
        ∷ on 8 (says "Fail to communicate to monitoring station telephone #1" ∷ [])
        ∷ on 9 (says "Fail to communicate to monitoring station telephone #2" ∷ [])
        ∷ on 11 (says "Fail to communicate to voice report" ∷ [])
        ∷ on 12 (says "RF jamming" ∷ [])
        ∷ on 13 (says "GSM RF jamming" ∷ [])
        ∷ on 14 (says "GSM no service" ∷ [])
        ∷ on 15 (says "GSM supervision lost" ∷ [])
        ∷ on 16 (says "Fail To Communicate IP Receiver 1 (GPRS)" ∷ [])
        ∷ on 17 (says "Fail To Communicate IP Receiver 2 (GPRS)" ∷ [])
        ∷ on 18 (says "IP Module No Service" ∷ [])
        ∷ on 19 (says "IP Module Supervision Loss" ∷ [])
        ∷ on 20 (says "Fail To Communicate IP Receiver 1 (IP)" ∷ [])
        ∷ on 21 (says "Fail To Communicate IP Receiver 2 (IP)" ∷ [])
        ∷ [])
    ∷ []
