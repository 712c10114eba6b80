-- ===== src/Events/Tables/Evo/Events0.antt =====
-- The entries 0 to 11 of `event_map` of paradox/hardware/evo/event.py.
use pai.Prelude.{List, [], ◌∷◌}
use pai.Events.Tables.{
  Entry, debug, info, warn, critical, at, says, of_type, tagged, changing, yes, no, minor2_provider,
  by_element, by_minor, on,
}

abbrev pub events_from_0 : List Entry
events_from_0 =
    by_element 0
      (at debug ∷ changing (no "open" ∷ []) ∷ of_type "zone" ∷ says "Zone {label} OK" ∷ [])
    ∷ by_element 1
        (at debug ∷ changing (yes "open" ∷ []) ∷ of_type "zone" ∷ says "Zone {label} open" ∷ [])
    ∷ by_element 2 (
        at warn
        ∷ tagged ("trouble" ∷ [])
        ∷ changing (yes "zone_tamper_trouble" ∷ [])
        ∷ of_type "zone"
        ∷ says "Zone {label} tampered"
        ∷ [])
    ∷ by_element 3 (
        at warn
        ∷ tagged ("trouble" ∷ [])
        ∷ of_type "zone"
        ∷ changing (yes "fire_loop_trouble" ∷ [])
        ∷ says "Zone {label} in fire loop trouble"
        ∷ [])
    ∷ by_minor 4 (at debug ∷ says "Non-reportable event" ∷ []) (
        on 0 (
          at critical
          ∷ of_type "system"
          ∷ tagged ("trouble" ∷ [])
          ∷ says "Telephone line trouble"
          ∷ [])
        ∷ on 1 (of_type "system" ∷ says "Smoke detector reset" ∷ [])
        ∷ on 2 (
            at info
            ∷ tagged ("arm" ∷ [])
            ∷ of_type "partition"
            ∷ changing (yes "arm" ∷ [])
            ∷ says "Arm with no entry delay"
            ∷ [])
        ∷ on 3 (
            at info
            ∷ tagged ("arm" ∷ [])
            ∷ of_type "partition"
            ∷ changing (yes "arm_stay" ∷ yes "arm" ∷ [])
            ∷ says "Arm in stay mode"
            ∷ [])
        ∷ on 4 (
            at info
            ∷ tagged ("arm" ∷ [])
            ∷ of_type "partition"
            ∷ changing (yes "arm_away" ∷ yes "arm" ∷ [])
            ∷ says "Arm in Away mode"
            ∷ [])
        ∷ on 5 (
            at info
            ∷ tagged ("arm" ∷ [])
            ∷ of_type "partition"
            ∷ changing (yes "arm_stay" ∷ yes "arm" ∷ [])
            ∷ says "Full arm when in Stay mode"
            ∷ [])
        ∷ on 6 (of_type "system" ∷ says "Voice module access" ∷ [])
        ∷ on 7 (
            of_type "system"
            ∷ says "Remote control access by {@user}"
            ∷ ("user", minor2_provider)
            ∷ [])
        ∷ on 8 (of_type "system" ∷ says "PC fail to communicate" ∷ [])
        ∷ on 9 (of_type "system" ∷ says "Midnight" ∷ [])
        ∷ on 10 (of_type "system" ∷ says "Neware user login" ∷ [])
        ∷ on 11 (of_type "system" ∷ says "Neware user logout" ∷ [])
        ∷ on 12 (of_type "system" ∷ says "User initiated call-up" ∷ [])
        ∷ on 13 (of_type "system" ∷ says "Force answer" ∷ [])
        ∷ on 14 (of_type "system" ∷ says "Force hangup" ∷ [])
        ∷ on 15 (of_type "system" ∷ says "Reset to default" ∷ [])
        ∷ on 16 (of_type "system" ∷ says "Auxiliary output manually activated" ∷ [])
        ∷ on 17 (of_type "system" ∷ says "Auxiliary output manually deactivated" ∷ [])
        ∷ on 18 (of_type "system" ∷ says "Voice reporting failed" ∷ [])
        ∷ on 19 (
            of_type "system"
            ∷ says "Fail to communicate restore"
            ∷ ("telephone", minor2_provider)
            ∷ [])
        ∷ on 20 (of_type "system" ∷ says "Software access (VDMP3, Ip100, Neware, WinLoad)" ∷ [])
        ∷ on 21 (of_type "system" ∷ says "IPR512 1 registration status" ∷ [])
        ∷ on 22 (of_type "system" ∷ says "IPR512 2 registration status" ∷ [])
        ∷ on 23 (of_type "system" ∷ says "IPR512 3 registration status" ∷ [])
        ∷ on 24 (of_type "system" ∷ says "IPR512 4 registration status" ∷ [])
        ∷ [])
    ∷ by_element 5 (
        at info
        ∷ of_type "user"
        ∷ says "User {label} code entered on keypad"
        ∷ ("keypad", minor2_provider)
        ∷ [])
    ∷ by_element 6 (
        at info
        ∷ tagged ("access" ∷ [])
        ∷ of_type "door"
        ∷ says "{@user} access on door {label}"
        ∷ ("user", minor2_provider)
        ∷ [])
    ∷ by_element 7 (at info ∷ of_type "user" ∷ says "Bypass programming access" ∷ [])
    ∷ by_element 8 (at warn ∷ of_type "zone" ∷ says "TX delay zone {label} alarm" ∷ [])
    ∷ by_element 9 (
        at info
        ∷ tagged ("arm" ∷ [])
        ∷ changing (yes "arm" ∷ [])
        ∷ of_type "partition"
        ∷ says "Arming {label} with {@user} master code"
        ∷ [])
    ∷ by_element 10 (
        at info
        ∷ tagged ("arm" ∷ [])
        ∷ changing (yes "arm" ∷ [])
        ∷ of_type "partition"
        ∷ says "Arming {label} with {@user} code"
        ∷ [])
    ∷ by_element 11 (
        at info
        ∷ tagged ("arm" ∷ [])
        ∷ changing (yes "arm" ∷ [])
        ∷ of_type "partition"
        ∷ says "Arming {label} with keyswitch"
        ∷ [])
    ∷ []
