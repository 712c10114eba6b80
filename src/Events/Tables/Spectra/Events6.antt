-- ===== src/Events/Tables/Spectra/Events6.antt =====
-- The entries 6 to 10 of `event_map` of paradox/hardware/spectra_magellan/event.py.
use pai.Prelude.{List, [], ◌∷◌}
use pai.Events.Tables.{
  Entry, debug, info, warn, critical, at, says, of_type, tagged, changing, yes, no, by_element,
  by_minor, on, stamped,
}

abbrev pub events_from_6 : List Entry
events_from_6 =
    by_minor 6 (at debug ∷ says "Non-reportable event" ∷ []) (
      on 0 (
        at critical
        ∷ of_type "system"
        ∷ tagged ("trouble" ∷ [])
        ∷ says "Telephone line trouble"
        ∷ [])
      ∷ on 1 (of_type "system" ∷ says "[ENTER]/[CLEAR]/[POWER] key was pressed" ∷ [])
      ∷ on 2 (says "N/A" ∷ [])
      ∷ on 3 (
          at info
          ∷ changing (yes "arm_stay" ∷ yes "arm" ∷ [])
          ∷ of_type "partition"
          ∷ tagged ("arm" ∷ [])
          ∷ says "Arm in stay mode"
          ∷ [])
      ∷ on 4 (
          at info
          ∷ changing (yes "arm_sleep" ∷ yes "arm" ∷ [])
          ∷ of_type "partition"
          ∷ tagged ("arm" ∷ [])
          ∷ says "Arm in sleep mode"
          ∷ [])
      ∷ on 5 (
          at info
          ∷ changing (yes "arm_force" ∷ yes "arm" ∷ [])
          ∷ of_type "partition"
          ∷ tagged ("arm" ∷ [])
          ∷ says "Arm in force mode"
          ∷ [])
      ∷ on 6 (
          at info
          ∷ changing (yes "arm_stay" ∷ yes "arm" ∷ [])
          ∷ of_type "partition"
          ∷ tagged ("arm" ∷ [])
          ∷ says "Full arm when armed in stay mode"
          ∷ [])
      ∷ on 7 (
          at critical
          ∷ tagged ("trouble" ∷ [])
          ∷ changing (yes "computer_fail_to_communicate_trouble" ∷ [])
          ∷ of_type "system"
          ∷ says "PC fail to communicate"
          ∷ [])
      ∷ on 8 (of_type "system" ∷ says "Utility Key 1 pressed (keys [1] and [2])" ∷ [])
      ∷ on 9 (of_type "system" ∷ says "Utility Key 2 pressed (keys [4] and [5])" ∷ [])
      ∷ on 10 (of_type "system" ∷ says "Utility Key 3 pressed (keys [7] and [8])" ∷ [])
      ∷ on 11 (of_type "system" ∷ says "Utility Key 4 pressed (keys [2] and [3])" ∷ [])
      ∷ on 12 (of_type "system" ∷ says "Utility Key 5 pressed (keys [5] and [6])" ∷ [])
      ∷ on 13 (of_type "system" ∷ says "Utility Key 6 pressed (keys [8] and [9])" ∷ [])
      ∷ on 14 (
          at critical
          ∷ of_type "system"
          ∷ tagged ("alarm" ∷ [])
          ∷ says "Tamper generated alarm"
          ∷ [])
      ∷ on 15 (
          at critical
          ∷ of_type "system"
          ∷ tagged ("supervision" ∷ "alarm" ∷ [])
          ∷ says "Supervision loss generated alarm"
          ∷ [])
      ∷ on 16 (says "N/A" ∷ [])
      ∷ on 17 (says "N/A" ∷ [])
      ∷ on 18 (says "N/A" ∷ [])
      ∷ on 19 (says "N/A" ∷ [])
      ∷ on 20 (
          at info
          ∷ changing (yes "arm" ∷ [])
          ∷ of_type "partition"
          ∷ says "Full arm when armed in sleep mode"
          ∷ [])
      ∷ on 21 (of_type "firmware" ∷ says "Firmware upgrade" ∷ [])
      ∷ on 22 (says "N/A" ∷ [])
      ∷ on 23 (
          changing (yes "stayd_mode_active" ∷ [])
          ∷ of_type "partition"
          ∷ says "StayD mode activated"
          ∷ [])
      ∷ on 24 (
          changing (no "stayd_mode_active" ∷ [])
          ∷ of_type "partition"
          ∷ says "StayD mode deactivated"
          ∷ [])
      ∷ on 25 (of_type "system" ∷ says "IP Registration status change" ∷ [])
      ∷ on 26 (of_type "system" ∷ says "GPRS Registration status change" ∷ [])
      ∷ on 27 (at info ∷ of_type "partition" ∷ says "Armed with trouble(s)" ∷ [])
      ∷ on 28 (
          at warn
          ∷ of_type "system"
          ∷ tagged ("trouble" ∷ "supervision" ∷ [])
          ∷ says "Supervision alert"
          ∷ [])
      ∷ on 29 (
          at info
          ∷ of_type "system"
          ∷ tagged ("trouble" ∷ "restore" ∷ "supervision" ∷ [])
          ∷ says "Supervision alert restore"
          ∷ [])
      ∷ on 30 (at warn ∷ of_type "partition" ∷ says "Armed with remote with low battery" ∷ [])
      ∷ on 99 (says "Any non-reportable event" ∷ [])
      ∷ [])
    ∷ by_element 8 (
        at debug
        ∷ of_type "user"
        ∷ changing (("button_b", stamped) ∷ [])
        ∷ says "Button B pressed on remote of {@user}"
        ∷ [])
    ∷ by_element 9 (
        at debug
        ∷ of_type "user"
        ∷ changing (("button_c", stamped) ∷ [])
        ∷ says "Button C pressed on remote of {@user}"
        ∷ [])
    ∷ by_element 10 (
        at debug
        ∷ of_type "user"
        ∷ changing (("button_d", stamped) ∷ [])
        ∷ says "Button D pressed on remote of {@user}"
        ∷ [])
    ∷ []
