-- ===== src/Events/Tables/Spectra/Events44.antt =====
-- The entries 44 to 52 of `event_map` of paradox/hardware/spectra_magellan/event.py.
use pai.Prelude.{List, [], ◌∷◌}
use pai.Events.Tables.{
  Entry, info, warn, at, says, of_type, tagged, changing, yes, no, by_element, by_minor, on,
}
use pai.Events.Live.{changes}

abbrev pub events_from_44 : List Entry
events_from_44 =
    by_minor 44 (at warn ∷ of_type "system" ∷ tagged ("trouble" ∷ []) ∷ []) (
      on 0 (says "N/A" ∷ [])
      ∷ on 1 (says "AC failure" ∷ [])
      ∷ on 2 (says "Battery failure" ∷ [])
      ∷ on 3 (says "Auxiliary current overload" ∷ [])
      ∷ on 4 (says "Bell current overload" ∷ [])
      ∷ on 5 (says "Bell disconnected" ∷ [])
      ∷ on 6 (changing (yes "timer_loss_trouble" ∷ []) ∷ says "Clock loss" ∷ [])
      ∷ on 7 (changing (yes "fire_loop_trouble" ∷ []) ∷ says "Fire loop trouble" ∷ [])
      ∷ on 8 (says "Fail to communicate to monitoring station telephone #1" ∷ [])
      ∷ on 9 (says "Fail to communicate to monitoring station telephone #2" ∷ [])
      ∷ on 11 (says "Fail to communicate to voice report" ∷ [])
      ∷ on 12 (says "RF jamming" ∷ [])
      ∷ on 13 (says "GSM RF jamming" ∷ [])
      ∷ on 14 (says "GSM no service" ∷ [])
      ∷ on 15 (says "GSM supervision lost" ∷ [])
      ∷ on 16 (says "Fail To Communicate IP Receiver 1 (GPRS)" ∷ [])
      ∷ on 17 (says "Fail To Communicate IP Receiver 2 (GPRS)" ∷ [])
      ∷ on 18 (says "IP Module No Service" ∷ [])
      ∷ on 19 (says "IP Module Supervision Loss" ∷ [])
      ∷ on 20 (says "Fail To Communicate IP Receiver 1 (IP)" ∷ [])
      ∷ on 21 (says "Fail To Communicate IP Receiver 2 (IP)" ∷ [])
      ∷ on 23 (says "Panel tamper supervision" ∷ [])
      ∷ on 99 (says "Any new trouble event" ∷ [])
      ∷ [])
    ∷ by_minor 45 (at info ∷ of_type "system" ∷ tagged ("trouble" ∷ "restore" ∷ []) ∷ []) (
        on 0 (says "Telephone line restore" ∷ [])
        ∷ on 1 (says "AC failure restore" ∷ [])
        ∷ on 2 (says "Battery failure restore" ∷ [])
        ∷ on 3 (says "Auxiliary current overload restore" ∷ [])
        ∷ on 4 (says "Bell current overload restore" ∷ [])
        ∷ on 5 (says "Bell disconnected restore" ∷ [])
        ∷ on 6 (says "Clock loss restore" ∷ [])
        ∷ on 7 (says "Fire loop trouble restore" ∷ [])
        ∷ on 8 (says "Fail to communicate to monitoring station telephone #1 restore" ∷ [])
        ∷ on 9 (says "Fail to communicate to monitoring station telephone #2 restore" ∷ [])
        ∷ on 11 (says "Fail to communicate to voice report restore" ∷ [])
        ∷ on 12 (says "RF jamming restore" ∷ [])
        ∷ on 13 (says "GSM RF jamming restore" ∷ [])
        ∷ on 14 (says "GSM no service restore" ∷ [])
        ∷ on 15 (says "GSM supervision lost restore" ∷ [])
        ∷ on 16 (says "Fail To Communicate IP Receiver 1 (GPRS) restore" ∷ [])
        ∷ on 17 (says "Fail To Communicate IP Receiver 2 (GPRS) restore" ∷ [])
        ∷ on 18 (says "IP Module No Service restore" ∷ [])
        ∷ on 19 (says "IP Module Supervision Loss restore" ∷ [])
        ∷ on 20 (says "Fail To Communicate IP Receiver 1 (IP) restore" ∷ [])
        ∷ on 21 (says "Fail To Communicate IP Receiver 2 (IP) restore" ∷ [])
        ∷ on 23 (says "Panel tamper supervision restore" ∷ [])
        ∷ on 99 (says "Any trouble event restore" ∷ [])
        ∷ [])
    ∷ by_minor 46 (at warn ∷ of_type "module" ∷ tagged ("trouble" ∷ []) ∷ []) (
        on 0 (says "Bus / EBus / Wireless module communication fault" ∷ [])
        ∷ on 1 (says "Tamper trouble" ∷ [])
        ∷ on 2 (says "Power fail" ∷ [])
        ∷ on 3 (says "Battery failure" ∷ [])
        ∷ on 99 (says "Any bus module new trouble event" ∷ [])
        ∷ [])
    ∷ by_minor 47 (at info ∷ of_type "system" ∷ tagged ("trouble" ∷ "restore" ∷ []) ∷ []) (
        on 0 (says "Bus / EBus / Wireless module communication fault restore" ∷ [])
        ∷ on 1 (says "Tamper trouble restore" ∷ [])
        ∷ on 2 (says "Power fail restore" ∷ [])
        ∷ on 3 (says "Battery failure restore" ∷ [])
        ∷ on 99 (says "Any bus module trouble restored event" ∷ [])
        ∷ [])
    ∷ by_minor 48 (at info ∷ of_type "system" ∷ []) (
        on 0 (says "System power up" ∷ [])
        ∷ on 1 (says "Reporting test" ∷ [])
        ∷ on 2 (says "Software log on" ∷ [])
        ∷ on 3 (says "Software log off" ∷ [])
        ∷ on 4 (says "Installer in programming mode" ∷ [])
        ∷ on 5 (says "Installer exited programming mode" ∷ [])
        ∷ on 6 (says "Maintenance in programming mode" ∷ [])
        ∷ on 7 (says "Maintenance exited programming mode" ∷ [])
        ∷ on 8 (says "Closing delinquency delay elapsed" ∷ [])
        ∷ on 99 (says "Any special event" ∷ [])
        ∷ [])
    ∷ by_element 49 (
        at warn
        ∷ ("changes", changes (yes "zone_rf_low_battery_trouble" ∷ []))
        ∷ of_type "zone"
        ∷ tagged ("trouble" ∷ [])
        ∷ says "Low battery on zone {label}"
        ∷ [])
    ∷ by_element 50 (
        at info
        ∷ ("changes", changes (no "zone_rf_low_battery_trouble" ∷ []))
        ∷ of_type "zone"
        ∷ tagged ("trouble" ∷ "restore" ∷ [])
        ∷ says "Low battery on zone {label} restore"
        ∷ [])
    ∷ by_element 51 (
        at warn
        ∷ ("changes", changes (yes "zone_supervision_trouble" ∷ []))
        ∷ of_type "zone"
        ∷ tagged ("trouble" ∷ "supervision" ∷ [])
        ∷ says "Zone {label} supervision trouble"
        ∷ [])
    ∷ by_element 52 (
        at info
        ∷ ("changes", changes (no "zone_supervision_trouble" ∷ []))
        ∷ of_type "zone"
        ∷ tagged ("trouble" ∷ "supervision" ∷ "restore" ∷ [])
        ∷ says "Zone {label} supervision restore"
        ∷ [])
    ∷ []
