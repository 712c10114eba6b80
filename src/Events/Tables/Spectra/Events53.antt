-- ===== src/Events/Tables/Spectra/Events53.antt =====
-- The entries 53 to 64 of `event_map` of paradox/hardware/spectra_magellan/event.py.
use pai.Prelude.{List, [], ◌∷◌}
use pai.Events.Tables.{
  Entry, debug, info, warn, critical, at, says, of_type, tagged, changing, yes, no, by_element,
  by_minor, on,
}
use pai.Events.Tables.Spectra.Elements.{event_opt1}

abbrev pub events_from_53 : List Entry
events_from_53 =
    by_minor 53
      (at warn
        ∷ changing (yes "module_supervision_trouble" ∷ [])
        ∷ of_type "module"
        ∷ tagged ("trouble" ∷ "supervision" ∷ [])
        ∷ says "Wireless module {label} supervision trouble"
        ∷ [])
      event_opt1
    ∷ by_minor 54
        (at info
          ∷ changing (no "module_supervision_trouble" ∷ [])
          ∷ of_type "module"
          ∷ tagged ("trouble" ∷ "supervision" ∷ "restore" ∷ [])
          ∷ says "Wireless module {label} supervision restore"
          ∷ [])
        event_opt1
    ∷ by_minor 55
        (at warn
          ∷ changing (yes "module_tamper_trouble" ∷ [])
          ∷ of_type "module"
          ∷ tagged ("trouble" ∷ "tamper" ∷ [])
          ∷ says "Wireless module {label} tamper trouble"
          ∷ [])
        event_opt1
    ∷ by_element 56 (
        at info
        ∷ changing (no "module_tamper_trouble" ∷ [])
        ∷ of_type "module"
        ∷ tagged ("trouble" ∷ "tamper" ∷ "restore" ∷ [])
        ∷ says "Wireless module {label} tamper restore"
        ∷ [])
    ∷ by_element 57 (
        at critical
        ∷ of_type "user"
        ∷ tagged ("alarm" ∷ "medic" ∷ "trigger" ∷ [])
        ∷ says "Non-medical alarm (paramedic) by {label}"
        ∷ [])
    ∷ by_element 58 (at debug ∷ of_type "zone" ∷ says "Zone {label} forced" ∷ [])
    ∷ by_element 59 (at debug ∷ of_type "zone" ∷ says "Zone {label} included" ∷ [])
    ∷ by_minor 64 (at debug ∷ of_type "system" ∷ []) (
        on 0 (says "Follow Arm LED status" ∷ [])
        ∷ on 1 (says "PGM pulse fast in alarm" ∷ [])
        ∷ on 2 (says "PGM pulse fast in exit delay below 10 sec." ∷ [])
        ∷ on 3 (says "PGM pulse slow in exit delay over 10 sec." ∷ [])
        ∷ on 4 (says "PGM steady ON if armed" ∷ [])
        ∷ on 5 (says "PGM OFF if disarmed" ∷ [])
        ∷ [])
    ∷ []
