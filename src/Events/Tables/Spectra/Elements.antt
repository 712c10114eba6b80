-- ===== src/Events/Tables/Spectra/Elements.antt =====
-- `event_opt1` of paradox/hardware/spectra_magellan/event.py.
use pai.Prelude.{List, [], ◌∷◌}
use pai.Events.Tables.{Detail, of_type, on}
use pai.Events.Live.{number}

-- `event_opt1`, the elements that several entries tell by the minor code
abbrev pub event_opt1 : List Detail
event_opt1 =
    on 1 (of_type "output" ∷ ("id", number 1) ∷ [])
    ∷ on 2 (of_type "output" ∷ ("id", number 2) ∷ [])
    ∷ on 3 (of_type "output" ∷ ("id", number 3) ∷ [])
    ∷ on 4 (of_type "output" ∷ ("id", number 4) ∷ [])
    ∷ on 5 (of_type "output" ∷ ("id", number 5) ∷ [])
    ∷ on 6 (of_type "output" ∷ ("id", number 6) ∷ [])
    ∷ on 7 (of_type "output" ∷ ("id", number 7) ∷ [])
    ∷ on 8 (of_type "output" ∷ ("id", number 8) ∷ [])
    ∷ on 9 (of_type "output" ∷ ("id", number 9) ∷ [])
    ∷ on 10 (of_type "output" ∷ ("id", number 10) ∷ [])
    ∷ on 11 (of_type "output" ∷ ("id", number 11) ∷ [])
    ∷ on 12 (of_type "output" ∷ ("id", number 12) ∷ [])
    ∷ on 13 (of_type "output" ∷ ("id", number 13) ∷ [])
    ∷ on 14 (of_type "output" ∷ ("id", number 14) ∷ [])
    ∷ on 15 (of_type "output" ∷ ("id", number 15) ∷ [])
    ∷ on 16 (of_type "output" ∷ ("id", number 16) ∷ [])
    ∷ on 17 (of_type "repeater" ∷ ("id", number 1) ∷ [])
    ∷ on 18 (of_type "repeater" ∷ ("id", number 2) ∷ [])
    ∷ on 19 (of_type "keypad" ∷ ("id", number 1) ∷ [])
    ∷ on 20 (of_type "keypad" ∷ ("id", number 2) ∷ [])
    ∷ on 21 (of_type "keypad" ∷ ("id", number 3) ∷ [])
    ∷ on 22 (of_type "keypad" ∷ ("id", number 4) ∷ [])
    ∷ on 27 (of_type "siren" ∷ ("id", number 1) ∷ [])
    ∷ on 28 (of_type "siren" ∷ ("id", number 2) ∷ [])
    ∷ on 29 (of_type "siren" ∷ ("id", number 3) ∷ [])
    ∷ on 30 (of_type "siren" ∷ ("id", number 4) ∷ [])
    ∷ on 99 ([])
    ∷ []
