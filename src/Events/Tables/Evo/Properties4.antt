-- ===== src/Events/Tables/Evo/Properties4.antt =====
-- The entries "fail_tel_2_trouble" to "low_battery" of `property_map` of
-- paradox/hardware/evo/property.py.
use pai.Prelude.{String, some, List, [], ◌∷◌}
use pai.Events.Tables.{info, critical, property, yes_no}
use pai.Events.Change.{PropertyEntry}

abbrev pub properties_4 : List (String × PropertyEntry)
properties_4 =
    property "fail_tel_2_trouble" critical (some ("trouble" ∷ []))
      (yes_no "fail tel 2 trouble active" "fail tel 2 trouble inactive")
    ∷ property "fail_tel_3_trouble" critical (some ("trouble" ∷ []))
        (yes_no "fail tel 3 trouble active" "fail tel 3 trouble inactive")
    ∷ property "fail_tel_4_trouble" critical (some ("trouble" ∷ []))
        (yes_no "fail tel 4 trouble active" "fail tel 4 trouble inactive")
    ∷ property "mdl_com_error" critical (some ("trouble" ∷ []))
        (yes_no "module communication error active" "module communication error")
    ∷ property "missing_keypad_trouble" critical (some ("trouble" ∷ []))
        (yes_no "missing keypad" "keypad present")
    ∷ property "missing_module_trouble" critical (some ("trouble" ∷ []))
        (yes_no "missing a module" "all modules present")
    ∷ property "module_ac_trouble" critical (some ("trouble" ∷ []))
        (yes_no "module AC trouble" "all module AC OK")
    ∷ property "module_aux_trouble" critical (some ("trouble" ∷ []))
        (yes_no "module aux trouble" "module aux OK")
    ∷ property "module_battery_fail" critical (some ("trouble" ∷ []))
        (yes_no "module battery fail" "module battery OK")
    ∷ property "module_fail_to_com_trouble" critical (some ("trouble" ∷ []))
        (yes_no "module fail to communicate trouble" "module communication OK")
    ∷ property "module_printer_trouble" critical (some ("trouble" ∷ []))
        (yes_no "module printer trouble" "module printer OK")
    ∷ property "module_rom_error_trouble" critical (some ("trouble" ∷ []))
        (yes_no "module rom error trouble" "module rom error trouble recovered")
    ∷ property "module_tlm_trouble" critical (some ("trouble" ∷ []))
        (yes_no "module tlm trouble" "module tlm trouble recovered")
    ∷ property "module_trouble" critical (some ("trouble" ∷ []))
        (yes_no "module trouble" "module trouble recovered")
    ∷ property "rom_error_trouble" critical (some ("trouble" ∷ []))
        (yes_no "rom error trouble" "rom error trouble recovered")
    ∷ property "safety_mismatch_trouble" info (some ("trouble" ∷ []))
        (yes_no "safety mismatch trouble" "safety mismatch trouble recovered")
    ∷ property "system_trouble" info (some ("trouble" ∷ []))
        (yes_no "system trouble" "system trouble recovered")
    ∷ property "time_lost_trouble" info (some ("trouble" ∷ []))
        (yes_no "time lost trouble" "time lost trouble recovered")
    ∷ property "tlm_trouble" critical (some ("trouble" ∷ []))
        (yes_no "tlm trouble" "tlm trouble recovered")
    ∷ property "zone_fault_trouble" critical (some ("trouble" ∷ []))
        (yes_no "zone fault trouble" "zone fault trouble recovered")
    ∷ property "activated_entry_delay" info (some ([])) (
        yes_no "{Type} {label} activated entry delay active"
          "{Type} {label} activated entry delay inactive")
    ∷ property "activated_intellizone_delay" info (some ([])) (
        yes_no "{Type} {label} activated intellizone delay active"
          "{Type} {label} activated intellizone delay inactive")
    ∷ property "low_battery" info (some ([]))
        (yes_no "{Type} {label} low battery" "{Type} {label} battery OK")
    ∷ []
