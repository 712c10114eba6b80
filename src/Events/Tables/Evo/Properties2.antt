-- ===== src/Events/Tables/Evo/Properties2.antt =====
-- The entries "bypassed" to "police_code_delay" of `property_map` of
-- paradox/hardware/evo/property.py.
use pai.Prelude.{String, none, some, List, [], ◌∷◌}
use pai.Events.Tables.{debug, info, critical, property, yes_no}
use pai.Events.Change.{PropertyEntry}

abbrev pub properties_2 : List (String × PropertyEntry)
properties_2 =
    property "bypassed" info none
      (yes_no "{Type} {label} is bypassed" "{Type} {label} is not bypassed")
    ∷ property "force_ready" info none
        (yes_no "{Type} {label} force ready" "{Type} {label} force not ready")
    ∷ property "inhibit_ready" info none
        (yes_no "{Type} {label} inhibit ready" "{Type} {label} inhibit not ready")
    ∷ property "intellizone_engage" info none
        (yes_no "{Type} {label} intellizone engadged" "{Type} {label} intellizone not engadged")
    ∷ property "lockout" critical (some ("trouble" ∷ []))
        (yes_no "{Type} {label} lockout" "{Type} {label} lockout inactive")
    ∷ property "no_movement_delay_end" info none (
        yes_no "{Type} {label} no movement delay ended"
          "{Type} {label} no movement delay is active")
    ∷ property "entry_delay" debug none
        (yes_no "{Type} {label} in entry delay" "{Type} {label} not in entry delay")
    ∷ property "entry_delay_finished" debug none (
        yes_no "{Type} {label} entry delay is finished"
          "{Type} {label} entry delay is not finished")
    ∷ property "exit_delay" debug none
        (yes_no "{Type} {label} in exit delay" "{Type} {label} not in exit delay")
    ∷ property "exit_delay_finished" debug none
        (yes_no "{Type} {label} exit delay is finished" "{Type} {label} exit delay is not finished")
    ∷ property "fire_delay_in_progress" info none
        (yes_no "{Type} {label} is in fire delay" "{Type} {label} is in fire delay")
    ∷ property "fire_delay_end" info none
        (yes_no "{Type} {label} fire delay ended" "{Type} {label} fire delay not ended")
    ∷ property "intellizone_delay_finished" debug none (
        yes_no "{Type} {label} intellizone delay finished"
          "{Type} {label} intellizone delay is active")
    ∷ property "module_tamper_trouble" critical (some ("trouble" ∷ []))
        (yes_no "Module tampered" "Module tamper cleared")
    ∷ property "open" debug none (yes_no "Zone {label} open" "Zone {label} closed")
    ∷ property "panic_alarm" critical (some ("alarm" ∷ []))
        (yes_no "{Type} {label} panic alarm active" "{Type} {label} panic alarm inactive")
    ∷ property "partition_recently_close" debug none (
        yes_no "{Type} {label} partition recently close active"
          "{Type} {label} partition recently close inactive")
    ∷ property "programming" info none
        (yes_no "{Type} {label} programming active" "{Type} {label} programming inactive")
    ∷ property "ready" debug none (yes_no "{Type} {label} ready" "{Type} {label} not ready")
    ∷ property "remote_arming" info none
        (yes_no "{Type} {label} remote arming active" "{Type} {label} remote arming inactive")
    ∷ property "police_code_delay" info none (
        yes_no "{Type} {label} police code delay active"
          "{Type} {label} police code delay inactive")
    ∷ []
