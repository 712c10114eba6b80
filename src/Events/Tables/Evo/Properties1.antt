-- ===== src/Events/Tables/Evo/Properties1.antt =====
-- The entries "ac_trouble" to "bell_limit_trouble" of `property_map` of
-- paradox/hardware/evo/property.py.
use pai.Prelude.{String, none, some, List, [], ◌∷◌}
use pai.Events.Tables.{debug, info, critical, property, yes_no}
use pai.Events.Change.{PropertyEntry}

abbrev pub properties_1 : List (String × PropertyEntry)
properties_1 =
    property "ac_trouble" critical (some ("trouble" ∷ []))
      (yes_no "AC Power failure" "AC Power restored")
    ∷ property "aux_limit_trouble" critical (some ("trouble" ∷ []))
        (yes_no "{Type} {label} AUX Limit reached" "{Type} {label} AUX Limit is OK")
    ∷ property "generated_alarm" critical none
        (yes_no "{Type} {label} in alarm" "{Type} {label} not in alarm")
    ∷ property "fire_alarm" critical none
        (yes_no "{Type} {label} in fire alarm" "{Type} {label} not in fire alarm")
    ∷ property "alarm_duration_finished" critical none
        (yes_no "{Type} {label} alarm duration finished" "{Type} {label} alarm duration active")
    ∷ property "alarm_in_memory" info none
        (yes_no "{Type} {label} has alarm in memory" "{Type} {label} alarm memory empty")
    ∷ property "arm" info none (yes_no "{Type} {label} is armed" "{Type} {label} is disarmed")
    ∷ property "arm_away" info none
        (yes_no "{Type} {label} away arm active" "{Type} {label} away arm inactive")
    ∷ property "arm_no_entry" info none
        (yes_no "{Type} {label} no entry arm is active" "{Type} {label} no entry arm is inactive")
    ∷ property "arm_stay" info none
        (yes_no "{Type} {label} stay arm active" "{Type} {label} stay arm inactive")
    ∷ property "all_zone_closed" info none
        (yes_no "{Type} {label} all zones closed" "{Type} {label} not all zones closed")
    ∷ property "audible_alarm" critical none
        (yes_no "{Type} {label} alarm is audible" "{Type} {label} alarm is silent")
    ∷ property "auto_arm_reach" critical none
        (yes_no "{Type} {label} auto arm reached" "{Type} {label} auto arm not reached")
    ∷ property "auto_arming_engaged" critical none
        (yes_no "{Type} {label} auto arming engaged" "{Type} {label} auto arming is not engaged")
    ∷ property "bypass_ready" debug none
        (yes_no "{Type} {label} bypass is ready" "{Type} {label} bypass is not ready")
    ∷ property "cancel_alarm_reporting_on_disarming" critical (some ("trouble" ∷ [])) (
        yes_no "{Type} {label} alarm reporting on disarm is inactive"
          "{Type} {label} alarm reporting on disarm is active")
    ∷ property "battery_failure_trouble" critical (some ("trouble" ∷ []))
        (yes_no "Battery failure trouble" "Battery failure trouble recovered")
    ∷ property "follow_become_delay" critical none (
        yes_no "{Type} {label} follow becode delay is active"
          "{Type} {label} follow becode delay is inactive")
    ∷ property "bell_absent_trouble" critical (some ("trouble" ∷ []))
        (yes_no "Bell is absent" "Bell is present")
    ∷ property "bell_limit_trouble" critical (some ("trouble" ∷ []))
        (yes_no "Bell output overloaded" "Bell output load is adequate")
    ∷ []
