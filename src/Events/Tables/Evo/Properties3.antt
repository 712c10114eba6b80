-- ===== src/Events/Tables/Evo/Properties3.antt =====
-- The entries "silent_alarm" to "fail_tel_1_trouble" of `property_map` of
-- paradox/hardware/evo/property.py.
use pai.Prelude.{String, none, some, List, [], ◌∷◌}
use pai.Events.Tables.{debug, info, warn, critical, property, yes_no}
use pai.Events.Change.{PropertyEntry}

abbrev pub properties_3 : List (String × PropertyEntry)
properties_3 =
    property "silent_alarm" critical none
      (yes_no "{Type} {label} silent alarm is active" "{Type} {label} silent alarm is inactive")
    ∷ property "stay_arming_auto" debug none
        (yes_no "{Type} {label} auto stay arming active" "{Type} {label} auto stay arming inactive")
    ∷ property "stay_instant_ready" debug none
        (yes_no "{Type} {label} stay instant ready" "{Type} {label} stay instant not ready")
    ∷ property "supervision_trouble" critical (some ("trouble" ∷ []))
        (yes_no "{Type} {label} supervision trouble" "{Type} {label} supervision OK")
    ∷ property "tamper" warn (some ("trouble" ∷ []))
        (yes_no "{Type} {label} tampered" "{Type} {label} tamper cleared")
    ∷ property "time_to_refresh_zone_status" debug none (
        yes_no "{Type} {label} time to refresh zone status"
          "{Type} {label} time to refresh zone status not came")
    ∷ property "trouble" critical (some ("trouble" ∷ []))
        (yes_no "{Type} {label} has trouble" "No trouble for {Type} {label}")
    ∷ property "tx_delay_finished" debug none
        (yes_no "{Type} {label} tx delay finished" "{Type} {label} tx delay not finished")
    ∷ property "voice_arming" debug none
        (yes_no "{Type} {label} voice arming active" "{Type} {label} voice arming inactive")
    ∷ property "was_in_alarm" info none
        (yes_no "{Type} {label} was in alarm" "{Type} {label} was not in alarm")
    ∷ property "zone_bypassed" info none
        (yes_no "{Type} {label} a zone is bypassed" "{Type} {label} no zones bypassed")
    ∷ property "zone_fire_loop_trouble" warn (some ("trouble" ∷ []))
        (yes_no "{Type} {label} zone fire loop trouble" "{Type} {label} zone fire loop OK")
    ∷ property "zone_supervision_trouble" critical (some ("trouble" ∷ []))
        (yes_no "Zone with supervision trouble" "Zone supervision is OK")
    ∷ property "zone_tamper_trouble" critical (some ("trouble" ∷ []))
        (yes_no "Zone tampered" "No Zone is tampered")
    ∷ property "zone_low_battery_trouble" critical (some ("trouble" ∷ []))
        (yes_no "zone low battery trouble" "zone low battery trouble recovered")
    ∷ property "bus_com_trouble" critical (some ("trouble" ∷ []))
        (yes_no "bus com trouble" "bus com OK")
    ∷ property "bus_global_fail" critical (some ("trouble" ∷ []))
        (yes_no "bus global fail" "bus OK")
    ∷ property "bus_overload_trouble" critical (some ("trouble" ∷ []))
        (yes_no "bus overload trouble" "bus load OK")
    ∷ property "com_pc_trouble" info (some ("trouble" ∷ []))
        (yes_no "pc communication trouble" "pc communication OK")
    ∷ property "dialer_trouble" critical (some ("trouble" ∷ []))
        (yes_no "dialer trouble active" "dialer trouble inactive")
    ∷ property "fail_tel_1_trouble" critical (some ("trouble" ∷ []))
        (yes_no "fail tel 1 trouble active" "fail tel 1 trouble inactive")
    ∷ []
