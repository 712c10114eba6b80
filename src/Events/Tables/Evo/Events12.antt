-- ===== src/Events/Tables/Evo/Events12.antt =====
-- The entries 12 to 24 of `event_map` of paradox/hardware/evo/event.py.
use pai.Prelude.{List, [], ◌∷◌}
use pai.Events.Tables.{
  Entry, info, critical, at, says, of_type, tagged, changing, yes, no, minor2_provider,
  zone_generated_alarm, by_element, by_minor, on, toggled, word,
}

abbrev pub events_from_12 : List Entry
events_from_12 =
    by_minor 12
      (at info
        ∷ tagged ("arm" ∷ [])
        ∷ changing (yes "arm" ∷ [])
        ∷ of_type "partition"
        ∷ says "Special arming {label}"
        ∷ [])
      (on 0 (of_type "partition" ∷ says "auto arming" ∷ [])
        ∷ on 1 (
            of_type "partition"
            ∷ says "arming with Winload by {@user}"
            ∷ ("user", minor2_provider)
            ∷ [])
        ∷ on 2 (of_type "partition" ∷ says "late to close" ∷ [])
        ∷ on 3 (of_type "partition" ∷ says "no movement arming" ∷ [])
        ∷ on 4 (of_type "partition" ∷ says "partial arming" ∷ [])
        ∷ on 5 (of_type "partition" ∷ says "one-touch arming" ∷ [])
        ∷ on 6 (of_type "partition" ∷ says "Future use 1" ∷ [])
        ∷ on 7 (of_type "partition" ∷ says "Future use 2" ∷ [])
        ∷ on 8 (of_type "partition" ∷ says "(InTouch) voice module arming" ∷ [])
        ∷ on 9 (of_type "partition" ∷ says "Delinquency c;psomg" ∷ [])
        ∷ on 10 (of_type "partition" ∷ says "Future use 3" ∷ [])
        ∷ [])
    ∷ by_element 13 (
        at info
        ∷ tagged ("disarm" ∷ [])
        ∷ changing (no "arm" ∷ ("current_state", word "disarmed") ∷ no "audible_alarm" ∷ [])
        ∷ of_type "partition"
        ∷ says "{label} disarmed with {@user} master code"
        ∷ [])
    ∷ by_element 14 (
        at info
        ∷ tagged ("disarm" ∷ [])
        ∷ changing (no "arm" ∷ ("current_state", word "disarmed") ∷ no "audible_alarm" ∷ [])
        ∷ of_type "partition"
        ∷ says "{label} disarmed with {@user} code"
        ∷ [])
    ∷ by_element 15 (
        at info
        ∷ tagged ("disarm" ∷ [])
        ∷ changing (no "arm" ∷ ("current_state", word "disarmed") ∷ no "audible_alarm" ∷ [])
        ∷ of_type "partition"
        ∷ says "{label} disarmed with keyswitch"
        ∷ [])
    ∷ by_element 16 (
        at info
        ∷ tagged ("disarm" ∷ "after_alarm" ∷ [])
        ∷ changing (no "arm" ∷ ("current_state", word "disarmed") ∷ no "audible_alarm" ∷ [])
        ∷ of_type "partition"
        ∷ says "{label} disarmed after alarm with master"
        ∷ [])
    ∷ by_element 17 (
        at info
        ∷ tagged ("disarm" ∷ "after_alarm" ∷ [])
        ∷ changing (no "arm" ∷ ("current_state", word "disarmed") ∷ no "audible_alarm" ∷ [])
        ∷ of_type "partition"
        ∷ says "{label} disarmed after alarm with user code"
        ∷ [])
    ∷ by_element 18 (
        at info
        ∷ tagged ("disarm" ∷ "after_alarm" ∷ [])
        ∷ changing (no "arm" ∷ ("current_state", word "disarmed") ∷ no "audible_alarm" ∷ [])
        ∷ of_type "partition"
        ∷ says "{label} disarmed after alarm with keyswitch"
        ∷ [])
    ∷ by_element 19 (
        at info
        ∷ tagged ("alarm" ∷ "cancel" ∷ [])
        ∷ of_type "user"
        ∷ says "Alarm cancelled by {label} (master)"
        ∷ [])
    ∷ by_element 20 (
        at info
        ∷ tagged ("alarm" ∷ "cancel" ∷ [])
        ∷ of_type "user"
        ∷ says "Alarm cancelled by {label} (user code)"
        ∷ [])
    ∷ by_element 21 (
        at info
        ∷ tagged ("alarm" ∷ "cancel" ∷ [])
        ∷ of_type "keyswitch"
        ∷ says "{label} Alarm cancelled with keyswitch"
        ∷ [])
    ∷ by_minor 22
        (at info
          ∷ tagged ("disarm" ∷ [])
          ∷ changing (no "arm" ∷ [])
          ∷ of_type "partition"
          ∷ says "{label} special disarming"
          ∷ [])
        (on 0 (of_type "partition" ∷ says "Auto arm cancelled" ∷ [])
          ∷ on 1 (of_type "partition" ∷ says "One-touch stay/instant disarm" ∷ [])
          ∷ on 2 (
              of_type "partition"
              ∷ says "Disarming with Winload by {@user}"
              ∷ ("user", minor2_provider)
              ∷ [])
          ∷ on 3 (
              of_type "partition"
              ∷ tagged ("after_alarm" ∷ [])
              ∷ says "Disarming with Winload after alarm by {@user}"
              ∷ ("user", minor2_provider)
              ∷ [])
          ∷ on 4 (
              of_type "partition"
              ∷ says "Winload cancelled alarm by {@user}"
              ∷ ("user", minor2_provider)
              ∷ [])
          ∷ on 5 (of_type "partition" ∷ says "Future use" ∷ [])
          ∷ on 6 (of_type "partition" ∷ says "Future use" ∷ [])
          ∷ on 7 (of_type "partition" ∷ says "Future use" ∷ [])
          ∷ on 8 (of_type "partition" ∷ says "(InTouch) voice module disarming" ∷ [])
          ∷ on 9 (of_type "partition" ∷ says "Future use" ∷ [])
          ∷ [])
    ∷ by_element 23 (
        at info
        ∷ of_type "zone"
        ∷ changing (("bypassed", toggled) ∷ [])
        ∷ tagged ("bypass" ∷ [])
        ∷ says "Zone {label} bypass toggled"
        ∷ [])
    ∷ by_element 24 (
        at critical
        ∷ tagged ("alarm" ∷ "trigger" ∷ [])
        ∷ of_type "zone"
        ∷ changing (yes "generated_alarm" ∷ yes "presently_in_alarm" ∷ [])
        ∷ says "Zone {label} in alarm"
        ∷ ("hook_fn", zone_generated_alarm)
        ∷ [])
    ∷ []
