-- ===== src/Events/Tables/Tests.antt =====
-- The tables at messages of panels.
use pai.Prelude.{
  ℕ, ◌≡◌, String, true, false, none, some, ◌∷◌, [], lookup, upsert, string_eq, refl, is_in,
}
use pai.Events.Live.{
  Datum, Raw, LiveEvent, created, live_event, Template, text, add_details, resolve_all, number_eq,
}
use pai.Storage.{Change}
use pai.Session.Changes.{on_property_change}
use pai.Events.Change.{ChangeEvent}
use pai.Events.Tables.{PropertyValue, flag, word, at, says, of_type, changing, yes}
use pai.Events.Tables.Announced.{
  evo, spectra_magellan, event_map, property_map, str, live_event-event_map,
  live_event-on_property_change,
}
use pai.Events.Tables.States.{on_property_change-state_name}
use pai.Session.Partitions.{arming}

abbrev shown : Datum PropertyValue → String
shown d = "value"

abbrev labels : String → ℕ → String
labels kind n = "First floor"

abbrev called : ℕ → Datum PropertyValue
called f = text "7"

-- zone 4 opens
abbrev zone_opens : Raw
zone_opens = record { command = 14; major = 1; minor = 4; partition = 1; label = "Kitchen" }

abbrev zone_open_template : Template PropertyValue
zone_open_template = record {
  entries = at 10 ∷ changing (yes "open" ∷ []) ∷ of_type "zone" ∷ says "Zone {label} open" ∷ [];
  sub = none;
}

abbrev zone_open_event : LiveEvent PropertyValue
zone_open_event = record {
  major = 1;
  minor = 4;
  id = some 4;
  entries = zone_open_template.entries;
  label = "Kitchen";
}

-- the silent alarm of a Spectra partition, told by the minor code
abbrev silent_alarm : Raw
silent_alarm = record { command = 14; major = 2; minor = 2; partition = 1; label = "" }

silent_alarm_created :
    live_event labels shown (event_map spectra_magellan) called silent_alarm
    ≡ created (record {
      major = 2;
      minor = 2;
      id = some 1;
      entries =
          at 50
          ∷ of_type "partition"
          ∷ changing (yes "silent_alarm" ∷ yes "alarm" ∷ [])
          ∷ ("tags", Datum.texts ("alarm" ∷ "silent_alarm" ∷ []))
          ∷ says "Partition {label} silent alarm active"
          ∷ [];
      label = "First floor";
    })
unfolding live_event lookup add_details upsert resolve_all
silent_alarm_created = refl

zone_opens_created :
    live_event labels shown (event_map evo) called zone_opens ≡ created zone_open_event
unfolding live_event lookup resolve_all
zone_opens_created = refl

live_event-event_map_example :
    (e : LiveEvent PropertyValue) × (live_event labels shown (event_map evo) called zone_opens
      ≡ created e)
unfolding lookup
live_event-event_map_example =
    live_event-event_map evo shown labels called zone_opens zone_open_template refl refl

abbrev opened : Change PropertyValue
opened = record { property = "open"; new_value = flag true; old_value = some (flag false) }

live_event-on_property_change_example :
    (q : ChangeEvent PropertyValue) × (on_property_change str
        (property_map evo)
        "zone"
        "Kitchen"
        opened
      ≡ q ∷ [])
    × (string_eq.same q.message "" ≡ false)
unfolding lookup is_in
live_event-on_property_change_example =
    live_event-on_property_change evo shown labels called zone_opens zone_open_event
      (yes "open" ∷ []) "zone" "Kitchen" opened zone_opens_created refl refl refl refl refl

abbrev leaves : Change PropertyValue
leaves = record {
  property = "current_state";
  new_value = word "arming";
  old_value = some (word "disarmed");
}

on_property_change-state_name_example :
    (q : ChangeEvent PropertyValue) × (on_property_change str
        (property_map spectra_magellan)
        "partition"
        "First floor"
        leaves
      ≡ q ∷ [])
    × (string_eq.same q.message "" ≡ true)
on_property_change-state_name_example =
    on_property_change-state_name spectra_magellan arming "partition" "First floor" leaves refl refl
      refl
