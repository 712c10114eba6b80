-- ===== src/Events/Tables/States.antt =====
-- The events of the state of a partition, which `_update_partition_states` of paradox/paradox.py
-- writes as text.
use pai.Prelude.{
  ◌≡◌, String, Bool, true, false, [], ◌∷◌, Option, none, some, lookup, string_eq, refl, arith, ap,
  ◌∙◌,
}
use pai.Session.Partitions.{
  HassState, triggered, armed_home, armed_night, armed_away, disarmed, arming,
}
use pai.Storage.{Change}
use pai.Session.Changes.{on_property_change}
use pai.Events.Change.{PropertyEntry, ChangeEvent, change_event, event_from, message_for, initial}
use pai.Events.Tables.{PropertyValue, word}
use pai.Events.Tables.Announced.{Hardware, evo, spectra_magellan, property_map, str}

abbrev pub state_name : HassState → String
state_name triggered = "triggered"
state_name armed_home = "armed_home"
state_name armed_night = "armed_night"
state_name armed_away = "armed_away"
state_name disarmed = "disarmed"
state_name arming = "arming"

-- the states without a text
abbrev pub is_untold : Hardware → HassState → Bool
is_untold h arming = true
is_untold evo armed_night = false
is_untold spectra_magellan armed_night = true
is_untold h triggered = false
is_untold h armed_home = false
is_untold h armed_away = false
is_untold h disarmed = false

abbrev entry_or_empty : Option PropertyEntry → PropertyEntry
entry_or_empty none = record { level = none; tags = none; message = none }
entry_or_empty (some p) = p

abbrev state_entry : Hardware → PropertyEntry
state_entry h = entry_or_empty (lookup (property_map h) "current_state")

property_map-current_state :
    (h : Hardware) → lookup (property_map h) "current_state" ≡ some (state_entry h)
unfolding lookup
property_map-current_state evo = refl
property_map-current_state spectra_magellan = refl

message_for-state_name :
    (h : Hardware) (s : HassState)
    → string_eq.same (message_for (state_entry h).message (state_name s)) "" ≡ is_untold h s
unfolding lookup
message_for-state_name evo triggered = refl
message_for-state_name evo armed_home = refl
message_for-state_name evo armed_night = refl
message_for-state_name evo armed_away = refl
message_for-state_name evo disarmed = refl
message_for-state_name evo arming = refl
message_for-state_name spectra_magellan triggered = refl
message_for-state_name spectra_magellan armed_home = refl
message_for-state_name spectra_magellan armed_night = refl
message_for-state_name spectra_magellan armed_away = refl
message_for-state_name spectra_magellan disarmed = refl
message_for-state_name spectra_magellan arming = refl

-- When the state that a partition shows changes, an event is sent, and it has a message but for the
-- state `arming` and, of Spectra panels, `armed_night`.
pub on_property_change-state_name :
    (h : Hardware) (s : HassState) (type key : String) (x : Change PropertyValue)
    → initial x ≡ false
    → x.property ≡ "current_state"
    → x.new_value ≡ word (state_name s)
    → (q : ChangeEvent PropertyValue) × (on_property_change str (property_map h) type key x
        ≡ q ∷ [])
      × (string_eq.same q.message "" ≡ is_untold h s)
unfolding on_property_change change_event
on_property_change-state_name h s type key x i p v =
    let l : lookup (property_map h) x.property ≡ some (state_entry h) =
      ap (lookup (property_map h)) p ∙ property_map-current_state h in
    (
      event_from str type key x (state_entry h),
      ground (arith, i, l),
      ap (λ w. string_eq.same (message_for (state_entry h).message (str w)) "") v
          ∙ message_for-state_name h s,
    )
