-- ===== src/Events/Change.antt =====
-- Events from changes of properties: `ChangeEvent` of paradox/event.py, on the changes that the
-- storage publishes.
use pai.Prelude.{
  ℕ, String, Bool, true, false, Option, none, some, List, [], if◌then◌else◌, lookup, string_eq,
}
use pai.Storage.{Change}

-- the message of a property's entry: a text, or a text for each value, by what str makes of it
pub data MessageTemplate : Type 0 where
  plain : String → MessageTemplate
  by_value : List (String × String) → MessageTemplate

-- An entry of the property map; no entry of the panels' maps holds a function.
pub record PropertyEntry : Type 0 where
  pub level : Option ℕ
  pub message : Option MessageTemplate
  pub tags : Option (List String)

pub record ChangeEvent (V : Type 0) : Type 0 where
  pub type : String
  pub label : String
  pub partition : String
  pub property : String
  pub value : V
  pub level : ℕ
  pub message : String
  pub tags : List String

abbrev pub default {ℓ} : {A : Type ℓ} → A → Option A → A
default d none = d
default d (some a) = a

abbrev pub message_for : Option MessageTemplate → String → String
message_for none shown = ""
message_for (some (plain s)) shown = s
message_for (some (by_value d)) shown = default "" (lookup d shown)

-- `Change.initial`, for values other than None
abbrev pub initial : {V : Type 0} → Change V → Bool
initial c = elim (c.old_value) [ none ↦ true | some v ↦ false ]

module _ {V : Type 0} (show : V → String) where
  abbrev pub event_from : String → String → Change V → PropertyEntry → ChangeEvent V
  event_from type key c e = record {
    type = type;
    label = key;
    partition = if string_eq.same type "partition" then key else "";
    property = c.property;
    value = c.new_value;
    level = default 0 e.level;
    message = message_for e.message (show c.new_value);
    tags = default [] e.tags;
  }

  -- `ChangeEvent.__init__`, for a change of an element of a type under a key; 0 is EventLevel.NOTSET,
  -- and none is the AssertionError
  unfoldable pub change_event :
      List (String × PropertyEntry) → String → String → Change V → Option (ChangeEvent V)
  change_event property_map type key c = elim (lookup property_map c.property) [
    | none ↦ none
    | some e ↦ some (event_from type key c e)
  ]
