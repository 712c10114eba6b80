-- ===== src/Session/Tests/Events.antt =====
-- A zone's first status, and what comes after it.
use pai.Prelude.{
  ℕ, ◌≡◌, ◌==◌, refl, false, some, none, String, List, [], ◌∷◌, lookup, upsert, string_eq,
  if◌then◌else◌,
}
use pai.Storage.{Update, value, update_properties}
use pai.Events.Change.{PropertyEntry, by_value, change_event}
use pai.Session.Changes.{on_property_change, events_of}

abbrev property_map : List (String × PropertyEntry)
property_map =
    (
      "open",
      record {
        level = some 20;
        message = some (by_value (("1", "Zone {label} opened") ∷ []));
        tags = none;
      },
    )
    ∷ []

abbrev shown : ℕ → String
shown n = if n == 1 then "1" else "0"

abbrev first : List (String × Update ℕ)
first = ("open", value 0) ∷ ("tamper", value 0) ∷ []

abbrev label : List (String × ℕ)
label = ("label", 3) ∷ []

abbrev known : List (String × ℕ)
known = ("open", 0) ∷ ("tamper", 0) ∷ []

abbrev next : List (String × Update ℕ)
next = ("open", value 1) ∷ ("tamper", value 1) ∷ []

-- a change that the map has no entry for makes no event
opened :
    events_of shown property_map "zone" "Hall" (update_properties ◌==◌ false known next).1
    ≡ record {
      type = "zone";
      label = "Hall";
      partition = "";
      property = "open";
      value = 1;
      level = 20;
      message = "Zone {label} opened";
      tags = [];
    }
      ∷ []
unfolding events_of update_properties on_property_change change_event lookup upsert
opened = refl
