-- ===== src/Session/Changes.antt =====
-- From the changes that the storage publishes to events: `_on_property_change` of
-- paradox/paradox.py.
use pai.Prelude.{
  String, Bool, true, false, ◌&&◌, Option, none, some, List, [], ◌∷◌, ◌++◌, if◌then◌else◌, lookup,
  string_eq,
}
use pai.Storage.{Update, Change}
use pai.Events.Change.{PropertyEntry, ChangeEvent, change_event, initial}

module _ {V : Type 0} (show : V → String) (property_map : List (String × PropertyEntry)) where
  abbrev pub sent : Option (ChangeEvent V) → List (ChangeEvent V)
  sent none = []
  sent (some e) = e ∷ []

  -- `_on_property_change`: the events that are sent
  unfoldable pub on_property_change : String → String → Change V → List (ChangeEvent V)
  on_property_change type key c =
      if initial c then [] else sent (change_event show property_map type key c)

  -- the events for the changes that an update has published, in order
  unfoldable pub events_of : String → String → List (Change V) → List (ChangeEvent V)
  events_of type key [] = []
  events_of type key (c ∷ cs) = on_property_change type key c ++ events_of type key cs

module _ {V : Type 0} where
  abbrev pub lacks_all : List (String × V) → List (String × Update V) → Bool
  lacks_all element [] = true
  lacks_all element ((p, u) ∷ changes) =
      (elim (lookup element p) [ none ↦ true | some v ↦ false ]) && lacks_all element changes

  abbrev pub absent : List (String × Update V) → String → Bool
  absent [] p = true
  absent ((q, u) ∷ changes) p = if string_eq.same q p then false else absent changes p

  abbrev pub distinct : List (String × Update V) → Bool
  distinct [] = true
  distinct ((p, u) ∷ changes) = absent changes p && distinct changes
