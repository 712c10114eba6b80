-- ===== src/Storage.antt =====
-- What PAI knows of the panel's elements: paradox/data/memory_storage.py and
-- paradox/data/element_type_container.py. A property of an element is written here, the containers
-- of elements are in Storage/Container, and the storage around both in Storage/Memory.
pub mod Changes
pub mod Keys
pub mod Container
pub mod Memory
mod Tests
use text.Mathlib.Text.{starts_with}
use pai.Prelude.{
  ℕ, String, Bool, true, false, not, ◌&&◌, Option, none, some, List, [], ◌∷◌, ◌++◌, if◌then◌else◌,
  string_eq, lookup, upsert,
}

-- what a change asks for: a value, or a function of the old one, which may raise (none)
pub data Update (V : Type 0) : Type 0 where
  value : V → Update V
  function : (Option V → Option V) → Update V

-- the message that a change is published with; `initial` is whether the old value is missing
pub record Change (V : Type 0) : Type 0 where
  pub property : String
  pub new_value : V
  pub old_value : Option V

-- the outcome of one change of a property: nothing happens, or a value is written and published
pub data Effect (V : Type 0) : Type 0 where
  nothing : Effect V
  write : V → Effect V

module _ {V : Type 0} where
  abbrev pub resolve : Update V → Option V → Option V
  resolve (value v) old = some v
  resolve (function f) old = f old

  -- `same` is Python's == on the values, `push` is PUSH_UPDATE_WITHOUT_CHANGE
  module _ (same : V → V → Bool) (push : Bool) where
    abbrev pub effect_of_value : Option V → Option V → Effect V
    effect_of_value none old = nothing
    effect_of_value (some v) none = write v
    effect_of_value (some v) (some w) = if same w v && not push then nothing else write v

    abbrev pub effect_of : List (String × V) → String → Update V → Effect V
    effect_of element property_name update =
        if starts_with property_name "_"
        then nothing
        else effect_of_value (resolve update (lookup element property_name))
            (lookup element property_name)

    -- the loop over the changes: the element after it, and what has been published
    unfoldable pub update_properties :
        List (String × V) → List (String × Update V) → List (String × V) × List (Change V)
    update_properties element [] = (element, [])
    update_properties element ((property_name, update) ∷ changes) =
        elim (effect_of element property_name update) [
          | nothing ↦ update_properties element changes
          | write v ↦
              let after = update_properties (upsert element property_name v) changes in
              let change : Change V = record {
                property = property_name;
                new_value = v;
                old_value = lookup element property_name;
              } in
              (after.0, change ∷ after.1)
        ]
