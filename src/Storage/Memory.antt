-- ===== src/Storage/Memory.antt =====
-- `MemoryStorage` of paradox/data/memory_storage.py: the containers by their names, and the elements
-- that their references mean.
pub mod Updating
mod Tests
use pai.Prelude.{
  ℕ, suc, ◌≡◌, String, Bool, true, false, Option, none, some, List, [], ◌∷◌, ◌==◌, if◌then◌else◌,
  lookup, upsert, string_eq, arith, refl, Option-cases, Bool-cases, inl, inr, lookup-upsert, ◌∙◌,
  ap, sym, ==_iff,
}
use pai.Storage.{Update, Change, update_properties}
use pai.Storage.Keys.{Key, number, text, keytransform, is_digits, int_from, key_eq}
use pai.Storage.Container.{Container, get, set}

-- an element is a dictionary; `next` is a reference that nothing holds yet
pub record MemoryStorage (V : Type 0) : Type 0 where
  pub data_of : List (String × Container)
  pub element_at : ℕ → List (String × V)
  pub next : ℕ

-- a change with the element's own key, as it is published
pub record Published (V : Type 0) : Type 0 where
  pub object_key : V
  pub change : Change V

abbrev pub no_elements : Container
no_elements = record { items = []; key_index = [] }

abbrev pub container_or_new : Option Container → Container
container_or_new none = no_elements
container_or_new (some c) = c

module _ {V : Type 0} where
  -- what `get_container` returns
  abbrev pub container_of : MemoryStorage V → String → Container
  container_of m name = container_or_new (lookup m.data_of name)

  -- `get_container` keeps the container that it makes for a missing name
  abbrev pub get_container : MemoryStorage V → String → MemoryStorage V
  get_container m name = record m { data_of = upsert m.data_of name (container_of m name) }

  abbrev pub write_at : (ℕ → List (String × V)) → ℕ → List (String × V) → ℕ → List (String × V)
  write_at elements r element q = if q == r then element else elements q

  abbrev pub publish_all : V → List (Change V) → List (Published V)
  publish_all object_key [] = []
  publish_all object_key (c ∷ cs) =
      record { object_key = object_key; change = c } ∷ publish_all object_key cs

  -- `of_key` is a key as a value of an element, `to_key` a value as a key of the index
  module _ (of_key : Key → V) (to_key : V → Option Key) where
    abbrev pub key_in : Option V → Option Key
    key_in none = none
    key_in (some v) = to_key v

    abbrev pub new_element : Key → List (String × V)
    new_element key = ("key", of_key key) ∷ []

    abbrev pub key_of : (ℕ → List (String × V)) → ℕ → Option Key
    key_of elements r = key_in (lookup (elements r) "key")

    -- c[key] = {"key": key}
    abbrev pub create : MemoryStorage V → String → Key → MemoryStorage V
    create m name key =
        let elements = write_at m.element_at m.next (new_element key) in
        record {
          data_of =
              upsert m.data_of name (set (key_of elements) ◌==◌ (container_of m name) key m.next);
          element_at = elements;
          next = suc m.next;
        }

    -- for what `get` has found under the key
    abbrev pub object_from :
        MemoryStorage V → String → Key → Bool → Option ℕ → Option ℕ × MemoryStorage V
    object_from m name key create_if_missing (some r) = (some r, get_container m name)
    object_from m name key true none = (some m.next, create m name key)
    object_from m name key false none = (none, get_container m name)

    unfoldable pub get_container_object :
        MemoryStorage V → String → Key → Bool → Option ℕ × MemoryStorage V
    get_container_object m name key create_if_missing =
        object_from m name key create_if_missing (get (container_of m name) key)

    module _ (same : V → V → Bool) (push : Bool) where
      abbrev pub update_at :
          MemoryStorage V
          → ℕ
          → List (String × Update V)
          → Option V
          → Option (MemoryStorage V × List (Published V))
      update_at m r changes none = none
      update_at m r changes (some object_key) =
          let after = update_properties same push (m.element_at r) changes in
          some (
            record m { element_at = write_at m.element_at r after.0 },
            publish_all object_key after.1,
          )

      abbrev pub update_object :
          List (String × Update V)
          → Option ℕ × MemoryStorage V
          → Option (MemoryStorage V × List (Published V))
      update_object changes (none, m) = none
      update_object changes (some r, m) = update_at m r changes (lookup (m.element_at r) "key")

      -- `update_container_object`; none is the KeyError of an element without "key"
      unfoldable pub update_container_object :
          MemoryStorage V
          → String
          → Key
          → List (String × Update V)
          → Option (MemoryStorage V × List (Published V))
      update_container_object m name key [] = some (m, [])
      update_container_object m name key (c ∷ changes) =
          update_object (c ∷ changes) (get_container_object m name key true)
