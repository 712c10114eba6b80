-- ===== src/Storage/Container.antt =====
-- `ElementTypeContainer` of paradox/data/element_type_container.py: a dictionary from keys to
-- elements, with an index by the elements' own textual keys. An element is an object that others
-- hold too: it is a reference here, a number.
pub mod Access
pub mod Filter
use pai.Prelude.{
  ℕ, zero, suc, Bool, true, false, not, ◌&&◌, ◌||◌, Option, none, some, List, [], ◌∷◌, ◌++◌,
  if◌then◌else◌, Eq, lookup, upsert, erase, string_eq, String,
}
use pai.Storage.Keys.{Key, number, text, keytransform, key_eq}

pub record Container : Type 0 where
  pub items : List (Key × ℕ)
  pub key_index : List (Key × ℕ)

-- what `select` takes: one key, or a list, set or range of them
pub data Needle : Type 0 where
  one : Key → Needle
  several : List Key → Needle

abbrev pub keys : List (Key × ℕ) → List Key
keys [] = []
keys ((k, r) ∷ d) = k ∷ keys d

abbrev pub member : Key → List Key → Bool
member k [] = false
member k (j ∷ js) = if key_eq.same j k then true else member k js

abbrev pub or_else {ℓ} : {A : Type ℓ} → Option A → Option A → Option A
or_else none b = b
or_else (some a) b = some a

abbrev pub get_text : Container → Key → Option ℕ
get_text c k = or_else (lookup c.key_index k) (lookup c.items k)

-- `get`: what `__getitem__` finds, none for its KeyError
unfoldable pub get : Container → Key → Option ℕ
get c k = elim (keytransform k) [
  | number n ↦ lookup c.items (number n)
  | text s ↦ get_text c (text s)
]

-- set(self.keys()) - set(id_arr)
unfoldable pub missing_from : List Key → List Key → List Key
missing_from ids [] = []
missing_from ids (k ∷ ks) =
    let rest = missing_from ids ks in if member k ids then rest else k ∷ rest

-- the entry "key" of each element, and Python's == on two elements, as they are at the moment
module _ (key_of : ℕ → Option Key) (same : ℕ → ℕ → Bool) where
  abbrev pub index_upsert : Option Key → List (Key × ℕ) → ℕ → List (Key × ℕ)
  index_upsert none index r = index
  index_upsert (some t) index r = upsert index t r

  abbrev pub index_erase : Option Key → List (Key × ℕ) → List (Key × ℕ)
  index_erase none index = index
  index_erase (some t) index = erase index t

  -- `__setitem__`
  unfoldable pub set : Container → Key → ℕ → Container
  set c k r = record {
    items = upsert c.items (keytransform k) r;
    key_index = index_upsert (key_of r) c.key_index r;
  }

  abbrev pub reindex_from : List (Key × ℕ) → List (Key × ℕ) → List (Key × ℕ)
  reindex_from [] index = index
  reindex_from ((k, r) ∷ items) index = reindex_from items (index_upsert (key_of r) index r)

  unfoldable pub reindex : Container → Container
  reindex c = record c { key_index = reindex_from c.items c.key_index }

  -- the first key that an element like this one stands under
  unfoldable pub find_like : List (Key × ℕ) → ℕ → Option Key
  find_like [] r = none
  find_like ((k, v) ∷ items) r = let rest = find_like items r in if same v r then some k else rest

  abbrev pub get_index_text : Container → Option ℕ → Option Key
  get_index_text c none = none
  get_index_text c (some r) = find_like c.items r

  unfoldable pub get_index : Container → Key → Option Key
  get_index c (number n) = some (number n)
  get_index c (text s) = get_index_text c (get c (text s))

  abbrev pub prepend : Option Key → List Key → List Key
  prepend none ks = ks
  prepend (some k) ks = k ∷ ks

  unfoldable pub select_each : Container → List Key → List Key
  select_each c [] = []
  select_each c (n ∷ ns) = prepend (get_index c n) (select_each c ns)

  unfoldable pub select : Container → Needle → List Key
  select c (several ns) = select_each c ns
  select c (one k) =
      if key_eq.same k (text "all") || key_eq.same k (text "0")
      then keys c.items
      else select_each c (k ∷ [])

  abbrev pub unindex : Container → Option ℕ → List (Key × ℕ)
  unindex c none = c.key_index
  unindex c (some r) = index_erase (key_of r) c.key_index

  -- `__delitem__` of a key that `get_index` finds; an item that is missing raises after the index
  -- has been seen to, which `filter` catches
  abbrev pub delete_at : Container → Option Key → Container
  delete_at c none = c
  delete_at c (some k) = record {
    items = erase c.items (keytransform k);
    key_index = unindex c (get c k);
  }

  unfoldable pub delete : Container → Key → Container
  delete c k = delete_at c (get_index c k)

  unfoldable pub delete_all : Container → List Key → Container
  delete_all c [] = c
  delete_all c (k ∷ ks) = delete_all (delete c k) ks

  unfoldable pub filter : Container → Needle → Container
  filter c needle = delete_all c (missing_from (select c needle) (keys c.items))
