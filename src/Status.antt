-- ===== src/Status.antt =====
-- Nested values, and merging them: `deep_merge` of paradox/lib/utils.py, by which the statuses of a
-- panel are put together.
pub mod Merge
pub mod Conversion
pub mod Elements
mod Tests
use pai.Prelude.{ℕ, Bool, true, false, Option, none, some, List, [], ◌∷◌, ◌++◌, if◌then◌else◌}
use pai.Storage.Keys.{Key, key_eq}

-- A value of a status: an atom, a list, or a dictionary. A dictionary is a data type of its own,
-- its entries in the order of insertion.
mutual
  pub data Value (A : Type 0) : Type 0 where
    atom : A → Value A
    list : List A → Value A
    dict : Dict A → Value A

  pub data Dict (A : Type 0) : Type 0 where
    nil : Dict A
    entry : Key → Value A → Dict A → Dict A

module _ {A : Type 0} where
  unfoldable pub find : Dict A → Key → Option (Value A)
  find nil k = none
  find (entry j v d) k = let rest = find d k in if key_eq.same j k then some v else rest

  unfoldable pub put : Dict A → Key → Value A → Dict A
  put nil k v = entry k v nil
  put (entry j w d) k v =
      let rest = put d k v in if key_eq.same j k then entry j v d else entry j w rest

  -- the branches of `merge_into` for one key, for values that are no dictionaries both; none stands
  -- for the TypeError of extending a list by an atom, and for extending it by a dictionary, which no
  -- status does
  abbrev pub replace : Bool → Option (Value A) → Value A → Option (Value A)
  replace extend_lists (some (list xs)) (list ys) =
      some (list (if extend_lists then xs ++ ys else ys))
  replace extend_lists (some (list xs)) v = if extend_lists then none else some v
  replace extend_lists old v = some v

  abbrev pub dict_some : Option (Dict A) → Option (Value A)
  dict_some none = none
  dict_some (some d) = some (dict d)

-- `merge_into`, key by key, and what becomes of one key; none is the exception of a list that is to
-- be extended by what is no list.
unfoldable mutual
  pub merge_into : {A : Type 0} → Bool → Dict A → Dict A → Option (Dict A)
  merge_into extend_lists d1 nil = some d1
  merge_into extend_lists d1 (entry k v d2) = elim (merge_value extend_lists (find d1 k) v) [
    | none ↦ none
    | some w ↦ merge_into extend_lists (put d1 k w) d2
  ]

  pub merge_value : {A : Type 0} → Bool → Option (Value A) → Value A → Option (Value A)
  merge_value extend_lists (some (dict a)) (dict b) = dict_some (merge_into extend_lists a b)
  merge_value extend_lists old v = replace extend_lists old v
