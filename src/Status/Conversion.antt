-- ===== src/Status/Conversion.antt =====
-- From the raw status of a panel to elements with properties: `convert_raw_status` of
-- paradox/parsers/status.py.
use pai.Prelude.{
  String, Bool, true, false, ◌&&◌, Option, none, some, List, [], ◌∷◌, if◌then◌else◌, lookup, upsert,
  string_eq, split, join, starts_with,
}
use pai.Storage.Keys.{Key, number, text as name, keytransform, key_eq}
use pai.Status.{Value, atom, list, dict, Dict, nil, entry, find, put, merge_value}

-- `_iterate_properties` leaves out the private properties of a dictionary
abbrev pub is_private : Key → Bool
is_private (number n) = false
is_private (name s) = starts_with s "_"

abbrev pub is_number : Key → Bool
is_number (number n) = true
is_number (name s) = false

abbrev pub all_numbers : {A : Type 0} → Dict A → Bool
all_numbers nil = true
all_numbers (entry k v d) = is_number k && all_numbers d

-- `_parse_raw_status`: the property of a value, the elements of a dictionary of numbers, and the
-- entries of a dictionary of names. The keys of a dictionary are distinct, so that each entry makes
-- an entry.
unfoldable mutual
  pub parse_raw_status : {A : Type 0} → Key → Value A → Dict A
  parse_raw_status prop_name (atom a) = entry prop_name (atom a) nil
  parse_raw_status prop_name (list xs) = entry prop_name (list xs) nil
  parse_raw_status prop_name (dict d) = elim (all_numbers d) [
    | true ↦ parse_elements prop_name d
    | false ↦ parse_named d
  ]

  pub parse_elements : {A : Type 0} → Key → Dict A → Dict A
  parse_elements prop_name nil = nil
  parse_elements prop_name (entry k v d) = elim (is_private k) [
    | true ↦ parse_elements prop_name d
    | false ↦ entry k (dict (parse_raw_status prop_name v)) (parse_elements prop_name d)
  ]

  pub parse_named : {A : Type 0} → Dict A → Dict A
  parse_named nil = nil
  parse_named (entry k v d) = elim (is_private k) [
    | true ↦ parse_named d
    | false ↦ entry k (parse_entry k v) (parse_named d)
  ]

  -- the value of an entry of a dictionary of names: a dictionary is parsed with the key as the
  -- property
  pub parse_entry : {A : Type 0} → Key → Value A → Value A
  parse_entry k (dict d) =
      dict (elim (all_numbers d) [ true ↦ parse_elements k d | false ↦ parse_named d ])
  parse_entry k (atom a) = atom a
  parse_entry k (list xs) = list xs

abbrev pub head_of : List String → String
head_of [] = ""
head_of (s ∷ ss) = s

abbrev pub tail_of : List String → List String
tail_of [] = []
tail_of (s ∷ ss) = ss

-- `prop_name`, which is the element's type where there is nothing behind it
abbrev pub or_type : String → String → String
or_type prop element_type = if string_eq.same prop "" then element_type else prop

-- the element type and the property of a key such as "zone_open"
unfoldable pub split_root : String → String × String
split_root root_key = (
  head_of (split 95 root_key),
  or_type (join "_" (tail_of (split 95 root_key))) (head_of (split 95 root_key)),
)

module _ {A : Type 0} where
  -- `deep_merge` into the container of a type, whose keys are transformed; no element of a status
  -- has an entry "key", so that the container's index stays empty
  unfoldable pub merge_container : Dict A → Dict A → Option (Dict A)
  merge_container c nil = some c
  merge_container c (entry k v d) = elim (merge_value false (find c (keytransform k)) v) [
    | none ↦ none
    | some w ↦ merge_container (put c (keytransform k) w) d
  ]

  -- out[element_type], for a defaultdict
  abbrev pub container_of : List (String × Dict A) → String → Dict A
  container_of out element_type = elim (lookup out element_type) [ none ↦ nil | some c ↦ c ]

  abbrev pub merge_at :
      List (String × Dict A) → String × String → Value A → Option (List (String × Dict A))
  merge_at out (element_type, prop_name) v =
      elim (merge_container (container_of out element_type) (parse_raw_status (name prop_name) v)) [
        | none ↦ none
        | some c ↦ some (upsert out element_type c)
      ]

  abbrev pub merge_root : List (String × Dict A) → Key → Value A → Option (List (String × Dict A))
  merge_root out (number n) v = none
  merge_root out (name s) v = if starts_with s "_" then some out else merge_at out (split_root s) v

  -- `convert_raw_status`; none is an exception, as for a key of the root that is a number
  unfoldable pub convert_from : List (String × Dict A) → Dict A → Option (List (String × Dict A))
  convert_from out nil = some out
  convert_from out (entry k v d) = elim (merge_root out k v) [
    | none ↦ none
    | some later ↦ convert_from later d
  ]

  unfoldable pub convert_raw_status : Dict A → Option (List (String × Dict A))
  convert_raw_status raw_status = convert_from [] raw_status
