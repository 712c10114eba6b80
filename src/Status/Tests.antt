-- ===== src/Status/Tests.antt =====
-- Two statuses merged.
use pai.Prelude.{
  ℕ, ◌≢◌, false, List, String, ap, arith, string_eq, lookup, upsert, split, join, starts_with,
  concat, ◌≡◌, refl, true, some, [], ◌∷◌,
}
use pai.Storage.Keys.{number, text, keytransform}
use pai.Status.{Dict, atom, list, dict, nil, entry, find, put, merge_into, merge_value}
use pai.Status.Conversion.{
  convert_raw_status, convert_from, split_root, parse_raw_status, merge_container, container_of,
}
use pai.Status.Elements.{convert_raw_status-find, root}
use pai.Status.Merge.{merge_into-find, merge_into_other}

-- zones 1 and 2 from one request, zone 3 and a battery from another
abbrev first : Dict ℕ
first = entry (text "zone") (dict (entry (number 1) (atom 0) (entry (number 2) (atom 1) nil))) nil

abbrev second : Dict ℕ
second =
    entry (text "zone") (dict (entry (number 3) (atom 1) nil))
      (entry (text "battery") (atom 12) nil)

abbrev both : Dict ℕ
both =
    entry (text "zone")
      (dict (entry (number 1) (atom 0) (entry (number 2) (atom 1) (entry (number 3) (atom 1) nil))))
      (entry (text "battery") (atom 12) nil)

merged : merge_into true first second ≡ some both
unfolding merge_into find put
merged = refl

lists_extended :
    merge_into {A = ℕ} true
      (entry (text "x") (list (1 ∷ [])) nil)
      (entry (text "x") (list (2 ∷ [])) nil)
    ≡ some (entry (text "x") (list (1 ∷ 2 ∷ [])) nil)
unfolding merge_into find put
lists_extended = refl

merge_into-find_example :
    find both (text "battery") ≡ merge_value true (find first (text "battery")) (atom 12)
unfolding merge_into find put
merge_into-find_example =
    merge_into-find true first second both (text "battery") (atom 12) refl refl refl

merge_into_other_example : find both (number 7) ≡ find first (number 7)
unfolding merge_into find put
merge_into_other_example = merge_into_other true first second both (number 7) refl refl

-- two properties of two zones, a private entry, and the date of the system
abbrev raw : Dict ℕ
raw = entry (text "_header") (atom 9) (
    entry (text "zone_open") (dict (entry (number 1) (atom 1) (entry (number 2) (atom 0) nil))) (
      entry (text "zone_tamper_trouble") (dict (entry (number 1) (atom 0) nil)) (
        entry (text "system")
          (dict (entry (text "date") (dict (entry (text "time") (atom 5) nil)) nil)) nil)))

converted :
    convert_raw_status raw
    ≡ some (
        (
          "zone",
          entry
              (number 1)
              (dict (entry (text "open") (atom 1) (entry (text "tamper_trouble") (atom 0) nil)))
              (entry (number 2) (dict (entry (text "open") (atom 0) nil)) nil),
        )
        ∷ ("system", entry (text "date") (dict (entry (text "time") (atom 5) nil)) nil)
        ∷ [])
unfolding convert_raw_status convert_from split_root split join starts_with concat parse_raw_status
    merge_container merge_value find put keytransform lookup upsert
converted = refl

abbrev opened : Dict ℕ
opened = entry (number 1) (atom 1) nil

abbrev bypassed : Dict ℕ
bypassed = entry (number 2) (atom 0) (entry (number 1) (atom 7) nil)

abbrev zone : String
zone = "zone"

zone_named : zone ≢ ""
zone_named e = let e : false ≡ true = ap (λ s. string_eq.same s "") e in ground (arith, e)

abbrev open_name : String
open_name = "open"

open_named : open_name ≢ ""
open_named e = let e : false ≡ true = ap (λ s. string_eq.same s "") e in ground (arith, e)

abbrev bypass_name : String
bypass_name = "bypassed"

bypass_named : bypass_name ≢ ""
bypass_named e = let e : false ≡ true = ap (λ s. string_eq.same s "") e in ground (arith, e)

convert_raw_status-find_example :
    (out : List (String × Dict ℕ)) × (convert_raw_status (
        entry
          (root zone open_name)
          (dict opened)
          (entry (root zone bypass_name) (dict bypassed) nil))
      ≡ some out)
    × (find (container_of out zone) (number 1)
        ≡ some (dict (entry (text open_name) (atom 1) (entry (text bypass_name) (atom 7) nil))))
unfolding find
convert_raw_status-find_example =
    convert_raw_status-find zone open_name bypass_name opened bypassed 1 1 7 refl zone_named
      open_named bypass_named refl refl refl refl refl refl refl
