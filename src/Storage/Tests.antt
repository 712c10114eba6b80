-- ===== src/Storage/Tests.antt =====
-- The storage's theorems at a zone and a container of two zones.
use pai.Prelude.{
  ℕ, String, ◌≡◌, refl, true, false, Option, none, some, List, [], ◌∷◌, arith, ◌==◌, if◌then◌else◌,
  lookup, upsert, string_eq, erase,
}
use pai.Storage.{Update, value, Change, update_properties}
use pai.Storage.Changes.{
  replay, replay-update_properties, update_properties_other, update_properties_twice,
}
use pai.Storage.Keys.{Key, number, text, keytransform, key_eq}
use pai.Storage.Container.{
  Container, one, several, get, set, delete, select, filter, select_each, get_index, find_like,
}
use pai.Storage.Container.Access.{get-set, get-delete, select-one}
use pai.Storage.Container.Filter.{lookup-filter}

abbrev zone : List (String × ℕ)
zone = ("open", 0) ∷ ("tamper", 0) ∷ []

abbrev report : List (String × Update ℕ)
report = ("open", value 1) ∷ ("tamper", value 0) ∷ ("_raw", value 9) ∷ ("bypassed", value 1) ∷ []

-- the zone opens: the tamper flag is as it was, the private property is left out
abbrev published : List (Change ℕ)
published =
    record { property = "open"; new_value = 1; old_value = some 0 }
    ∷ record { property = "bypassed"; new_value = 1; old_value = none }
    ∷ []

report_published : (update_properties ◌==◌ false zone report).1 ≡ published
unfolding update_properties upsert lookup
report_published = refl

replay-update_properties_example :
    replay zone (update_properties ◌==◌ false zone report).1
    ≡ (update_properties ◌==◌ false zone report).0
replay-update_properties_example = replay-update_properties ◌==◌ false zone report

update_properties_other_example :
    lookup (update_properties ◌==◌ false (("label", 7) ∷ zone) report).0 "label"
    ≡ lookup (("label", 7) ∷ zone) "label"
update_properties_other_example =
    update_properties_other ◌==◌ false (("label", 7) ∷ zone) report "label" refl

beq_refl : (n : ℕ) → n == n ≡ true
beq_refl n = ground arith

update_properties_twice_example :
    let after = (update_properties ◌==◌ false zone report).0 in
    update_properties ◌==◌ false after report ≡ (after, [])
update_properties_twice_example = update_properties_twice ◌==◌ beq_refl zone report refl

-- element 10 is the kitchen, element 11 the hall
abbrev key_of : ℕ → Option Key
key_of r = some (text (if r == 10 then "Kitchen" else "Hall"))

abbrev house : Container
house = record {
  items = (number 1, 10) ∷ (number 2, 11) ∷ [];
  key_index = (text "Kitchen", 10) ∷ (text "Hall", 11) ∷ [];
}

by_name :
    select key_of ◌==◌ house (several (text "Hall" ∷ text "1" ∷ text "Attic" ∷ []))
    ≡ number 2 ∷ number 1 ∷ []
unfolding select select_each get_index get keytransform lookup find_like
by_name = refl

get-set_example :
    (get (set key_of ◌==◌ house (number 3) 11) (number 3) ≡ some 11)
    × (get (set key_of ◌==◌ house (number 3) 11) (text "Hall") ≡ some 11)
    × (get (set key_of ◌==◌ house (number 3) 11) (number 1) ≡ get house (number 1))
get-set_example = get-set key_of ◌==◌ house 3 1 11 "Hall" refl refl refl

get-delete_example :
    (get (delete key_of ◌==◌ house (number 1)) (number 1) ≡ none)
    × (get (delete key_of ◌==◌ house (number 1)) (text "Kitchen") ≡ none)
unfolding lookup delete get_index erase keytransform
get-delete_example = get-delete key_of ◌==◌ house 1 10 "Kitchen" refl refl refl refl

select-one_example :
    (select key_of ◌==◌ house (one (number 99)) ≡ number 99 ∷ [])
    × (select key_of ◌==◌ house (one (text "99")) ≡ [])
unfolding get lookup keytransform
select-one_example = select-one key_of ◌==◌ house 99 "99" refl refl refl

lookup-filter_example :
    lookup (filter key_of ◌==◌ house (several (text "Hall" ∷ []))).items (number 1) ≡ none
unfolding select select_each get_index get keytransform lookup find_like
lookup-filter_example =
    lookup-filter key_of ◌==◌ house (several (text "Hall" ∷ [])) (number 1)
      ((1, refl), ((2, refl), ground arith))
