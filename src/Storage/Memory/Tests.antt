-- ===== src/Storage/Memory/Tests.antt =====
-- An empty storage that hears of a zone.
use pai.Prelude.{◌≡◌, String, false, Option, some, [], ◌∷◌, lookup, upsert, string_eq, refl}
use pai.Storage.{Update, value, update_properties}
use pai.Storage.Keys.{Key, number, text, same_key, keytransform}
use pai.Storage.Container.{get}
use pai.Storage.Memory.{MemoryStorage, publish_all, new_element, update_container_object}
use pai.Storage.Memory.Updating.{found_in, update_container_object-found}

-- the values of these elements are their own keys
abbrev as_key : Key → Option Key
as_key k = some k

abbrev as_value : Key → Key
as_value k = k

abbrev empty_storage : MemoryStorage Key
empty_storage = record { data_of = []; element_at = λ r. []; next = 7 }

abbrev opens : String × Update Key
opens = ("open", value (number 1))

update_container_object-found_example :
    (after : MemoryStorage Key) × (update_container_object as_value as_key same_key false
        empty_storage "zone"
        (text "Hall")
        (opens ∷ [])
      ≡ some (
        after,
        publish_all
            (text "Hall")
            (update_properties same_key false
              (new_element as_value as_key (text "Hall"))
              (opens ∷ [])).1,
      ))
    × (found_in as_value as_key after "zone" (text "Hall") ≡ some 7)
    × (after.element_at 7
        ≡ (update_properties same_key false
            (new_element as_value as_key (text "Hall"))
            (opens ∷ [])).0)
unfolding lookup get keytransform
update_container_object-found_example =
    update_container_object-found as_value as_key same_key false empty_storage "zone" (text "Hall")
      opens [] (text "Hall") refl refl

hall_updated :
    (update_properties same_key false (new_element as_value as_key (text "Hall")) (opens ∷ [])).0
    ≡ ("key", text "Hall") ∷ ("open", number 1) ∷ []
unfolding update_properties lookup upsert
hall_updated = refl
