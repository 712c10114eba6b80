-- ===== src/Storage/Memory/Updating.antt =====
-- What an update of an element leaves in the storage.
use pai.Prelude.{
  ℕ, suc, ◌≡◌, String, Bool, true, Option, none, some, List, ◌∷◌, ◌==◌, lookup, upsert, string_eq,
  arith, refl, Bool-cases, inl, inr, lookup-upsert, ◌∙◌, ap, sym, subst,
}
use pai.Storage.{Update, Change, update_properties}
use pai.Storage.Keys.{Key, number, text, keytransform, is_digits, int_from, key_eq}
use pai.Storage.Container.{Container, get, set}
use pai.Storage.Memory.{
  MemoryStorage, container_of, container_or_new, write_at, publish_all, new_element, key_of, create,
  get_container_object, object_from, update_at, update_object, update_container_object, key_in,
}

get-set_key :
    (key_of : ℕ → Option Key) (same : ℕ → ℕ → Bool) (c : Container) (key : Key) (r : ℕ)
    → key_of r ≡ some key
    → get (set key_of same c key r) key ≡ some r
unfolding get set keytransform
get-set_key key_of same c (number n) r h = lookup-upsert c.items (number n) r
get-set_key key_of same c (text s) r h = elim (Bool-cases (is_digits s)) [
  | inl d ↦ ground (arith, d, lookup-upsert c.items (number (int_from 0 s)) r)
  | inr d ↦ ground (arith, d, h, lookup-upsert c.key_index (text s) r)
]

write_at-same :
    {V : Type 0} (elements : ℕ → List (String × V)) (r : ℕ) (element : List (String × V))
    → write_at elements r element r ≡ element
write_at-same elements r element = ground arith

module _ {V : Type 0} (of_key : Key → V) (to_key : V → Option Key) where
  -- the element under a key, or the one that is made
  abbrev pub element_for : MemoryStorage V → Option ℕ → Key → List (String × V)
  element_for m none key = new_element of_key to_key key
  element_for m (some r) key = m.element_at r

  abbrev pub reference_for : MemoryStorage V → Option ℕ → ℕ
  reference_for m none = m.next
  reference_for m (some r) = r

  abbrev pub found_in : MemoryStorage V → String → Key → Option ℕ
  found_in m name key = get (container_of m name) key

  container_of-upsert :
      (m : MemoryStorage V) (name : String) (c : Container) (elements : ℕ → List (String × V))
      (n : ℕ)
      → container_of
          (record { data_of = upsert m.data_of name c; element_at = elements; next = n })
          name
        ≡ c
  container_of-upsert m name c elements n = ap container_or_new (lookup-upsert m.data_of name c)

  create-get :
      (m : MemoryStorage V) (name : String) (key : Key)
      → to_key (of_key key) ≡ some key
      → found_in (create of_key to_key m name key) name key ≡ some m.next
  unfolding lookup
  create-get m name key h =
      let elements = write_at m.element_at m.next (new_element of_key to_key key) in
      let k : key_of of_key to_key elements m.next ≡ some key =
        ap (λ e. key_in of_key to_key (lookup e "key"))
          (write_at-same m.element_at m.next (new_element of_key to_key key))
        ∙ h in
      ap (λ c. get c key)
        (container_of-upsert m name
          (set (key_of of_key to_key elements) ◌==◌ (container_of m name) key m.next) elements
          (suc m.next))
      ∙ get-set_key (key_of of_key to_key elements) ◌==◌ (container_of m name) key m.next k

  object_from-found :
      (m : MemoryStorage V) (name : String) (key : Key) (o : Option ℕ)
      → to_key (of_key key) ≡ some key
      → found_in m name key ≡ o
      → let x = object_from of_key to_key m name key true o in
        let r = reference_for m o in
        (x.0 ≡ some r) × (found_in x.1 name key ≡ some r) × (x.1.element_at r ≡ element_for m o key)
  object_from-found m name key (some r) h f = (
    refl,
    ap (λ c. get c key) (container_of-upsert m name (container_of m name) m.element_at m.next) ∙ f,
    refl,
  )
  object_from-found m name key none h f = (
    refl,
    create-get m name key h,
    write_at-same m.element_at m.next (new_element of_key to_key key),
  )

  update_object-at :
      (same : V → V → Bool) (push : Bool) (changes : List (String × Update V)) (o : Option ℕ)
      (m : MemoryStorage V) (r : ℕ) (v : V)
      → o ≡ some r
      → lookup (m.element_at r) "key" ≡ some v
      → update_object of_key to_key same push changes (o, m)
        ≡ update_at of_key to_key same push m r changes (some v)
  update_object-at same push changes none m r v e k = ground (arith, e)
  update_object-at same push changes (some q) m r v e k =
      let s : r ≡ q = ground (arith, e) in
      let l : lookup (m.element_at q) "key" ≡ some v =
        subst (λ x. lookup (m.element_at x) "key" ≡ some v) s k in
      ap (update_at of_key to_key same push m q changes) l
      ∙ ap (λ x. update_at of_key to_key same push m x changes (some v)) (sym s)

  -- An update finds or makes the element of its key: from then on the key finds that element, with
  -- the properties as the loop over the changes leaves them, and what is published has the
  -- element's own key. An element that was there must have a "key"; one that is made has it.
  pub update_container_object-found :
      (same : V → V → Bool) (push : Bool) (m : MemoryStorage V) (name : String) (key : Key)
      (c : String × Update V) (changes : List (String × Update V)) (v : V)
      → to_key (of_key key) ≡ some key
      → lookup (element_for m (found_in m name key) key) "key" ≡ some v
      → let r = reference_for m (found_in m name key) in
        let after =
          update_properties same push (element_for m (found_in m name key) key) (c ∷ changes) in
        (after_m : MemoryStorage V) × (update_container_object of_key to_key same push m name key
            (c ∷ changes)
          ≡ some (after_m, publish_all v after.1))
        × (found_in after_m name key ≡ some r)
        × (after_m.element_at r ≡ after.0)
  unfolding update_container_object get_container_object
  update_container_object-found same push m name key c changes v h k =
      let o = found_in m name key in
      let x = object_from of_key to_key m name key true o in
      let r = reference_for m o in
      let (e, f, g) = object_from-found m name key o h refl in
      let l : lookup (x.1.element_at r) "key" ≡ some v = ap (λ d. lookup d "key") g ∙ k in
      let u : List (String × V) → List (String × V) × List (Change V) =
        λ d. update_properties same push d (c ∷ changes) in
      (
        record (x.1) { element_at = write_at (x.1.element_at) r (u (element_for m o key)).0 },
        update_object-at same push (c ∷ changes) (x.0) (x.1) r v e l
            ∙ ap
                (λ d. some (
                  record (x.1) { element_at = write_at (x.1.element_at) r (u d).0 },
                  publish_all v (u d).1,
                ))
                g,
        f,
        write_at-same (x.1.element_at) r (u (element_for m o key)).0,
      )
