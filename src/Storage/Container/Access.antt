-- ===== src/Storage/Container/Access.antt =====
-- Finding an element of a container by its number and by its textual key.
use pai.Prelude.{
  ℕ, ◌≡◌, Bool, false, Option, none, some, [], ◌∷◌, arith, lookup, lookup-upsert,
  lookup-upsert_other, lookup-erase, String,
}
use pai.Storage.Keys.{Key, number, text, keytransform, is_digits, key_eq}
use pai.Storage.Container.{Container, get, get_index, set, delete, select, select_each, one}

module _ (key_of : ℕ → Option Key) (same : ℕ → ℕ → Bool) where
  -- An element that is put under a number is found under the number, and under its own textual key,
  -- which is not all digits; no other number finds anything else than before.
  pub get-set :
      (c : Container) (n m r : ℕ) (t : String)
      → key_of r ≡ some (text t)
      → is_digits t ≡ false
      → key_eq.same (number n) (number m) ≡ false
      → (get (set key_of same c (number n) r) (number n) ≡ some r)
        × (get (set key_of same c (number n) r) (text t) ≡ some r)
        × (get (set key_of same c (number n) r) (number m) ≡ get c (number m))
  unfolding get set keytransform
  get-set c n m r t h d o = ground (
    arith,
    h,
    lookup-upsert c.items (number n) r,
    lookup-upsert c.key_index (text t) r,
    lookup-upsert_other c.items (number n) (number m) r o,
  )

  -- Once an element has been deleted by its number, neither the number nor its textual key finds
  -- it: the key is not all digits, and no item stands under it.
  pub get-delete :
      (c : Container) (n r : ℕ) (t : String)
      → lookup c.items (number n) ≡ some r
      → key_of r ≡ some (text t)
      → is_digits t ≡ false
      → lookup (delete key_of same c (number n)).items (text t) ≡ none
      → (get (delete key_of same c (number n)) (number n) ≡ none)
        × (get (delete key_of same c (number n)) (text t) ≡ none)
  unfolding get delete get_index keytransform
  get-delete c n r t i h d o =
      ground (arith, i, h, d, o, lookup-erase c.items (number n), lookup-erase c.key_index (text t))

  -- A number is selected whether or not anything stands under it, while a text selects something
  -- only if it is found: the textual key of no element, or digits under which nothing stands,
  -- select nothing.
  pub select-one :
      (c : Container) (n : ℕ) (s : String)
      → get c (text s) ≡ none
      → key_eq.same (text s) (text "all") ≡ false
      → key_eq.same (text s) (text "0") ≡ false
      → (select key_of same c (one (number n)) ≡ number n ∷ [])
        × (select key_of same c (one (text s)) ≡ [])
  unfolding select select_each get_index
  select-one c n s h a b = ground arith
