-- ===== src/Storage/Container/Filter.antt =====
-- What `filter` leaves in a container.
use pai.Prelude.{
  ℕ, ◌≡◌, refl, Bool, false, Option, none, List, [], ◌∷◌, arith, if◌then◌else◌, lookup, erase,
  lookup-erase, lookup-erase_other, All, Bool-cases, inl, inr,
}
use pai.Storage.Keys.{Key, number, keytransform, key_eq}
use pai.Storage.Container.{
  Container, Needle, keys, member, get_index, select, delete, delete_all, missing_from, filter,
}

abbrev pub IsNumber : Key → Type 0
IsNumber k = (n : ℕ) × (k ≡ number n)

missing_from-IsNumber : (ids ks : List Key) → All IsNumber ks → All IsNumber (missing_from ids ks)
unfolding missing_from
missing_from-IsNumber ids [] h = h
missing_from-IsNumber ids (k ∷ ks) h = elim (Bool-cases (member k ids)) [
  | inl e ↦ rw (e, missing_from) (missing_from-IsNumber ids ks h.1)
  | inr e ↦ rw (e, missing_from) (h.0, missing_from-IsNumber ids ks h.1)
]

member-missing_from :
    (k : Key) (ids ks : List Key)
    → member k (missing_from ids ks) ≡ (if member k ids then false else member k ks)
unfolding missing_from
member-missing_from k ids [] = ground arith
member-missing_from k ids (j ∷ ks) =
    ground (arith, member-missing_from k ids ks, key_eq.same_sound j k)

lookup-absent : (d : List (Key × ℕ)) (k : Key) → member k (keys d) ≡ false → lookup d k ≡ none
unfolding lookup
lookup-absent [] k h = refl
lookup-absent ((j, r) ∷ d) k h = ground (arith, lookup-absent d k)

module _ (key_of : ℕ → Option Key) (same : ℕ → ℕ → Bool) where
  delete-items :
      (c : Container) (n : ℕ) → (delete key_of same c (number n)).items ≡ erase c.items (number n)
  unfolding delete get_index keytransform
  delete-items c n = refl

  delete_all-items :
      (c : Container) (ks : List Key) (k : Key)
      → All IsNumber ks
      → lookup (delete_all key_of same c ks).items k
        ≡ (if member k ks then none else lookup c.items k)
  unfolding delete_all
  delete_all-items c [] k h = refl
  delete_all-items c (j ∷ ks) k h = ground (
    arith,
    h.0,
    delete_all-items (delete key_of same c j) ks k h.1,
    delete-items c h.0.0,
    lookup-erase c.items j,
    lookup-erase_other c.items j k,
    key_eq.same_sound j k,
  )

  -- A container whose keys are numbers: after `filter`, the items are those whose keys the needle
  -- selects, each under its key as before, and no others.
  pub lookup-filter :
      (c : Container) (needle : Needle) (k : Key)
      → All IsNumber (keys c.items)
      → lookup (filter key_of same c needle).items k
        ≡ (if member k (select key_of same c needle) then lookup c.items k else none)
  unfolding filter
  lookup-filter c needle k h = ground (
    arith,
    delete_all-items c (missing_from (select key_of same c needle) (keys c.items)) k
        (missing_from-IsNumber (select key_of same c needle) (keys c.items) h),
    member-missing_from k (select key_of same c needle) (keys c.items),
    lookup-absent c.items k,
  )
