-- ===== src/Status/Merge.antt =====
-- What merging two dictionaries makes of each key.
use pai.Prelude.{
  ◌≡◌, ap, subst, ◌∙◌, Bool-cases, Bool, true, false, not, ◌&&◌, some, Option-cases, inl, inr,
  arith, if◌then◌else◌,
}
use pai.Storage.Keys.{Key, key_eq}
use pai.Status.{Value, Dict, nil, entry, find, put, merge_into, merge_value}

module _ {A : Type 0} where
  find-put : (d : Dict A) (k : Key) (v : Value A) → find (put d k v) k ≡ some v
  unfolding find put
  find-put nil k v = ground (arith, key_eq.same_refl k)
  find-put (entry j w d) k v = ground (arith, find-put d k v)

  find-put_other :
      (d : Dict A) (k l : Key) (v : Value A)
      → key_eq.same k l ≡ false
      → find (put d k v) l ≡ find d l
  unfolding find put
  find-put_other nil k l v h = ground arith
  find-put_other (entry j w d) k l v h =
      ground (arith, find-put_other d k l v h, key_eq.same_sound j k)

  abbrev pub has_key : Dict A → Key → Bool
  has_key nil k = false
  has_key (entry j v d) k = if key_eq.same j k then true else has_key d k

  -- each key stands in it once, as in every dictionary
  abbrev pub is_distinct : Dict A → Bool
  is_distinct nil = true
  is_distinct (entry k v d) = not (has_key d k) && is_distinct d

  module _ (extend_lists : Bool) where
    -- A key that the second dictionary lacks keeps the value of the first.
    pub merge_into_other :
        (d1 d2 d : Dict A) (l : Key)
        → merge_into extend_lists d1 d2 ≡ some d
        → has_key d2 l ≡ false
        → find d l ≡ find d1 l
    unfolding merge_into
    merge_into_other d1 nil d l e h = ground arith
    merge_into_other d1 (entry k v d2) d l e h =
        elim (Option-cases (merge_value extend_lists (find d1 k) v)) [
          | inl n ↦ ground (arith, n)
          | inr (w, n) ↦
              ground (arith, n, merge_into_other (put d1 k w) d2 d l, find-put_other d1 k l w)
        ]

    merge_into_head :
        (d1 d2 d : Dict A) (k : Key) (u : Value A)
        → merge_into extend_lists d1 (entry k u d2) ≡ some d
        → has_key d2 k ≡ false
        → find d k ≡ merge_value extend_lists (find d1 k) u
    unfolding merge_into
    merge_into_head d1 d2 d k u e h = elim (Option-cases (merge_value extend_lists (find d1 k) u)) [
      | inl n ↦ ground (arith, n)
      | inr (w, n) ↦ ground (arith, n, merge_into_other (put d1 k w) d2 d k, find-put d1 k w)
    ]

    merge_into_tail :
        (d1 d2 d : Dict A) (k : Key) (u : Value A)
        → merge_into extend_lists d1 (entry k u d2) ≡ some d
        → (w : Value A) × (merge_value extend_lists (find d1 k) u ≡ some w)
          × (merge_into extend_lists (put d1 k w) d2 ≡ some d)
    unfolding merge_into
    merge_into_tail d1 d2 d k u e = elim (Option-cases (merge_value extend_lists (find d1 k) u)) [
      | inl n ↦ ground (arith, n)
      | inr (w, n) ↦ (w, n, ground (arith, n))
    ]

    -- Where merging raises nothing: a key of the second dictionary has what the rule for one key
    -- makes of the two values, or of the second alone where the first dictionary lacks the key.
    pub merge_into-find :
        (d1 d2 d : Dict A) (l : Key) (v : Value A)
        → merge_into extend_lists d1 d2 ≡ some d
        → is_distinct d2 ≡ true
        → find d2 l ≡ some v
        → find d l ≡ merge_value extend_lists (find d1 l) v
    unfolding find
    merge_into-find d1 nil d l v e h f = ground arith
    merge_into-find d1 (entry k u d2) d l v e h f = elim (Bool-cases (key_eq.same k l)) [
      | inl s ↦
          subst (λ x. find d x ≡ merge_value extend_lists (find d1 x) v) (key_eq.same_sound k l s)
            (subst (λ x. find d k ≡ merge_value extend_lists (find d1 k) x) (ground (arith, f, s))
              (merge_into_head d1 d2 d k u e (ground (arith, h))))
      | inr s ↦
          let (w, n, r) = merge_into_tail d1 d2 d k u e in
          merge_into-find (put d1 k w) d2 d l v r (ground (arith, h)) (ground (arith, f, s))
          ∙ ap (λ o. merge_value extend_lists o v) (find-put_other d1 k l w s)
    ]
