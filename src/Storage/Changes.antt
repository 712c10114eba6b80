-- ===== src/Storage/Changes.antt =====
-- What updating an element does to its properties, and what is published of it.
use text.Mathlib.Text.{◌==◌ as str_eq}
use pai.Prelude.{
  String, ◌≡◌, ◌⊎◌, inl, inr, refl, sym, subst, ◌∙◌, Bool, true, false, not, ◌&&◌, List, [], ◌∷◌,
  arith, if◌then◌else◌, string_eq, lookup, upsert, lookup-upsert, lookup-upsert_other, All,
}
use pai.Storage.{
  Update, value, function, Change, Effect, nothing, write, effect_of, update_properties,
}

pub Effect-cases : {V : Type 0} (f : Effect V) → (f ≡ nothing) ⊎ ((v : V) × (f ≡ write v))
Effect-cases nothing = inl refl
Effect-cases (write v) = inr (v, refl)

module _ {V : Type 0} where
  -- what a subscriber makes of the published changes
  abbrev pub replay : List (String × V) → List (Change V) → List (String × V)
  replay element [] = element
  replay element (c ∷ cs) = replay (upsert element c.property c.new_value) cs

  -- the name is changed by one of the changes
  abbrev pub mentions : List (String × Update V) → String → Bool
  mentions [] name = false
  mentions ((n, u) ∷ changes) name = if str_eq n name then true else mentions changes name

  module _ (same : V → V → Bool) (push : Bool) where
    -- The published changes say all that happened: who applies them to the element as it was has
    -- the element as it is.
    pub replay-update_properties :
        (element : List (String × V)) (changes : List (String × Update V))
        → replay element (update_properties same push element changes).1
          ≡ (update_properties same push element changes).0
    unfolding update_properties
    replay-update_properties element [] = refl
    replay-update_properties element ((n, u) ∷ changes) =
        elim (Effect-cases (effect_of same push element n u)) [
          | inl h ↦ ground (arith, h, replay-update_properties element changes)
          | inr (v, h) ↦ ground (arith, h, replay-update_properties (upsert element n v) changes)
        ]

    -- A property that no change names keeps its value.
    pub update_properties_other :
        (element : List (String × V)) (changes : List (String × Update V)) (name : String)
        → mentions changes name ≡ false
        → lookup (update_properties same push element changes).0 name ≡ lookup element name
    unfolding update_properties
    update_properties_other element [] name h = refl
    update_properties_other element ((n, u) ∷ changes) name h =
        elim (Effect-cases (effect_of same push element n u)) [
          | inl k ↦ ground (arith, k, update_properties_other element changes name)
          | inr (v, k) ↦ ground (
            arith,
            k,
            update_properties_other (upsert element n v) changes name,
            lookup-upsert_other element n name v,
          )
        ]

    -- the change would do nothing
    abbrev pub IsIdle : List (String × V) → String × Update V → Type 0
    IsIdle element (name, update) = effect_of same push element name update ≡ nothing

    update_properties-idle :
        (element : List (String × V)) (changes : List (String × Update V))
        → All (IsIdle element) changes
        → update_properties same push element changes ≡ (element, [])
    unfolding update_properties
    update_properties-idle element [] h = refl
    update_properties-idle element ((n, u) ∷ changes) h =
        ground (arith, update_properties-idle element changes h.1, h.0)

    effect_of-lookup :
        (a b : List (String × V)) (name : String) (u : Update V)
        → lookup a name ≡ lookup b name
        → effect_of same push a name u ≡ effect_of same push b name u
    effect_of-lookup a b name u h = rw h refl

  -- the changes of a dictionary whose values are no functions: each name stands in it once
  abbrev pub is_plain : List (String × Update V) → Bool
  is_plain [] = true
  is_plain ((n, value v) ∷ changes) = not (mentions changes n) && is_plain changes
  is_plain ((n, function f) ∷ changes) = false

  module _ (same : V → V → Bool) (same_refl : (v : V) → same v v ≡ true) where
    -- what the head of the changes leaves behind is idle for it
    effect_of-upsert :
        (element : List (String × V)) (name : String) (v : V)
        → effect_of same false (upsert element name v) name (value v) ≡ nothing
    effect_of-upsert element name v = ground (arith, lookup-upsert element name v, same_refl v)

    effect_of-value :
        (element : List (String × V)) (name : String) (v w : V)
        → effect_of same false element name (value v) ≡ write w
        → w ≡ v
    effect_of-value element name v w h = ground arith

    -- the element after the first change, and then after all of them
    abbrev first : List (String × V) → String → V → List (String × V)
    first element name v = elim (effect_of same false element name (value v)) [
      | nothing ↦ element
      | write w ↦ upsert element name w
    ]

    update_properties-first :
        (element : List (String × V)) (n : String) (v : V) (changes : List (String × Update V))
        → (update_properties same false element ((n, value v) ∷ changes)).0
          ≡ (update_properties same false (first element n v) changes).0
    unfolding update_properties
    update_properties-first element n v changes = ground arith

    first-IsIdle :
        (element : List (String × V)) (n : String) (v : V)
        → effect_of same false (first element n v) n (value v) ≡ nothing
    first-IsIdle element n v = elim (Effect-cases (effect_of same false element n (value v))) [
      | inl k ↦ rw (k, first) k
      | inr (w, k) ↦
          rw (k, first) (rw (effect_of-value element n v w k) (effect_of-upsert element n v))
    ]

    update_properties-IsIdle :
        (element : List (String × V)) (changes : List (String × Update V))
        → is_plain changes ≡ true
        → All (IsIdle same false (update_properties same false element changes).0) changes
    update_properties-IsIdle element [] h = ground arith
    update_properties-IsIdle element ((n, function f) ∷ changes) h = ground (arith, h)
    update_properties-IsIdle element ((n, value v) ∷ changes) h =
        subst (λ a. All (IsIdle same false a) ((n, value v) ∷ changes))
          (sym (update_properties-first element n v changes))
          (
            effect_of-lookup same false (update_properties same false (first element n v) changes).0
                  (first element n v) n (value v)
                  (update_properties_other same false (first element n v) changes n
                    (ground (arith, h)))
                ∙ first-IsIdle element n v,
            update_properties-IsIdle (first element n v) changes (ground (arith, h)),
          )

    -- Applying the same values twice publishes nothing the second time and leaves the element as it
    -- is: where the changes have no functions and PUSH_UPDATE_WITHOUT_CHANGE is off.
    pub update_properties_twice :
        (element : List (String × V)) (changes : List (String × Update V))
        → is_plain changes ≡ true
        → let after = (update_properties same false element changes).0 in
          update_properties same false after changes ≡ (after, [])
    update_properties_twice element changes h =
        update_properties-idle same false (update_properties same false element changes).0 changes
          (update_properties-IsIdle element changes h)
