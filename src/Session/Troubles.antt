-- ===== src/Session/Troubles.antt =====
-- `_process_trouble_statuses` of paradox/paradox.py: the troubles of the system, and the one flag
-- that combines them.
use text.Mathlib.Text.{starts_with}
use pai.Prelude.{
  String, ◌≡◌, refl, Bool, true, false, not, ◌||◌, some, List, [], ◌∷◌, arith, Option-cases, inl,
  inr, string_eq, lookup, lookup-upsert,
}
use pai.Storage.{value, update_properties}

-- a status is a Boolean, or something that is reported as an error and passed over
pub data TroubleStatus : Type 0 where
  flag : Bool → TroubleStatus
  other : TroubleStatus

abbrev pub same_bool : Bool → Bool → Bool
same_bool true b = b
same_bool false b = not b

-- update_container_object("system", "troubles", {name: status})
unfoldable pub set_trouble : Bool → List (String × Bool) → String → Bool → List (String × Bool)
set_trouble push troubles name status =
    (update_properties same_bool push troubles ((name, value status) ∷ [])).0

-- the `for` loop and the update after it, from what `global_trouble` is
unfoldable pub process_from :
    Bool → List (String × Bool) → Bool → List (String × TroubleStatus) → List (String × Bool)
process_from push troubles global_trouble [] = set_trouble push troubles "trouble" global_trouble
process_from push troubles global_trouble ((name, other) ∷ statuses) =
    process_from push troubles global_trouble statuses
process_from push troubles global_trouble ((name, flag status) ∷ statuses) =
    process_from push (set_trouble push troubles name status) (global_trouble || status) statuses

abbrev pub process_trouble_statuses :
    Bool → List (String × Bool) → List (String × TroubleStatus) → List (String × Bool)
process_trouble_statuses push troubles statuses = process_from push troubles false statuses

-- one of the statuses is true
abbrev pub any_trouble : List (String × TroubleStatus) → Bool
any_trouble [] = false
any_trouble ((name, other) ∷ statuses) = any_trouble statuses
any_trouble ((name, flag status) ∷ statuses) = status || any_trouble statuses

lookup-set_trouble :
    (push : Bool) (troubles : List (String × Bool)) (name : String) (status : Bool)
    → starts_with name "_" ≡ false
    → lookup (set_trouble push troubles name status) name ≡ some status
unfolding set_trouble update_properties
lookup-set_trouble push troubles name status h = elim (Option-cases (lookup troubles name)) [
  | inl n ↦ ground (arith, n, lookup-upsert troubles name status)
  | inr (old, n) ↦ ground (arith, n, lookup-upsert troubles name status)
]

lookup-process_from :
    (push : Bool) (troubles : List (String × Bool)) (global_trouble : Bool)
    (statuses : List (String × TroubleStatus))
    → lookup (process_from push troubles global_trouble statuses) "trouble"
      ≡ some (global_trouble || any_trouble statuses)
unfolding process_from
lookup-process_from push troubles g [] =
    ground (arith, lookup-set_trouble push troubles "trouble" g refl)
lookup-process_from push troubles g ((name, other) ∷ statuses) =
    lookup-process_from push troubles g statuses
lookup-process_from push troubles g ((name, flag status) ∷ statuses) =
    ground (
      arith,
      lookup-process_from push (set_trouble push troubles name status) (g || status) statuses,
    )

-- After the statuses have been processed, the property "trouble" says exactly whether one of them
-- is true, whatever it was before and whatever the names of the troubles.
pub lookup-process_trouble_statuses :
    (push : Bool) (troubles : List (String × Bool)) (statuses : List (String × TroubleStatus))
    → lookup (process_trouble_statuses push troubles statuses) "trouble"
      ≡ some (any_trouble statuses)
lookup-process_trouble_statuses push troubles statuses =
    lookup-process_from push troubles false statuses
