-- ===== src/Prelude/Dict.antt =====
-- Python's dictionaries as lists of entries, in the order of insertion.
use mathlib.Core.Path.{◌≡◌, refl}
use mathlib.Core.Bool.{Bool, true, false}
use mathlib.Core.Option.{Option, none, some}
use mathlib.Core.List.{List, [], ◌∷◌}
use native.Mathlib.Omega.{arith}
use pai.Prelude.Tests.{if◌then◌else◌}

-- the equality of keys
pub record Eq (K : Type 0) : Type 0 where
  pub same : K → K → Bool
  pub same_sound : (a b : K) → same a b ≡ true → a ≡ b
  pub same_refl : (a : K) → same a a ≡ true

module _ {K V : Type 0} ⦃e : Eq K⦄ where
  unfoldable pub lookup : List (K × V) → K → Option V
  lookup [] k = none
  lookup ((j, v) ∷ d) k = let rest = lookup d k in if e.same j k then some v else rest

  -- an entry that is there keeps its place
  unfoldable pub upsert : List (K × V) → K → V → List (K × V)
  upsert [] k v = (k, v) ∷ []
  upsert ((j, w) ∷ d) k v =
      let rest = upsert d k v in if e.same j k then (j, v) ∷ d else (j, w) ∷ rest

  unfoldable pub erase : List (K × V) → K → List (K × V)
  erase [] k = []
  erase ((j, w) ∷ d) k = let rest = erase d k in if e.same j k then rest else (j, w) ∷ rest

  pub lookup-upsert : (d : List (K × V)) (k : K) (v : V) → lookup (upsert d k v) k ≡ some v
  unfolding lookup upsert
  lookup-upsert [] k v = ground (arith, e.same_refl k)
  lookup-upsert ((j, w) ∷ d) k v = ground (arith, lookup-upsert d k v)

  pub lookup-upsert_other :
      (d : List (K × V)) (k l : K) (v : V)
      → e.same k l ≡ false
      → lookup (upsert d k v) l ≡ lookup d l
  unfolding lookup upsert
  lookup-upsert_other [] k l v h = ground arith
  lookup-upsert_other ((j, w) ∷ d) k l v h =
      ground (arith, lookup-upsert_other d k l v h, e.same_sound j k)

  pub lookup-erase : (d : List (K × V)) (k : K) → lookup (erase d k) k ≡ none
  unfolding lookup erase
  lookup-erase [] k = refl
  lookup-erase ((j, w) ∷ d) k = ground (arith, lookup-erase d k)

  pub lookup-erase_other :
      (d : List (K × V)) (k l : K) → e.same k l ≡ false → lookup (erase d k) l ≡ lookup d l
  unfolding lookup erase
  lookup-erase_other [] k l h = refl
  lookup-erase_other ((j, w) ∷ d) k l h =
      ground (arith, lookup-erase_other d k l h, e.same_sound j k)
