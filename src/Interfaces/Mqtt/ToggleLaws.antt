-- ===== src/Interfaces/Mqtt/ToggleLaws.antt =====
-- When a toggle code arms and when it disarms.
use pai.Prelude.{
  ◌≡◌, ◌⊎◌, inl, inr, String, Bool, true, false, ◌||◌, some, List, [], ◌∷◌, if◌then◌else◌, lookup,
  upsert, string_eq, split, concat, lower, starts_with, lacks, split_none, arith, ap, ◌∙◌,
}
use pai.Interfaces.Mqtt.Toggle.{
  proceed, resolve, any_active, any_partition, arm_or_disarm, is_set, counts, target,
  handle_panel_change, props_of,
}

module _ {V : Type 0} (truthy : V → Bool) where
  any_active-upsert :
      (d : List (String × V)) (k : String) (v : V)
      → counts truthy k ≡ true
      → truthy v ≡ true
      → any_active truthy (upsert d k v) ≡ true
  unfolding any_active upsert
  any_active-upsert [] k v c t = ground (arith, c, t)
  any_active-upsert ((j, w) ∷ d) k v c t =
      ground (arith, c, t, any_active-upsert d k v, string_eq.same_sound j k)

  any_partition-upsert :
      (ps : List (String × List (String × V))) (label : String) (d : List (String × V))
      → any_active truthy d ≡ true
      → any_partition truthy (upsert ps label d) ≡ true
  unfolding any_partition upsert
  any_partition-upsert [] label d a = ground (arith, a)
  any_partition-upsert ((j, w) ∷ ps) label d a = ground (arith, a, any_partition-upsert ps label d)

  -- the command after the alias, for a code that has an owner
  resolve_toggle :
      (codes : List (String × String)) (partitions : List (String × List (String × V)))
      (element code owner : String)
      → lacks 45 code ≡ true
      → lookup codes code ≡ some owner
      → resolve truthy codes partitions (some element) (concat "code_toggle-" code)
        ≡ target truthy partitions element
  unfolding resolve starts_with concat split
  resolve_toggle codes partitions element code owner l o = ground (arith, l, o, split_none 45 code)

  target_all :
      (partitions : List (String × List (String × V))) (element : String)
      → lower element ≡ "all"
      → target truthy partitions element
        ≡ proceed (arm_or_disarm truthy (any_partition truthy partitions))
  target_all partitions element a =
      let same = ap (λ s. string_eq.same s "all") a ∙ string_eq.same_refl "all" in
      ground (arith, same)

  -- A toggle code with an owner, for a single partition that is known, disarms it if it is armed or
  -- in its exit delay, and arms it otherwise.
  pub toggle_single :
      (codes : List (String × String)) (partitions : List (String × List (String × V)))
      (element code owner : String) (d : List (String × V))
      → lacks 45 code ≡ true
      → lookup codes code ≡ some owner
      → string_eq.same (lower element) "all" ≡ false
      → lookup partitions element ≡ some d
      → resolve truthy codes partitions (some element) (concat "code_toggle-" code)
        ≡ proceed (
            if is_set truthy (lookup d "arm") || is_set truthy (lookup d "exit_delay")
            then "disarm"
            else "arm")
  toggle_single codes partitions element code owner d l o a p =
      ground (arith, a, p, resolve_toggle codes partitions element code owner l o)

  active_counts :
      (attribute : String)
      → (attribute ≡ "arm") ⊎ ((attribute ≡ "exit_delay") ⊎ (attribute ≡ "entry_delay"))
      → counts truthy attribute ≡ true
  active_counts attribute (inl e) = ap (counts truthy) e
  active_counts attribute (inr (inl e)) = ap (counts truthy) e
  active_counts attribute (inr (inr e)) = ap (counts truthy) e

  -- Once any element whatever, a zone too, has reported that it is armed or that it is in its entry
  -- or exit delay, a toggle code for all partitions disarms them: a code that has an owner, with no
  -- dash in it.
  pub toggle_all_disarms :
      (codes : List (String × String)) (partitions : List (String × List (String × V)))
      (element code owner label attribute : String) (v : V)
      → lacks 45 code ≡ true
      → lookup codes code ≡ some owner
      → lower element ≡ "all"
      → (attribute ≡ "arm") ⊎ ((attribute ≡ "exit_delay") ⊎ (attribute ≡ "entry_delay"))
      → truthy v ≡ true
      → resolve truthy codes
          (handle_panel_change partitions label attribute v)
          (some element)
          (concat "code_toggle-" code)
        ≡ proceed "disarm"
  unfolding handle_panel_change
  toggle_all_disarms codes partitions element code owner label attribute v l o a a' t =
      let later = handle_panel_change partitions label attribute v in
      let counted : counts truthy attribute ≡ true = active_counts attribute a' in
      let disarms =
        any_partition-upsert partitions label
          (upsert (props_of (lookup partitions label)) attribute v)
          (any_active-upsert (props_of (lookup partitions label)) attribute v counted t) in
      resolve_toggle codes later element code owner l o
      ∙ target_all later element a
      ∙ ap (λ b. proceed (arm_or_disarm truthy b)) disarms

  -- Where nothing of any element is set that counts, the code arms.
  pub toggle_all_arms :
      (codes : List (String × String)) (partitions : List (String × List (String × V)))
      (element code owner : String)
      → lacks 45 code ≡ true
      → lookup codes code ≡ some owner
      → lower element ≡ "all"
      → any_partition truthy partitions ≡ false
      → resolve truthy codes partitions (some element) (concat "code_toggle-" code) ≡ proceed "arm"
  toggle_all_arms codes partitions element code owner l o a n =
      resolve_toggle codes partitions element code owner l o
      ∙ target_all partitions element a
      ∙ ap (λ b. proceed (arm_or_disarm truthy b)) n
