-- ===== src/Interfaces/Mqtt/Toggle.antt =====
-- What a toggle code does to a partition command: `_handle_panel_change` and
-- `_mqtt_handle_partition_control` of paradox/interfaces/mqtt/basic.py.
use pai.Prelude.{
  String, Bool, true, false, not, ◌&&◌, ◌||◌, Option, none, some, List, [], ◌∷◌, if◌then◌else◌,
  lookup, upsert, string_eq, split, lower, starts_with, get_elem?,
}

-- the values of the properties, and whether Python takes one for true
module _ {V : Type 0} where
  abbrev pub props_of : Option (List (String × V)) → List (String × V)
  props_of o = elim o [ none ↦ [] | some d ↦ d ]

  -- `_handle_panel_change`: the label of any element, whatever its type, is a key of `partitions`
  unfoldable pub handle_panel_change :
      List (String × List (String × V)) → String → String → V → List (String × List (String × V))
  handle_panel_change partitions label attribute value =
      upsert partitions label (upsert (props_of (lookup partitions label)) attribute value)

-- what becomes of the command: it goes on as another one, it is ignored, or an exception is raised
pub data Resolution : Type 0 where
  proceed : String → Resolution
  ignore fails : Resolution

module _ {V : Type 0} (truthy : V → Bool) where
  abbrev pub is_set : Option V → Bool
  is_set o = elim o [ none ↦ false | some v ↦ truthy v ]

  abbrev pub counts : String → Bool
  counts k =
      string_eq.same k "arm" || string_eq.same k "exit_delay" || string_eq.same k "entry_delay"

  -- the inner loop over the properties, up to the `break`
  unfoldable pub any_active : List (String × V) → Bool
  any_active [] = false
  any_active ((k, v) ∷ d) = let rest = any_active d in if counts k && truthy v then true else rest

  -- the outer loop
  unfoldable pub any_partition : List (String × List (String × V)) → Bool
  any_partition [] = false
  any_partition ((k, d) ∷ ps) = let rest = any_partition ps in if any_active d then true else rest

  abbrev pub arm_or_disarm : Bool → String
  arm_or_disarm active = if active then "disarm" else "arm"

  abbrev pub single_active : List (String × V) → Bool
  single_active d = is_set (lookup d "arm") || is_set (lookup d "exit_delay")

  abbrev pub target : List (String × List (String × V)) → String → Resolution
  target partitions element =
      if string_eq.same (lower element) "all"
      then proceed (arm_or_disarm (any_partition partitions))
      else elim (lookup partitions element) [
        | none ↦ ignore
        | some d ↦ proceed (arm_or_disarm (single_active d))
      ]

  -- The command of a partition, behind the alias: MQTT_TOGGLE_CODES is a dictionary from codes to
  -- their owners. None as an element raises an AttributeError.
  unfoldable pub resolve :
      List (String × String)
      → List (String × List (String × V))
      → Option String
      → String
      → Resolution
  resolve codes partitions element command =
      if not (starts_with command "code_toggle-")
      then proceed command
      else elim (get_elem? (split 45 command) 1) [
        | none ↦ ignore
        | some code ↦ elim (lookup codes code) [
          | none ↦ ignore
          | some owner ↦ elim element [ none ↦ fails | some e ↦ target partitions e ]
        ]
      ]
