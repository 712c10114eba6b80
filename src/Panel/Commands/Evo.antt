-- ===== src/Panel/Commands/Evo.antt =====
-- The commands of EVO panels: paradox/hardware/evo/panel.py.
use pai.Prelude.{
  ◌≡◌, String, true, false, none, some, List, [], ◌∷◌, lookup, upsert, string_eq, arith,
  Option-cases, inl, inr,
}
use pai.Storage.Keys.{Key, key_eq}
use pai.Session.Control.{accepted}
use pai.Session.Request.{Answer}
use pai.Panel.Commands.{Dialog, ends, after, is_reply, has_reply, all_answered, is_answered}

pub data Flag : Type 0 where
  bypassed generated_alarm : Flag

pub data Operation : Type 0 where
  put clear : Operation

abbrev pub zone_actions : List (String × (Flag × Operation))
zone_actions =
    ("bypass", (bypassed, put))
    ∷ ("clear_bypass", (bypassed, clear))
    ∷ ("clear_alarm_memory", (generated_alarm, clear))
    ∷ []

-- PerformPartitionAction, PerformZoneAction, PerformPGMAction and PerformDoorAction, as the fields
-- that are set
pub data Request : Type 0 where
  on_partitions : List (Key × String) → Request
  on_zones : Flag → Operation → List Key → Request
  on_pgms : List Key → String → Request
  on_doors : List Key → String → Request

-- How `send_wait` ends for such a request: the message type may have no number for a command, which
-- is construct's MappingError.
pub data Sent (R : Type 0) : Type 0 where
  mapping_error : Sent R
  sent : Answer R → Sent R

-- {i: command for i in partitions}
abbrev pub each_with : List (Key × String) → List Key → String → List (Key × String)
each_with d [] command = d
each_with d (k ∷ ks) command = each_with (upsert d k command) ks command

module _ {R : Type 0} (request : Request → Sent R) where
  -- the `try` statement; a request that cannot be built is not written
  abbrev pub attempt : Request → Dialog Request
  attempt a = elim (request a) [
    | mapping_error ↦ ends (accepted false)
    | sent o ↦ after a (has_reply o) (ends (is_reply o))
  ]

  unfoldable pub control_partitions : List Key → String → Dialog Request
  control_partitions partitions command = attempt (on_partitions (each_with [] partitions command))

  unfoldable pub control_zones : List Key → String → Dialog Request
  control_zones zones command = elim (lookup zone_actions command) [
    | none ↦ ends (accepted false)
    | some (flag, operation) ↦ attempt (on_zones flag operation zones)
  ]

  unfoldable pub control_outputs : List Key → String → Dialog Request
  control_outputs outputs command = attempt (on_pgms outputs command)

  unfoldable pub control_doors : List Key → String → Dialog Request
  control_doors doors command = attempt (on_doors doors command)

  -- One request at most is made, and a command is accepted exactly when it has been made and
  -- answered.
  attempt_answered :
      (a : Request)
      → (attempt a).ending ≡ accepted true
      → ((attempt a).exchanges ≡ (a, true) ∷ []) × (is_answered (attempt a).exchanges ≡ true)
  unfolding all_answered
  attempt_answered a h = ground arith

  pub control_zones_answered :
      (ks : List Key) (command : String)
      → (control_zones ks command).ending ≡ accepted true
      → is_answered (control_zones ks command).exchanges ≡ true
  unfolding control_zones all_answered
  control_zones_answered ks command h = elim (Option-cases (lookup zone_actions command)) [
    | inl n ↦ ground arith
    | inr ((f, o), e) ↦ ground (arith, attempt_answered (on_zones f o ks))
  ]

  pub control_partitions_answered :
      (ks : List Key) (command : String)
      → (control_partitions ks command).ending ≡ accepted true
      → is_answered (control_partitions ks command).exchanges ≡ true
  unfolding control_partitions
  control_partitions_answered ks command h =
      (attempt_answered (on_partitions (each_with [] ks command)) h).1

  pub control_outputs_answered :
      (ks : List Key) (command : String)
      → (control_outputs ks command).ending ≡ accepted true
      → is_answered (control_outputs ks command).exchanges ≡ true
  unfolding control_outputs
  control_outputs_answered ks command h = (attempt_answered (on_pgms ks command) h).1

  pub control_doors_answered :
      (ks : List Key) (command : String)
      → (control_doors ks command).ending ≡ accepted true
      → is_answered (control_doors ks command).exchanges ≡ true
  unfolding control_doors
  control_doors_answered ks command h = (attempt_answered (on_doors ks command) h).1
