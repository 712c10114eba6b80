-- ===== src/Session/Partitions.antt =====
-- `_update_partition_states` of paradox/paradox.py: the states that Home Assistant is told, from the
-- flags that the panel reports of a partition.
use pai.Prelude.{
  ◌≡◌, ◌↔◌, refl, Bool, true, false, not, ◌&&◌, ◌||◌, Option, none, some, List, [], ◌∷◌, arith,
  if◌then◌else◌,
}

pub data HassState : Type 0 where
  triggered armed_home armed_night armed_away disarmed arming : HassState

-- The properties that are read, with what `get` says of a missing one as false, and the two that
-- are written.
pub record Partition : Type 0 where
  pub fire_alarm : Bool
  pub audible_alarm : Bool
  pub silent_alarm : Bool
  pub panic_alarm : Bool
  pub arm : Bool
  pub arm_stay : Bool
  pub arm_sleep : Bool
  pub arm_no_entry : Bool
  pub arm_away : Bool
  pub exit_delay : Bool
  pub current_state : Option HassState
  pub target_state : Option HassState

-- the dictionary `change`
pub record Change : Type 0 where
  pub current_state : Option HassState
  pub target_state : Option HassState

abbrev pub in_alarm : Partition → Bool
in_alarm p = p.fire_alarm || p.audible_alarm || p.silent_alarm || p.panic_alarm

abbrev pub armed_state : Partition → HassState
armed_state p =
    if p.arm_stay
    then armed_home
    else if p.arm_sleep || p.arm_no_entry
    then armed_night
    else if p.arm_away
    then armed_away
    else armed_away

unfoldable pub change_of : Partition → Change
change_of p =
    let change : Change =
      if in_alarm p
      then record { current_state = some triggered; target_state = none }
      else if p.arm
      then record { current_state = some (armed_state p); target_state = some (armed_state p) }
      else record { current_state = some disarmed; target_state = some disarmed } in
    if p.exit_delay then record change { current_state = some arming } else change

-- a missing entry of the change leaves the property as it is
abbrev pub written : Option HassState → Option HassState → Option HassState
written none old = old
written (some s) old = some s

unfoldable pub update_partition : Partition → Partition
update_partition p =
    let change = change_of p in
    record p {
      current_state = written change.current_state p.current_state;
      target_state = written change.target_state p.target_state;
    }

unfoldable pub update_partition_states : List Partition → List Partition
update_partition_states [] = []
update_partition_states (p ∷ ps) = update_partition p ∷ update_partition_states ps

-- A partition shows `disarmed` exactly when it is not armed, in no alarm and not about to be armed;
-- `triggered` exactly when it is in alarm and no exit delay runs; `arming` exactly while one runs.
pub update_partition_shows :
    (p : Partition)
    → (((update_partition p).current_state ≡ some disarmed) ↔ (
        p.arm
          || (p.fire_alarm || p.audible_alarm || p.silent_alarm || p.panic_alarm)
          || p.exit_delay
        ≡ false))
      × (((update_partition p).current_state ≡ some triggered) ↔ (
          (p.fire_alarm || p.audible_alarm || p.silent_alarm || p.panic_alarm) && not p.exit_delay
          ≡ true))
      × (((update_partition p).current_state ≡ some arming) ↔ (p.exit_delay ≡ true))
unfolding update_partition change_of
update_partition_shows p = ground arith

-- An alarm leaves the target as it was; otherwise the target is the armed state that the flags say,
-- or `disarmed`, and the shown state is the target too unless an exit delay runs.
pub update_partition_target :
    (p : Partition)
    → (in_alarm p ≡ true → (update_partition p).target_state ≡ p.target_state)
      × (in_alarm p ≡ false
          → ((update_partition p).target_state ≡ some (if p.arm then armed_state p else disarmed))
            × (p.exit_delay ≡ false
                → (update_partition p).current_state ≡ (update_partition p).target_state))
unfolding update_partition change_of
update_partition_target p = ground arith

-- Updating the states again, with no new report of the panel, changes nothing.
pub update_partition_states_twice :
    (ps : List Partition)
    → update_partition_states (update_partition_states ps) ≡ update_partition_states ps
unfolding update_partition_states update_partition change_of
update_partition_states_twice [] = refl
update_partition_states_twice (p ∷ ps) = ground (arith, update_partition_states_twice ps)
