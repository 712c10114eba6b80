-- ===== src/Session/Tests/Reports.antt =====
-- What the session makes of reports and commands, at concrete ones.
use pai.Prelude.{
  string_eq, String, lookup, inl, ◌↔◌, ◌<◌, ◌/◌, ◌*◌, none, ◌||◌, ◌&&◌, not, ◌+◌, ◌≡◌, ◌≢◌, ◌⊎◌,
  refl, true, false, some, List, [], ◌∷◌, arith, if◌then◌else◌,
}
use pai.Session.Partitions.{
  Partition, triggered, armed_night, disarmed, arming, in_alarm, armed_state, change_of,
  update_partition, update_partition_states, update_partition_shows, update_partition_target,
  update_partition_states_twice,
}
use pai.Session.Clock.{DateTime, sync_time, time_arguments, sync_time_iff, sync_time_settles}
use pai.Session.Control.{
  accepted, returns, type_error, control, send_panic, control-accepted, send_panic_missing,
}
use pai.Session.Troubles.{
  TroubleStatus, flag, other, process_trouble_statuses, lookup-process_trouble_statuses,
}
use pai.Storage.Keys.{Key, number, keytransform}
use pai.Storage.Container.{Container, get}
use pai.Session.Errors.{authentication_failed, handle_error_message, handle_error_message-expected}

abbrev sleeping : Partition
sleeping = record {
  fire_alarm = false;
  audible_alarm = false;
  silent_alarm = false;
  panic_alarm = false;
  arm = true;
  arm_stay = false;
  arm_sleep = true;
  arm_no_entry = false;
  arm_away = false;
  exit_delay = false;
  current_state = some arming;
  target_state = some armed_night;
}

-- the flags once a sensor has set the alarm off
abbrev burgled : Partition
burgled = record sleeping { audible_alarm = true }

night : (update_partition sleeping).current_state ≡ some armed_night
unfolding update_partition change_of
night = refl

update_partition_shows_example :
    (((update_partition burgled).current_state ≡ some disarmed)
      ↔ (burgled.arm || in_alarm burgled || burgled.exit_delay ≡ false))
    × (((update_partition burgled).current_state ≡ some triggered)
        ↔ (in_alarm burgled && not burgled.exit_delay ≡ true))
    × (((update_partition burgled).current_state ≡ some arming) ↔ (burgled.exit_delay ≡ true))
update_partition_shows_example = update_partition_shows burgled

update_partition_target_example :
    (in_alarm burgled ≡ true → (update_partition burgled).target_state ≡ burgled.target_state)
    × (in_alarm burgled ≡ false
        → ((update_partition burgled).target_state
            ≡ some (if burgled.arm then armed_state burgled else disarmed))
          × (burgled.exit_delay ≡ false
              → (update_partition burgled).current_state ≡ (update_partition burgled).target_state))
update_partition_target_example = update_partition_target burgled

update_partition_states_twice_example :
    update_partition_states (update_partition_states (sleeping ∷ burgled ∷ []))
    ≡ update_partition_states (sleeping ∷ burgled ∷ [])
update_partition_states_twice_example = update_partition_states_twice (sleeping ∷ burgled ∷ [])

abbrev noon : DateTime
noon = record { year = 2024; month = 3; day = 1; hour = 12; minute = 0; second = 30 }

sync_time_iff_example :
    (sync_time 120 1000 noon (some 700) ≡ some (time_arguments noon)
      → (700 + 120 < 1000) ⊎ (1000 + 120 < 700))
    × ((700 + 120 < 1000) ⊎ (1000 + 120 < 700)
        → sync_time 120 1000 noon (some 700) ≡ some (time_arguments noon))
sync_time_iff_example = sync_time_iff 120 1000 700 noon

sync_time_settles_example : sync_time 120 (1000 + 5) noon (some (1000 / 60 * 60)) ≡ none
sync_time_settles_example = sync_time_settles 120 1000 5 noon noon (omega arith)

control-accepted_example :
    (((control (number 4 ∷ []) (λ _. accepted true)).answer ≡ returns true)
      ↔ ((◌≢◌ {A = List Key} (number 4 ∷ []) []) × (accepted true ≡ accepted true)))
    × ((control (number 4 ∷ []) (λ _. accepted true)).answer ≡ returns true
        → (control (number 4 ∷ []) (λ _. accepted true)).refreshed ≡ true)
control-accepted_example = control-accepted (number 4 ∷ []) (λ _. accepted true)

abbrev nobody : Container
nobody = record { items = []; key_index = [] }

send_panic_missing_example :
    send_panic (λ r. r) nobody nobody (number 1) (number 2) (λ p u. accepted true) ≡ type_error
unfolding get keytransform lookup
send_panic_missing_example =
    send_panic_missing (λ r. r) nobody nobody (number 1) (number 2) (λ p u. accepted true)
      (inl refl)

abbrev power : List (String × TroubleStatus)
power = ("ac", flag true) ∷ ("battery", flag false) ∷ ("date", other) ∷ []

lookup-process_trouble_statuses_example :
    lookup (process_trouble_statuses false (("trouble", false) ∷ []) power) "trouble" ≡ some true
lookup-process_trouble_statuses_example =
    lookup-process_trouble_statuses false (("trouble", false) ∷ []) power

handle_error_message-expected_example : handle_error_message none "18" 0x12 ≡ authentication_failed
handle_error_message-expected_example = handle_error_message-expected none "18" 0x12 refl
