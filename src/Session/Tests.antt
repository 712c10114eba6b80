-- ===== src/Session/Tests.antt =====
-- The session at concrete runs.
mod Reports
mod Events
use pai.Prelude.{
  string_eq, String, lookup, inl, ◌↔◌, ◌<◌, ◌/◌, ◌*◌, none, ◌||◌, ◌&&◌, not, ℕ, ◌+◌, ◌≤◌, ◌≡◌, ◌≢◌,
  ◌⊎◌, refl, true, false, some, List, [], ◌∷◌, ◌++◌, arith, replicate, All, ◌==◌, if◌then◌else◌,
}
use pai.Session.{stop, init, connected, run, pause as paused, error}
use pai.Session.Request.{
  Exchange, replied, timed_out, reply, no_reply, send_wait, send_wait_settles, send_wait_answers,
  send_wait_repeats,
}
use pai.Session.Polling.{Turn, answered, missing, gave_up, loop, loop_from, turn}
use pai.Session.Polling.Stretches.{Overrun, loop_overrun, loop-Overrun}
use pai.Session.Restarts.{
  connected as made, not_connected, waits_from, retry_time_wait, waits-bounded, flapping_waits,
  retry_time_wait_linear,
}
use pai.Session.Connecting.{
  Script, State, ok, timed_out as too_late, other_error, done, full_connect, pause, resume,
}
use pai.Session.Connecting.Outcomes.{
  full_connect_smooth, full_connect_outcome, pause-resume, pause-resume_elsewhere,
}
use pai.Session.Partitions.{
  Partition, triggered, armed_night, disarmed, arming, in_alarm, armed_state, change_of,
  update_partition, update_partition_states, update_partition_shows, update_partition_target,
  update_partition_states_twice,
}
use pai.Session.Clock.{DateTime, sync_time, time_arguments, sync_time_iff, sync_time_settles}
use pai.Session.Control.{
  accepted, returns, type_error, control, send_panic, control-accepted, send_panic_missing,
}
use pai.Session.Troubles.{
  TroubleStatus, flag, other, process_trouble_statuses, lookup-process_trouble_statuses,
}
use pai.Storage.Keys.{Key, number, keytransform}
use pai.Storage.Container.{Container, get}

-- the panel answers the third attempt with 7
abbrev third : ℕ → Exchange ℕ
third n = if n == 3 then replied 7 else timed_out

send_wait_settles_example : send_wait true true third 5 ≡ (reply 7, 3)
send_wait_settles_example = send_wait_settles third 5 2 (omega arith) refl refl

send_wait_answers_example :
    ((send_wait true true third 5).0 ≢ no_reply) × ((send_wait true true third 5).1 ≤ 5)
send_wait_answers_example = send_wait_answers true third 5 (omega arith)

abbrev always : ℕ → Exchange ℕ
always n = replied 7

send_wait_repeats_example : send_wait true false always 5 ≡ (no_reply, 5)
send_wait_repeats_example = send_wait_repeats always 5 (λ _. refl)

abbrev hit : Turn
hit = record { run_state = run; poll = answered }

abbrev miss : Turn
miss = record { run_state = run; poll = missing }

abbrev idle : Turn
idle = record { run_state = paused; poll = answered }

-- five misses with an answer and a pause between them
abbrev bad_stretch : List Turn
bad_stretch = miss ∷ miss ∷ hit ∷ idle ∷ miss ∷ miss ∷ miss ∷ []

loop_overrun_example : loop ((hit ∷ miss ∷ []) ++ (bad_stretch ++ (hit ∷ []))) ≡ gave_up
loop_overrun_example = loop_overrun (hit ∷ miss ∷ []) bad_stretch (hit ∷ []) refl refl (omega arith)

loop-Overrun_example : Overrun 0 (hit ∷ miss ∷ miss ∷ miss ∷ miss ∷ [])
unfolding loop_from turn
loop-Overrun_example = loop-Overrun (hit ∷ miss ∷ miss ∷ miss ∷ miss ∷ []) refl

flapping_waits_example : waits_from 1 (replicate 4 made) ≡ 3 ∷ 0 ∷ 0 ∷ 0 ∷ []
flapping_waits_example = flapping_waits 3

waits-bounded_example : All (λ w. w ≤ 30) (waits_from 1 (not_connected ∷ not_connected ∷ []))
waits-bounded_example = waits-bounded 1 (not_connected ∷ not_connected ∷ [])

retry_time_wait_linear_example :
    (5 ≤ 28 → (retry_time_wait 5 ≤ 5 + 2) × (5 ≤ retry_time_wait 5 + 2))
    × (33 ≤ 5 → retry_time_wait 5 ≡ 30)
retry_time_wait_linear_example = retry_time_wait_linear 5

-- waits of the first passes when nothing connects
first_waits : waits_from 1 (replicate 6 not_connected) ≡ 3 ∷ 0 ∷ 1 ∷ 6 ∷ 7 ∷ 4 ∷ []
unfolding waits_from
first_waits = refl

abbrev smooth : Script
smooth = record {
  closes = ok done;
  connects = ok true;
  initiated = ok true;
  started = ok (some true);
  initialized = ok true;
  loaded = ok done;
}

abbrev at_start : State
at_start = record {
  run_state = stop;
  published = [];
  connection = false;
  linked = false;
  panel = false;
  ignoring = false;
  refresh = false;
}

full_connect_smooth_example : full_connect smooth at_start ≡ (
  ok true,
  record {
    run_state = run;
    published = init ∷ connected ∷ run ∷ [];
    connection = true;
    linked = true;
    panel = true;
    ignoring = false;
    refresh = true;
  },
)
full_connect_smooth_example =
    full_connect_smooth smooth at_start (refl, refl, refl, refl, refl, refl)

abbrev running : State
running = record at_start { run_state = run; connection = true; linked = true; panel = true }

pause-resume_example :
    ((pause running).1.run_state ≡ paused)
    × ((pause running).1.ignoring ≡ true)
    × ((resume smooth (pause running).1).1.run_state ≡ run)
    × ((resume smooth (pause running).1).1.ignoring ≡ false)
pause-resume_example = pause-resume smooth running refl (refl, refl, refl, refl, refl, refl)

-- the panel is found and does not let its memory be read in time
abbrev slow : Script
slow = record smooth { loaded = too_late }

full_connect_outcome_example :
    let r = full_connect slow at_start in
    ((r.0 ≡ ok true) × (r.1.run_state ≡ run) × (r.1.linked ≡ true) × (r.1.panel ≡ true))
    ⊎ (((r.0 ≡ ok false) × (r.1.run_state ≡ error))
        ⊎ ((r.0 ≡ other_error)
            × ((r.1.run_state ≡ stop) ⊎ ((r.1.run_state ≡ init) ⊎ (r.1.run_state ≡ connected)))))
full_connect_outcome_example = full_connect_outcome slow at_start

pause-resume_elsewhere_example :
    (at_start.run_state ≢ run → pause at_start ≡ (ok done, at_start))
    × (at_start.run_state ≢ paused → resume slow at_start ≡ (ok done, at_start))
pause-resume_elsewhere_example = pause-resume_elsewhere slow at_start
