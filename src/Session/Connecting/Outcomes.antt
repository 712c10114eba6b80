-- ===== src/Session/Connecting/Outcomes.antt =====
-- What the calls that change the run state leave behind.
use pai.Prelude.{
  ◌≡◌, ◌≢◌, ◌⊎◌, inl, inr, Bool, true, false, some, List, Bool-cases, [], ◌∷◌, ◌++◌, arith,
  if◌then◌else◌,
}
use pai.Session.{RunState, stop, init, connected, run, pause as paused, error}
use pai.Session.Connecting.{
  Outcome, ok, other_error, done, Script, State, connect, talk, on_connected, succeeds,
  full_connect, disconnect, close_old, pause, resume,
}

-- every call that a script is of goes well
abbrev pub IsSmooth : Script → Type 0
IsSmooth script =
    (script.closes ≡ ok done)
    × (script.connects ≡ ok true)
    × (script.initiated ≡ ok true)
    × (script.started ≡ ok (some true))
    × (script.initialized ≡ ok true)
    × (script.loaded ≡ ok done)

abbrev pub published_closed : State → List RunState
published_closed s = if s.connection then s.published ++ stop ∷ [] else s.published

close_old-ok :
    (script : Script) (s : State)
    → script.closes ≡ ok done
    → close_old script s ≡ (
      ok done,
      record s {
        run_state = if s.connection then stop else s.run_state;
        published = published_closed s;
        linked = if s.connection then false else s.linked;
      },
    )
unfolding close_old disconnect
close_old-ok script s h = elim (Bool-cases s.connection) [
  | inl e ↦ elim (Bool-cases s.linked) [ inl f ↦ ground arith | inr f ↦ ground arith ]
  | inr e ↦ ground arith
]

close_old-cases :
    (script : Script) (s : State)
    → ((close_old script s).0 ≡ ok done) ⊎ ((close_old script s).1.run_state ≡ stop)
unfolding close_old disconnect
close_old-cases script s = ground arith

talk-cases :
    (script : Script) (s : State)
    → (((talk script s).0 ≡ ok true) × ((talk script s).1.run_state ≡ connected))
      ⊎ (((talk script s).0 ≢ ok false)
          × ((talk script s).0 ≢ ok true)
          × ((talk script s).1.run_state ≡ s.run_state))
unfolding talk
talk-cases script s = ground arith

talk-kept :
    (script : Script) (s : State)
    → ((talk script s).1.linked ≡ s.linked) × ((talk script s).1.panel ≡ s.panel)
unfolding talk
talk-kept script s = ground arith

-- Where every call goes well, `full_connect` returns True, the run states that it publishes are
-- STOP (when there was a connection before), INIT, CONNECTED and RUN in this order, and the last
-- is the run state after it; the status is asked for at once.
pub full_connect_smooth :
    (script : Script) (s : State)
    → IsSmooth script
    → full_connect script s ≡ (
      ok true,
      record s {
        run_state = run;
        published = published_closed s ++ init ∷ [] ++ connected ∷ [] ++ run ∷ [];
        connection = true;
        linked = true;
        panel = true;
        refresh = true;
      },
    )
unfolding full_connect connect talk
full_connect_smooth script s h = ground (arith, close_old-ok script s h.0)

-- what holds once `connect` has ended, with the run state that it began to connect in
abbrev pub Connects : RunState → Outcome Bool → State → Type 0
Connects began o s =
    ((o ≡ ok true) × (s.run_state ≡ connected) × (s.linked ≡ true) × (s.panel ≡ true))
    ⊎ (((o ≡ ok false) × (s.run_state ≡ error))
        ⊎ ((o ≢ ok true) × (o ≢ ok false) × ((s.run_state ≡ stop) ⊎ (s.run_state ≡ began))))

on_connected-Connects :
    (script : Script) (success : Bool) (s : State)
    → (success ≡ true → s.linked ≡ true)
    → Connects s.run_state (on_connected script success s).0 (on_connected script success s).1
on_connected-Connects script true s l = ground (
  arith,
  talk-cases script (record s { panel = true }),
  talk-kept script (record s { panel = true }),
)
on_connected-Connects script false s l = ground arith

-- the connection is asked to connect in the run state INIT
abbrev ready : Script → State → State
ready script s = record s {
  run_state = init;
  published = s.published ++ init ∷ [];
  panel = false;
  connection = true;
  linked = succeeds script.connects;
}

connect-Connects :
    (script : Script) (s : State) → Connects init (connect script s).0 (connect script s).1
unfolding connect
connect-Connects script s = ground (
  arith,
  close_old-cases script s,
  on_connected-Connects script true (ready script (close_old script s).1),
  on_connected-Connects script false (ready script (close_old script s).1),
)

-- However the calls end: `full_connect` returns True only in the run state RUN, with the
-- connection connected and the panel known; it returns False only in ERROR; it never ends with a
-- TimeoutError or a ConnectionError; and any other exception leaves a run state of the way there.
pub full_connect_outcome :
    (script : Script) (s : State)
    → let r = full_connect script s in
      ((r.0 ≡ ok true) × (r.1.run_state ≡ run) × (r.1.linked ≡ true) × (r.1.panel ≡ true))
      ⊎ (((r.0 ≡ ok false) × (r.1.run_state ≡ error))
          ⊎ ((r.0 ≡ other_error)
              × ((r.1.run_state ≡ stop) ⊎ ((r.1.run_state ≡ init) ⊎ (r.1.run_state ≡ connected)))))
unfolding full_connect
full_connect_outcome script s = ground (arith, connect-Connects script s)

-- `pause` does something in the run state RUN alone; `resume` after it, where every call goes well,
-- leads back to RUN, and messages without a handler are reported again.
pub pause-resume :
    (script : Script) (s : State)
    → s.run_state ≡ run
    → IsSmooth script
    → ((pause s).1.run_state ≡ paused)
      × ((pause s).1.ignoring ≡ true)
      × ((resume script (pause s).1).1.run_state ≡ run)
      × ((resume script (pause s).1).1.ignoring ≡ false)
unfolding pause resume
pause-resume script s r h = ground (
  arith,
  full_connect_smooth script
      (record s { run_state = paused; published = s.published ++ paused ∷ []; ignoring = false }) h,
)

-- In any other state `pause` changes nothing, and in any state but PAUSE `resume` changes nothing.
pub pause-resume_elsewhere :
    (script : Script) (s : State)
    → (s.run_state ≢ run → pause s ≡ (ok done, s))
      × (s.run_state ≢ paused → resume script s ≡ (ok done, s))
unfolding pause resume
pause-resume_elsewhere script s = ground arith
