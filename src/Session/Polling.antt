-- ===== src/Session/Polling.antt =====
-- `Paradox.loop`: asking for the status again and again, and giving up when replies are missing.
pub mod Stretches
use pai.Prelude.{
  ℕ, suc, ◌+◌, ◌-◌, ◌≤◌, ◌≡◌, refl, ap, Bool, true, false, not, ◌&&◌, List, [], ◌∷◌, ◌⊎◌, ◌∙◌, ◌++◌,
  ltb, if◌then◌else◌, arith, inl, inr,
}
use pai.Session.{RunState, stop, run, error}

-- How the status requests of one round end: with all replies, with a ConnectionError, with a
-- StatusRequestException or a TimeoutError, or with another exception.
pub data Poll : Type 0 where
  answered connection_lost missing failed : Poll

-- One turn of the loop: the run state that it finds, which other tasks set, and how the requests
-- would end that it then makes.
pub record Turn : Type 0 where
  pub run_state : RunState
  pub poll : Poll

-- How the loop ends: its own test fails, the session has been disconnected, or a ConnectionError
-- is passed on; `still_running` stands for turns that are yet to come.
pub data LoopEnd : Type 0 where
  stopped gave_up connection_error : LoopEnd
  still_running : ℕ → LoopEnd

abbrev pub is_over : RunState → Bool
is_over s = elim s [ stop ↦ true | error ↦ true | _ ↦ false ]

-- what one turn does: it ends the loop, or leaves a number of missing replies
pub data Round : Type 0 where
  ends : LoopEnd → Round
  goes_on : ℕ → Round

-- max(0, replies_missing - 1) is the subtraction of natural numbers
unfoldable pub turn : ℕ → Turn → Round
turn replies_missing t = if is_over t.run_state then ends stopped else (elim (t.run_state) [
  | run ↦ elim (t.poll) [
    | answered ↦ goes_on (replies_missing - 1)
    | connection_lost ↦ ends connection_error
    | missing ↦ if ltb 3 (suc replies_missing) then ends gave_up else goes_on (suc replies_missing)
    | failed ↦ goes_on replies_missing
  ]
  | _ ↦ goes_on replies_missing
])

unfoldable pub loop_from : ℕ → List Turn → LoopEnd
loop_from replies_missing [] = still_running replies_missing
loop_from replies_missing (t ∷ ts) = elim (turn replies_missing t) [
  | ends e ↦ e
  | goes_on n ↦ loop_from n ts
]

abbrev pub loop : List Turn → LoopEnd
loop ts = loop_from 0 ts
