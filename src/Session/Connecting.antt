-- ===== src/Session/Connecting.antt =====
-- `connect`, `full_connect`, `disconnect`, `pause` and `resume` of `Paradox`: the run state.
pub mod Outcomes
use pai.Prelude.{Bool, true, false, Option, none, some, List, [], ◌∷◌, ◌++◌, if◌then◌else◌}
use pai.Session.{RunState, stop, init, connected, run, pause as paused, error}

-- How a call ends: with a value, or with asyncio.TimeoutError, a ConnectionError or any other
-- exception (a PAICriticalException among them).
pub data Outcome (A : Type 0) : Type 0 where
  ok : A → Outcome A
  timed_out connection_error other_error : Outcome A

pub data Done : Type 0 where
  done : Done

-- How the calls to the connection and to the panel end, in one run of `full_connect`: closing the
-- old connection, `connection.connect()`, whether there is a reply to InitiateCommunication,
-- whether to StartCommunication and then whether it names a product, what
-- `initialize_communication` returns, and `load_memory`.
pub record Script : Type 0 where
  pub closes : Outcome Done
  pub connects : Outcome Bool
  pub initiated : Outcome Bool
  pub started : Outcome (Option Bool)
  pub initialized : Outcome Bool
  pub loaded : Outcome Done

-- `connection` is whether there is a connection object, `linked` its `connected`; `published` are
-- the run states that were sent to the subscribers; `ignoring` is the registry's flag
pub record State : Type 0 where
  pub run_state : RunState
  pub published : List RunState
  pub connection : Bool
  pub linked : Bool
  pub panel : Bool
  pub ignoring : Bool
  pub refresh : Bool

abbrev pub Step : Type 0 → Type 0
Step A = State → Outcome A × State

module _ {A B : Type 0} where
  -- an exception skips what follows
  abbrev pub and_then : Step A → (A → Step B) → Step B
  and_then m k s =
      let r = m s in
      elim (r.0) [
        | ok a ↦ k a r.1
        | timed_out ↦ (timed_out, r.1)
        | connection_error ↦ (connection_error, r.1)
        | other_error ↦ (other_error, r.1)
      ]

module _ {A : Type 0} where
  abbrev pub give : Outcome A → Step A
  give o s = (o, s)

abbrev pub succeeds : Outcome Bool → Bool
succeeds o = elim o [ ok b ↦ b | _ ↦ false ]

-- the setter of `run_state`
abbrev pub set_run_state : RunState → Step Done
set_run_state value s =
    (ok done, record s { run_state = value; published = s.published ++ value ∷ [] })

-- what stands after both handlers
abbrev pub failed : Step Bool
failed s = and_then (set_run_state error) (λ _. give (ok false)) s

-- except asyncio.TimeoutError and except ConnectionError: the run state is ERROR then
abbrev pub rescue : Step Bool → Step Bool
rescue m s =
    let r = m s in
    elim (r.0) [
      | ok b ↦ (ok b, r.1)
      | timed_out ↦ failed r.1
      | connection_error ↦ failed r.1
      | other_error ↦ (other_error, r.1)
    ]

-- `disconnect`: the session is cleaned and the connection closed where it is connected
unfoldable pub disconnect : Script → Step Done
disconnect script =
    and_then (set_run_state stop)
      (λ _ s. if s.linked then (script.closes, record s { linked = false }) else (ok done, s))

-- the body of the `try` in `connect`, from its end
abbrev pub on_result : Bool → Step Bool
on_result result s =
    if result
    then and_then (set_run_state connected) (λ _. give (ok true)) s
    else (connection_error, s)

abbrev pub on_reply : Script → Option Bool → Step Bool
on_reply script none s = (connection_error, s)
on_reply script (some false) s = (other_error, s)
on_reply script (some true) s = and_then (give script.initialized) on_result s

abbrev pub on_initiate_reply : Script → Bool → Step Bool
on_initiate_reply script initiate_reply s =
    if initiate_reply
    then and_then (give script.started) (on_reply script) s
    else (connection_error, s)

unfoldable pub talk : Script → Step Bool
talk script s = and_then (give script.initiated) (on_initiate_reply script) s

-- `connection.connect()`; when it returns True the connection is connected
abbrev pub link : Script → Step Bool
link script s = (script.connects, record s { connection = true; linked = succeeds script.connects })

abbrev pub set_panel : Bool → Step Done
set_panel value s = (ok done, record s { panel = value })

-- if self._connection: await self.disconnect()
unfoldable pub close_old : Script → Step Done
close_old script s = if s.connection then disconnect script s else (ok done, s)

-- what `connect` does once the connection has been asked to connect
abbrev pub on_connected : Script → Bool → Step Bool
on_connected script success s =
    if success then and_then (set_panel true) (λ _. rescue (talk script)) s else failed s

unfoldable pub connect : Script → Step Bool
connect script s =
    and_then (close_old script)
      (λ _.
        and_then (set_panel false)
          (λ _. and_then (set_run_state init) (λ _. and_then (link script) (on_connected script))))
      s

abbrev pub request_status_refresh : Step Done
request_status_refresh s = (ok done, record s { refresh = true })

-- what `full_connect` does once `connect` has returned
abbrev pub on_success : Script → Bool → Step Bool
on_success script success s =
    if success
    then and_then (give script.loaded)
        (λ _.
          and_then (set_run_state run) (λ _. and_then request_status_refresh (λ _. give (ok true))))
        s
    else (ok false, s)

unfoldable pub full_connect : Script → Step Bool
full_connect script s = rescue (and_then (connect script) (on_success script)) s

unfoldable pub pause : Step Done
pause s = elim (s.run_state) [
  | run ↦ and_then (set_run_state paused) (λ _ s'. (ok done, record s' { ignoring = true })) s
  | _ ↦ (ok done, s)
]

unfoldable pub resume : Script → Step Done
resume script s = elim (s.run_state) [
  | paused ↦ and_then (full_connect script) (λ _. give (ok done)) (record s { ignoring = false })
  | _ ↦ (ok done, s)
]
