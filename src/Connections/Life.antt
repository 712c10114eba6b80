-- ===== src/Connections/Life.antt =====
-- The life of a connection: `ConnectionProtocol` (paradox/connections/protocols.py), `Connection`
-- (paradox/connections/connection.py) and `MultiAttemptConnection.connect`
-- (paradox/connections/ip/connection.py). The transport is the event loop's: it is told apart only
-- by whether the protocol holds it, and its callbacks are operations here.
pub mod Attempts
pub mod Trace
mod Tests
use pai.Prelude.{
  ℕ, zero, suc, ◌+◌, Bool, true, false, not, ◌&&◌, Option, none, some, List, [], ◌∷◌, if◌then◌else◌,
  Bytes,
}

-- the future `_closed`: nothing yet, a result, the exception that the connection was lost with,
-- or cancelled by a wait that timed out
pub data Closed : Type 0 where
  pending finished failed cancelled : Closed

pub record Protocol : Type 0 where
  pub transport : Bool
  pub closed : Closed
  pub buffer : Bytes

abbrev pub fresh : Protocol
fresh = record { transport = false; closed = pending; buffer = [] }

abbrev pub is_pending : Closed → Bool
is_pending closed = elim closed [ pending ↦ true | _ ↦ false ]

unfoldable pub is_active : Protocol → Bool
is_active p = p.transport && is_pending p.closed

unfoldable pub connection_made : Protocol → Protocol
connection_made p = record p { transport = true }

-- the flag says whether there is an exception; one that is done already stays as it is
unfoldable pub connection_lost : Bool → Protocol → Protocol
connection_lost exc p = record {
  transport = false;
  closed = if is_pending p.closed then (if exc then failed else finished) else p.closed;
  buffer = [];
}

-- What a call leads to: bytes handed to the transport, a ConnectionError before that, the
-- exception of the future (a CancelledError too), the TimeoutError of waiting for it, or nothing.
pub data Result : Type 0 where
  done : Result
  sent : Bytes → Result
  connection_error : Result
  lost_error : Result
  timeout_error : Result
  cancelled_error : Result

-- `SerialConnectionProtocol.send_message`, with `check_active`
unfoldable pub send_message : Protocol → Bytes → Result
send_message p message = if is_active p then sent message else connection_error

-- What happens while `close` waits: the transport does not report the loss in time, or it reports
-- it with an exception or without.
pub data Report : Type 0 where
  silent : Report
  reports : Bool → Report

abbrev pub reported : Report → Protocol → Protocol
reported silent p = p
reported (reports exc) p = connection_lost exc p

-- asyncio.wait_for on the future: it is cancelled when the time is over
abbrev pub wait_closed : Protocol → Protocol × Result
wait_closed p = elim (p.closed) [
  | pending ↦ (record p { closed = cancelled }, timeout_error)
  | finished ↦ (p, done)
  | failed ↦ (p, lost_error)
  | cancelled ↦ (p, cancelled_error)
]

-- `ConnectionProtocol.close`: the transport is let go of, then the future is waited for
unfoldable pub protocol_close : Report → Protocol → Protocol × Result
protocol_close report p = wait_closed (reported report (record p { transport = false }))

pub record Connection : Type 0 where
  pub flag : Bool
  pub protocol : Option Protocol

abbrev pub new : Connection
new = record { flag = false; protocol = none }

-- the property `connected`, and its setter, which only sets the flag
unfoldable pub connected : Connection → Bool
connected c = c.flag && elim (c.protocol) [ none ↦ false | some p ↦ is_active p ]

unfoldable pub set_connected : Bool → Connection → Connection
set_connected value c = record c { flag = value }

unfoldable pub write : Connection → Bytes → Result
write c message =
    if connected c
    then elim (c.protocol) [ none ↦ connection_error | some p ↦ send_message p message ]
    else connection_error

-- the loss as the transport reports it: the protocol first, then `on_connection_loss`
unfoldable pub lose : Bool → Connection → Connection
lose exc c = elim (c.protocol) [
  | none ↦ c
  | some p ↦ record { flag = false; protocol = some (connection_lost exc p) }
]

-- the flag once the loss has been reported, if it has
abbrev pub flag_after : Report → Bool → Bool
flag_after silent flag = flag
flag_after (reports exc) flag = false

-- Where waiting raises, the two assignments after it are not reached.
unfoldable pub close : Report → Connection → Connection × Result
close report c = elim (c.protocol) [
  | none ↦ (record c { flag = false }, done)
  | some p ↦
      let (p', r) = protocol_close report p in
      elim r [
        | done ↦ (record { flag = false; protocol = none }, done)
        | r' ↦ (record { flag = flag_after report c.flag; protocol = some p' }, r')
      ]
]

-- `_try_connect` of the bare connection, when the event loop has made the connection
unfoldable pub established : Connection → Connection
established c = record { flag = true; protocol = some (connection_made fresh) }
