-- ===== src/Connections/Life/Trace.antt =====
-- What holds of a connection through any sequence of calls and callbacks.
use pai.Prelude.{
  ◌≡◌, Bool, true, false, none, some, List, [], ◌∷◌, not, if◌then◌else◌, Option-cases, arith, Bytes,
  inl, inr,
}
use pai.Connections.Life.{
  Connection, Report, reports, silent, sent, connection_error, connected, set_connected, write,
  lose, close, connection_lost, protocol_close, is_active, send_message,
}

-- what can happen to a connection that is not connected anew
pub data Happening : Type 0 where
  sets : Bool → Happening
  loses : Bool → Happening
  closes : Report → Happening

abbrev pub happen : Happening → Connection → Connection
happen (sets value) c = set_connected value c
happen (loses exc) c = lose exc c
happen (closes report) c = (close report c).0

abbrev pub happens : List Happening → Connection → Connection
happens [] c = c
happens (h ∷ hs) c = happens hs (happen h c)

-- the connection holds no protocol that can send
abbrev pub is_dead : Connection → Bool
is_dead c = elim (c.protocol) [ none ↦ true | some p ↦ not (is_active p) ]

-- The message is handed to the transport when the connection says that it is connected, and a
-- ConnectionError is raised when it does not; the second test, in the protocol, never fails.
pub write-connected :
    (c : Connection) (message : Bytes)
    → write c message ≡ (if connected c then sent message else connection_error)
unfolding write connected send_message
write-connected c message = elim (Option-cases c.protocol) [
  | inl e ↦ ground arith
  | inr (p, e) ↦ ground arith
]

is_dead-connected : (c : Connection) → is_dead c ≡ true → connected c ≡ false
unfolding connected
is_dead-connected c h = elim (Option-cases c.protocol) [
  | inl e ↦ ground arith
  | inr (p, e) ↦ ground arith
]

is_dead-lose : (exc : Bool) (c : Connection) → is_dead (lose exc c) ≡ true
unfolding lose connection_lost is_active
is_dead-lose exc c = elim (Option-cases c.protocol) [
  | inl e ↦ ground arith
  | inr (p, e) ↦ ground arith
]

is_dead-close : (report : Report) (c : Connection) → is_dead (close report c).0 ≡ true
unfolding close protocol_close connection_lost is_active
is_dead-close silent c = elim (Option-cases c.protocol) [
  | inl e ↦ ground arith
  | inr (p, e) ↦ ground arith
]
is_dead-close (reports exc) c = elim (Option-cases c.protocol) [
  | inl e ↦ ground arith
  | inr (p, e) ↦ ground arith
]

is_dead-happens :
    (hs : List Happening) (c : Connection) → is_dead c ≡ true → is_dead (happens hs c) ≡ true
unfolding set_connected
is_dead-happens [] c h = h
is_dead-happens (sets value ∷ hs) c h = is_dead-happens hs (set_connected value c) h
is_dead-happens (loses exc ∷ hs) c h = is_dead-happens hs (lose exc c) (is_dead-lose exc c)
is_dead-happens (closes report ∷ hs) c h =
    is_dead-happens hs (close report c).0 (is_dead-close report c)

-- Once a connection has been lost, with an exception or without, every later write raises a
-- ConnectionError, whatever is called or reported in between short of connecting anew, setting
-- `connected` included.
pub lose-write :
    (c : Connection) (exc : Bool) (hs : List Happening) (message : Bytes)
    → write (happens hs (lose exc c)) message ≡ connection_error
lose-write c exc hs message = ground (
  arith,
  write-connected (happens hs (lose exc c)) message,
  is_dead-connected (happens hs (lose exc c))
      (is_dead-happens hs (lose exc c) (is_dead-lose exc c)),
)

-- The same after `close`, whether it returned or raised.
pub close-write :
    (c : Connection) (report : Report) (hs : List Happening) (message : Bytes)
    → write (happens hs (close report c).0) message ≡ connection_error
close-write c report hs message = ground (
  arith,
  write-connected (happens hs (close report c).0) message,
  is_dead-connected (happens hs (close report c).0)
      (is_dead-happens hs (close report c).0 (is_dead-close report c)),
)
