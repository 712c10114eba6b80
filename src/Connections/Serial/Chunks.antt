-- ===== src/Connections/Serial/Chunks.antt =====
-- How the stream is cut into pieces by the transport does not matter.
use mathlib.Core.List.{flatten}
use pai.Prelude.{
  ℕ, zero, suc, ◌<◌, ◌≡◌, refl, sym, Bool, List, [], ◌∷◌, ◌++◌, append-nil, append_assoc, arith,
  length, length-append, Bytes,
}
use pai.Connections.Serial.{wait, round, receive, SerialProtocol, data_received, feed}
use pai.Connections.Serial.Steps.{
  round-append_deliver, round-append_skip, round-deliver_shortens, round-skip_shortens, Round-cases,
  waits, delivers, skips, receive_fuel, receive_ends,
}

receive-append :
    (f g h : ℕ) (v : Bool) (a b : Bytes)
    → length a < f
    → length (a ++ b) < g
    → length ((receive f v a).0 ++ b) < h
    → receive g v (a ++ b) ≡ (
      (receive h v ((receive f v a).0 ++ b)).0,
      (receive f v a).1 ++ (receive h v ((receive f v a).0 ++ b)).1,
    )
unfolding receive
receive-append zero g h v a b hf hg hh = elim hf [ ]
receive-append (suc f) zero h v a b hf hg hh = elim hg [ ]
receive-append (suc f) (suc g) h v a b hf hg hh = elim (Round-cases (round v a)) [
  | waits e ↦
      let fits = rw (e, receive) at hh in
      rw (e, receive) (receive_fuel (suc g) h v (a ++ b) hg fits)
  | delivers {rest = rest} e ↦
      let shorter = round-deliver_shortens v a e in
      let fits = rw (e, receive) at hh in
      let ih =
        receive-append f g h v rest b (omega arith)
          (omega (arith, length-append a b, length-append rest b)) fits in
      rw (e, receive) (rw (round-append_deliver v a b e, receive) (rw ih refl))
  | skips {rest = rest} e ↦
      let shorter = round-skip_shortens v a e in
      let fits = rw (e, receive) at hh in
      let ih =
        receive-append f g h v rest b (omega arith)
          (omega (arith, length-append a b, length-append rest b)) fits in
      rw (e, receive) (rw (round-append_skip v a b e, receive) ih)
]

-- Receiving two pieces one after the other hands on the same messages, in the same order, and
-- leaves the same state as receiving them joined.
pub data_received-append :
    (p : SerialProtocol) (a b : Bytes)
    → data_received p (a ++ b) ≡ (
      (data_received (data_received p a).0 b).0,
      (data_received p a).1 ++ (data_received (data_received p a).0 b).1,
    )
unfolding data_received
data_received-append p a b =
    let v = p.use_variable_message_length in
    let before = p.buffer ++ a in
    let left = (receive (suc (length before)) v before).0 in
    rw (← append_assoc) (
      rw
        (receive-append (suc (length before)) (suc (length (before ++ b)))
          (suc (length (left ++ b))) v before b (omega arith) (omega arith) (omega arith))
        refl)

-- The state between two calls: one more round of the loop would wait.
abbrev pub IsSettled : SerialProtocol → Type 0
IsSettled p = round p.use_variable_message_length p.buffer ≡ wait

-- Every call leaves such a state, whatever the one before it: the loop has ended by its own test,
-- not because the fuel ran out.
pub data_received-IsSettled :
    (p : SerialProtocol) (recv_data : Bytes) → IsSettled (data_received p recv_data).0
unfolding data_received
data_received-IsSettled p recv_data =
    receive_ends (suc (length (p.buffer ++ recv_data))) p.use_variable_message_length
      (p.buffer ++ recv_data) (omega arith)

data_received-nil : (p : SerialProtocol) → IsSettled p → data_received p [] ≡ (p, [])
unfolding data_received receive
data_received-nil p h = rw append-nil (rw (h, receive) refl)

-- From a settled state, the messages handed on and the state at the end depend on the bytes
-- received alone: they are those of one call with all the pieces joined.
pub feed-flatten :
    (p : SerialProtocol) (chunks : List Bytes)
    → IsSettled p
    → feed p chunks ≡ data_received p (flatten chunks)
unfolding feed flatten
feed-flatten p [] h = sym (data_received-nil p h)
feed-flatten p (chunk ∷ chunks) h =
    rw (data_received-append p chunk (flatten chunks))
      (rw (feed-flatten (data_received p chunk).0 chunks (data_received-IsSettled p chunk)) refl)
