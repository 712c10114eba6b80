-- ===== src/Connections/Serial/Frames.antt =====
-- What the loop is meant to do, told without it: the messages that a stretch of the stream holds.
use pai.Prelude.{
  ℕ, zero, suc, ◌<◌, ◌≤◌, ◌≡◌, refl, ap, ◌∙◌, Bool, true, List, [], ◌∷◌, ◌++◌, arith, length, take,
  take_left, drop_left, some, length-append, Bytes, ◌⊎◌,
}
use pai.Connections.Checksum.{
  but_last, checksum, calculate_checksum, checksum-calculate_checksum, checksum-split,
}
use pai.Connections.Serial.{
  min_length, potential_packet_length, wait, deliver, skip, round, receive,
}
use pai.Connections.Serial.Steps.{
  potential_packet_length-append, min_length-pos, round-deliver, round-skip, round-deliver_shortens,
  round-skip_shortens, Round-cases, waits, delivers, skips,
}

-- A message as the panel sends it: a body and its checksum, as long as its first bytes announce.
pub record IsFrame (v : Bool) (frame : Bytes) : Type 0 where
  pub body : Bytes
  pub summed : frame ≡ body ++ calculate_checksum body
  pub long_enough : min_length v ≤ length frame
  pub announced : length frame ≡ potential_packet_length v frame

-- The buffer does not yet hold what its first bytes announce.
abbrev pub IsShort : Bool → Bytes → Type 0
IsShort v buffer =
    (length buffer < min_length v) ⊎ (length buffer < potential_packet_length v buffer)

-- No message stands at the front of the buffer.
abbrev pub HasNoFrame : Bool → Bytes → Type 0
HasNoFrame v buffer = (frame rest : Bytes) → buffer ≡ frame ++ rest → IsFrame v frame → ⊥

-- `Cuts v buffer messages left`: from the front of the buffer on, each message is taken out, and
-- a byte is dropped only where no message begins and all that is announced has come; what is left
-- is too short to tell.
pub data Cuts (v : Bool) : Bytes → List Bytes → Bytes → Type 0 where
  short : {buffer : Bytes} → IsShort v buffer → Cuts v buffer [] buffer
  message :
      {buffer frame rest : Bytes} {messages : List Bytes} {left : Bytes}
      → buffer ≡ frame ++ rest
      → IsFrame v frame
      → Cuts v rest messages left
      → Cuts v buffer (frame ∷ messages) left
  junk :
      {buffer : Bytes} {c : ℕ} {rest : Bytes} {messages : List Bytes} {left : Bytes}
      → buffer ≡ c ∷ rest
      → (IsShort v buffer → ⊥)
      → HasNoFrame v buffer
      → Cuts v rest messages left
      → Cuts v buffer messages left

-- The code's test for a message is the description's.
checksum→IsFrame :
    (v : Bool) (frame : Bytes)
    → checksum (some frame) (min_length v) ≡ true
    → length frame ≡ potential_packet_length v frame
    → IsFrame v frame
checksum→IsFrame v frame h announced =
    let pos = min_length-pos v in
    let (summed, long_enough) = checksum-split frame (min_length v) h (omega arith) in
    record {
      body = but_last frame;
      summed = summed;
      long_enough = long_enough;
      announced = announced;
    }

IsFrame→checksum :
    (v : Bool) (frame : Bytes) → IsFrame v frame → checksum (some frame) (min_length v) ≡ true
unfolding calculate_checksum
IsFrame→checksum v frame f =
    let sized = length-append f.body (calculate_checksum f.body) in
    let long = f.long_enough in
    rw f.summed (rw checksum-calculate_checksum (ground (arith, f.summed, ap length f.summed)))

round-frame :
    (v : Bool) (frame rest : Bytes) → IsFrame v frame → round v (frame ++ rest) ≡ deliver frame rest
unfolding round
round-frame v frame rest f =
    let n = potential_packet_length v frame in
    let sized = f.announced in
    ground (
      arith,
      potential_packet_length-append v frame rest f.long_enough,
      length-append frame rest,
      take_left frame rest,
      drop_left frame rest,
      ap (λ k. take k (frame ++ rest)) sized,
      IsFrame→checksum v frame f,
    )

round-deliver_IsFrame :
    (v : Bool) (buffer : Bytes) {frame rest : Bytes}
    → round v buffer ≡ deliver frame rest
    → IsFrame v frame
round-deliver_IsFrame v buffer {frame} {rest} h =
    let d = round-deliver v buffer h in
    checksum→IsFrame v frame d.sums (
      d.announced
      ∙ ap (potential_packet_length v) d.splits
      ∙ potential_packet_length-append v frame rest d.long_enough)

round-skip_HasNoFrame :
    (v : Bool) (buffer : Bytes) {rest : Bytes} → round v buffer ≡ skip rest → HasNoFrame v buffer
round-skip_HasNoFrame v buffer h frame rest split f =
    cc (h, ap (round v) split, round-frame v frame rest f)

round-wait_IsShort : (v : Bool) (buffer : Bytes) → round v buffer ≡ wait → IsShort v buffer
unfolding round
round-wait_IsShort v buffer h = ground arith

pub round_short : (v : Bool) (buffer : Bytes) → IsShort v buffer → round v buffer ≡ wait
unfolding round
round_short v buffer h = ground arith

round-skip_long :
    (v : Bool) (buffer : Bytes) {rest : Bytes} → round v buffer ≡ skip rest → IsShort v buffer → ⊥
round-skip_long v buffer h s = cc (h, round_short v buffer s)

round_junk :
    (v : Bool) (buffer : Bytes) {c : ℕ} {rest : Bytes}
    → buffer ≡ c ∷ rest
    → (IsShort v buffer → ⊥)
    → HasNoFrame v buffer
    → round v buffer ≡ skip rest
round_junk v buffer e long none = elim (Round-cases (round v buffer)) [
  | waits w ↦ absurd (long (round-wait_IsShort v buffer w))
  | delivers {frame = frame} {rest = r} d ↦
      absurd (none frame r (round-deliver v buffer d).splits (round-deliver_IsFrame v buffer d))
  | skips s ↦ cc (s, e, (round-skip v buffer s).splits)
]

-- The loop does what the description says.
pub receive-Cuts :
    (fuel : ℕ) (v : Bool) (buffer : Bytes)
    → length buffer < fuel
    → Cuts v buffer (receive fuel v buffer).1 (receive fuel v buffer).0
unfolding receive
receive-Cuts zero v buffer h = elim h [ ]
receive-Cuts (suc fuel) v buffer h = elim (Round-cases (round v buffer)) [
  | waits e ↦ rw (e, receive) (short (round-wait_IsShort v buffer e))
  | delivers {rest = rest} e ↦
      let shorter = round-deliver_shortens v buffer e in
      rw (e, receive)
        (message (round-deliver v buffer e).splits (round-deliver_IsFrame v buffer e)
          (receive-Cuts fuel v rest (omega arith)))
  | skips {rest = rest} e ↦
      let shorter = round-skip_shortens v buffer e in
      rw (e, receive)
        (junk (round-skip v buffer e).splits (round-skip_long v buffer e)
          (round-skip_HasNoFrame v buffer e) (receive-Cuts fuel v rest (omega arith)))
]

-- And the description leaves no other choice.
pub Cuts-receive :
    (fuel : ℕ) {v : Bool} {buffer : Bytes} {messages : List Bytes} {left : Bytes}
    → length buffer < fuel
    → Cuts v buffer messages left
    → receive fuel v buffer ≡ (left, messages)
unfolding receive
Cuts-receive zero h c = elim h [ ]
Cuts-receive (suc fuel) {v} {buffer} h (short s) = rw (round_short v buffer s, receive) refl
Cuts-receive (suc fuel) {v} {buffer} h (message {frame = frame} {rest = rest} e f c) =
    let found = rw (← e) at (round-frame v frame rest f) in
    let shorter = round-deliver_shortens v buffer found in
    rw (found, receive) (rw (Cuts-receive fuel (omega arith) c) refl)
Cuts-receive (suc fuel) {v} {buffer} h (junk e long none c) =
    let found = round_junk v buffer e long none in
    let shorter = round-skip_shortens v buffer found in
    rw (found, receive) (Cuts-receive fuel (omega arith) c)
