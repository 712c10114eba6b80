-- ===== src/Connections/Serial.antt =====
-- `SerialConnectionProtocol` of paradox/connections/protocols.py: cutting the byte stream of the
-- serial line into messages. The steps of the loop are here, what they amount to in the children.
pub mod Steps
pub mod Frames
pub mod Chunks
pub mod Stream
use pai.Prelude.{
  ℕ, zero, suc, ◌+◌, ◌*◌, ◌/◌, Bool, true, false, ◌&&◌, ◌||◌, some, List, [], ◌∷◌, ◌++◌, length,
  get_or, take, drop, ltb, leb, ◌==◌, if◌then◌else◌, Bytes,
}
use pai.Connections.Checksum.{checksum}

-- min_length = 4 if self.use_variable_message_length else 37
abbrev pub min_length : Bool → ℕ
min_length variable = if variable then 4 else 37

-- buffer[0] >> 4 in [1, 3, 4, 5, 6, 7, 8, 9]
abbrev pub is_short_kind : ℕ → Bool
is_short_kind kind = kind == 1 || leb 3 kind && leb kind 9

-- the length that the first three bytes announce
unfoldable pub header_length : ℕ → ℕ → ℕ → ℕ
header_length b0 b1 b2 =
    let kind = b0 / 16 in
    if kind == 0
    then 37
    else if is_short_kind kind
    then (if ltb 0 b1 && leb b1 71 then b1 else 37)
    else if kind == 0xA || kind == 0xB || kind == 0xD
    then b1
    else if kind == 0xC
    then b1 * 256 + b2
    else if kind == 0xE
    then (if ltb b1 37 || b1 == 0xFF then 37 else b1)
    else 37

-- the default 0 of `get_or` is never read: the loop asks for four bytes first
abbrev pub potential_packet_length : Bool → Bytes → ℕ
potential_packet_length variable buffer =
    if variable
    then header_length (get_or buffer 0 0) (get_or buffer 1 0) (get_or buffer 2 0)
    else 37

-- What one round of the loop does: it stops, hands on a message, or drops a byte.
pub data Round : Type 0 where
  wait : Round
  deliver : Bytes → Bytes → Round
  skip : Bytes → Round

unfoldable pub round : Bool → Bytes → Round
round variable buffer =
    if ltb (length buffer) (min_length variable)
    then wait
    else if ltb (length buffer) (potential_packet_length variable buffer)
    then wait
    else (let frame = take (potential_packet_length variable buffer) buffer in
        if checksum (some frame) (min_length variable)
        then deliver frame (drop (length frame) buffer)
        else skip (drop 1 buffer))

-- the `while` loop, with fuel: what is left in the buffer, and the messages handed on
unfoldable pub receive : ℕ → Bool → Bytes → Bytes × List Bytes
receive zero variable buffer = (buffer, [])
receive (suc fuel) variable buffer = elim (round variable buffer) [
  | wait ↦ (buffer, [])
  | deliver frame rest ↦
      let (left, messages) = receive fuel variable rest in (left, frame ∷ messages)
  | skip rest ↦ receive fuel variable rest
]

pub record SerialProtocol : Type 0 where
  pub use_variable_message_length : Bool
  pub buffer : Bytes

abbrev pub fresh : SerialProtocol
fresh = record { use_variable_message_length = true; buffer = [] }

-- each round but the last takes a byte off the buffer, so its length and one more rounds do
unfoldable pub data_received : SerialProtocol → Bytes → SerialProtocol × List Bytes
data_received p recv_data =
    let buffer = p.buffer ++ recv_data in
    let (left, messages) = receive (suc (length buffer)) p.use_variable_message_length buffer in
    (record p { buffer = left }, messages)

-- the transport calls `data_received` for each piece of the stream
unfoldable pub feed : SerialProtocol → List Bytes → SerialProtocol × List Bytes
feed p [] = (p, [])
feed p (chunk ∷ chunks) =
    let (p', messages) = data_received p chunk in
    let (p'', later) = feed p' chunks in (p'', messages ++ later)

unfoldable pub variable_message_length : SerialProtocol → Bool → SerialProtocol
variable_message_length p mode = record p { use_variable_message_length = mode }
