-- ===== src/Connections/Serial/Stream.antt =====
-- What `data_received` does with the bytes of the line, whatever pieces they come in.
use mathlib.Core.List.{flatten}
use pai.Prelude.{
  ℕ, suc, ◌<◌, ◌≡◌, refl, sym, ap, Bool, true, false, List, [], ◌∷◌, ◌++◌, ◌↔◌, inl, inr, arith,
  length, All, All-append, All-append_right, IsBytes, get_or, get_or-lt, Bytes,
}
use pai.Connections.Serial.{header_length, SerialProtocol, data_received, feed}
use pai.Connections.Serial.Steps.{min_length-pos}
use pai.Connections.Serial.Frames.{
  IsFrame, IsShort, round_short, Cuts, short, message, junk, receive-Cuts, Cuts-receive,
}
use pai.Connections.Serial.Chunks.{IsSettled, feed-flatten}

-- `data_received` hands on `messages` and leaves the state `p'` exactly when the buffer with the
-- new bytes cuts into those messages and the buffer of `p'`, and the mode is the one before.
pub data_received_iff :
    (p p' : SerialProtocol) (recv_data : Bytes) (messages : List Bytes)
    → (data_received p recv_data ≡ (p', messages)) ↔ (
        Cuts p.use_variable_message_length (p.buffer ++ recv_data) messages p'.buffer
        × (p'.use_variable_message_length ≡ p.use_variable_message_length))
unfolding data_received
data_received_iff p p' recv_data messages =
    let v = p.use_variable_message_length in
    let buffer = p.buffer ++ recv_data in
    (
      λ h.
          let cut = receive-Cuts (suc (length buffer)) v buffer (omega arith) in
          let left = ap (λ (r : SerialProtocol × List Bytes). r.0.buffer) h in
          let said = ap (λ (r : SerialProtocol × List Bytes). r.1) h in
          (
            rw said at (rw left at cut),
            sym (ap (λ (r : SerialProtocol × List Bytes). r.0.use_variable_message_length) h),
          ),
      λ h. let r = Cuts-receive (suc (length buffer)) (omega arith) h.0 in ground (arith, r, h.1),
    )

frames-Cuts :
    (v : Bool) (frames : List Bytes) → All (IsFrame v) frames → Cuts v (flatten frames) frames []
unfolding flatten
frames-Cuts v [] h = short (inl (let pos = min_length-pos v in omega arith))
frames-Cuts v (f ∷ fs) h = message refl h.0 (frames-Cuts v fs h.1)

IsSettled-empty : (p : SerialProtocol) → p.buffer ≡ [] → IsSettled p
IsSettled-empty p empty =
    let pos = min_length-pos p.use_variable_message_length in
    rw empty (round_short p.use_variable_message_length [] (inl (omega arith)))

-- A stream that consists of well-formed messages is handed on message by message, in order and
-- complete, whatever pieces it comes in; the buffer is empty again at the end.
pub feed_frames :
    (p : SerialProtocol) (chunks frames : List Bytes)
    → p.buffer ≡ []
    → All (IsFrame p.use_variable_message_length) frames
    → flatten chunks ≡ flatten frames
    → feed p chunks ≡ (p, frames)
feed_frames p chunks frames empty ok same =
    let v = p.use_variable_message_length in
    let cut = frames-Cuts v frames ok in
    rw (feed-flatten p chunks (IsSettled-empty p empty))
      ((data_received_iff p p (flatten chunks) frames).1 (rw (empty, same) cut, refl))

Cuts-IsBytes :
    {v : Bool} {buffer : Bytes} {messages : List Bytes} {left : Bytes}
    → Cuts v buffer messages left
    → IsBytes buffer
    → IsBytes left
Cuts-IsBytes (short s) h = h
Cuts-IsBytes (message {frame = frame} {rest = rest} e f c) h =
    Cuts-IsBytes c (All-append_right _ frame rest (rw e at h))
Cuts-IsBytes (junk {c = c} {rest = rest} e l n k) h = Cuts-IsBytes k (rw e at h).1

header_length-lt : (b0 b1 b2 : ℕ) → b1 < 256 → b2 < 256 → header_length b0 b1 b2 < 65536
unfolding header_length
header_length-lt b0 b1 b2 h k = ground arith

IsShort-lt : (v : Bool) (buffer : Bytes) → IsBytes buffer → IsShort v buffer → length buffer < 65535
IsShort-lt true buffer h (inl s) = omega arith
IsShort-lt false buffer h (inl s) = omega arith
IsShort-lt true buffer h (inr s) = omega (
  arith,
  header_length-lt (get_or buffer 0 0) (get_or buffer 1 0) (get_or buffer 2 0)
      (get_or-lt buffer 1 h) (get_or-lt buffer 2 h),
)
IsShort-lt false buffer h (inr s) = omega arith

Cuts-lt :
    {v : Bool} {buffer : Bytes} {messages : List Bytes} {left : Bytes}
    → Cuts v buffer messages left
    → IsBytes left
    → length left < 65535
Cuts-lt {v} (short {buffer = buffer} s) h = IsShort-lt v buffer h s
Cuts-lt (message e f c) h = Cuts-lt c h
Cuts-lt (junk e l n c) h = Cuts-lt c h

-- Whatever bytes come, and however many at once, fewer than 65535 bytes are held back, and they
-- are bytes again.
pub data_received-bounded :
    (p : SerialProtocol) (recv_data : Bytes)
    → IsBytes p.buffer
    → IsBytes recv_data
    → (length (data_received p recv_data).0.buffer < 65535)
      × IsBytes (data_received p recv_data).0.buffer
data_received-bounded p recv_data h k =
    let cut =
      ((data_received_iff p (data_received p recv_data).0 recv_data (data_received p recv_data).1).0
        refl).0 in
    let bytes = Cuts-IsBytes cut (All-append _ p.buffer recv_data h k) in (Cuts-lt cut bytes, bytes)
