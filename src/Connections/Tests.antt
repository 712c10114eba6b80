-- ===== src/Connections/Tests.antt =====
-- Runs of the connection layer at concrete inputs, and its theorems at such inputs.
use mathlib.Core.List.{flatten}
use pai.Prelude.{
  ◌≡◌, ◌↔◌, refl, true, false, some, [], ◌∷◌, ◌++◌, ◌<◌, arith, length, IsBytes, Bytes,
}
use pai.Connections.Checksum.{
  calculate_checksum, checksum, checksum-calculate_checksum, checksum_detects,
}
use pai.Connections.Serial.{fresh, header_length, round, receive, data_received, feed}
use pai.Connections.Serial.Frames.{IsFrame, Cuts}
use pai.Connections.Serial.Chunks.{
  IsSettled, data_received-IsSettled, feed-flatten, data_received-append,
}
use pai.Connections.Serial.Stream.{data_received_iff, feed_frames, data_received-bounded}

-- a reply of kind 5 that announces five bytes
abbrev reply : Bytes
reply = 0x50 ∷ 5 ∷ 1 ∷ 2 ∷ 0x58 ∷ []

-- an event of kind 0xE, whose second byte stands for the fixed length of 37
abbrev event : Bytes
event =
    0xE2 ∷ 0x14 ∷ 0x13 ∷ 0 ∷ 0 ∷ 0 ∷ 0 ∷ 0 ∷ 0 ∷ 0 ∷ 0 ∷ 0 ∷ 0 ∷ 0 ∷ 0 ∷ 0 ∷ 0 ∷ 0 ∷ 0 ∷ 0 ∷ 0 ∷ 0
    ∷ 0 ∷ 0 ∷ 0 ∷ 0 ∷ 0 ∷ 0 ∷ 0 ∷ 0 ∷ 0 ∷ 0 ∷ 0 ∷ 0 ∷ 0 ∷ 0 ∷ 0x09 ∷ []

-- the two messages with a stray byte in front of the event and the reply cut in two
two_pieces :
    feed fresh ((0x50 ∷ 5 ∷ []) ∷ (1 ∷ 2 ∷ 0x58 ∷ event) ∷ []) ≡ (fresh, reply ∷ event ∷ [])
unfolding feed data_received receive round header_length checksum
two_pieces = refl

stray_byte : (data_received fresh (0x55 ∷ event)).1 ≡ event ∷ []
unfolding data_received receive round header_length checksum
stray_byte = refl

-- the broken checksum loses the message
broken : (data_received fresh (0x50 ∷ 5 ∷ 1 ∷ 2 ∷ 0x59 ∷ [])).1 ≡ []
unfolding data_received receive round header_length checksum
broken = refl

reply-IsFrame : IsFrame true reply
unfolding header_length calculate_checksum
reply-IsFrame = record {
  body = 0x50 ∷ 5 ∷ 1 ∷ 2 ∷ [];
  summed = refl;
  long_enough = omega arith;
  announced = refl;
}

checksum_detects_example : checksum (some (0x50 ∷ 5 ∷ 1 ∷ 3 ∷ 0x58 ∷ [])) 4 ≡ false
unfolding checksum
checksum_detects_example =
    checksum_detects (0x50 ∷ 5 ∷ 1 ∷ []) 2 3 [] 0x58 4 (omega arith) (omega arith) (omega arith)
      refl

checksum-calculate_checksum_example :
    checksum (some ((0x50 ∷ 5 ∷ 1 ∷ 2 ∷ []) ++ calculate_checksum (0x50 ∷ 5 ∷ 1 ∷ 2 ∷ []))) 4 ≡ true
checksum-calculate_checksum_example = checksum-calculate_checksum (0x50 ∷ 5 ∷ 1 ∷ 2 ∷ []) 4

data_received-append_example : data_received fresh ((0x50 ∷ 5 ∷ []) ++ (1 ∷ 2 ∷ 0x58 ∷ [])) ≡ (
  (data_received (data_received fresh (0x50 ∷ 5 ∷ [])).0 (1 ∷ 2 ∷ 0x58 ∷ [])).0,
  (data_received fresh (0x50 ∷ 5 ∷ [])).1
      ++ (data_received (data_received fresh (0x50 ∷ 5 ∷ [])).0 (1 ∷ 2 ∷ 0x58 ∷ [])).1,
)
data_received-append_example = data_received-append fresh (0x50 ∷ 5 ∷ []) (1 ∷ 2 ∷ 0x58 ∷ [])

feed-flatten_example :
    feed fresh ((0x50 ∷ 5 ∷ []) ∷ (1 ∷ 2 ∷ 0x58 ∷ []) ∷ []) ≡ data_received fresh reply
unfolding round flatten
feed-flatten_example = feed-flatten fresh ((0x50 ∷ 5 ∷ []) ∷ (1 ∷ 2 ∷ 0x58 ∷ []) ∷ []) refl

data_received_iff_example :
    (data_received fresh reply ≡ (fresh, reply ∷ []))
    ↔ (Cuts true reply (reply ∷ []) [] × (true ≡ true))
data_received_iff_example = data_received_iff fresh fresh reply (reply ∷ [])

feed_frames_example : feed fresh ((0x50 ∷ 5 ∷ []) ∷ (1 ∷ 2 ∷ 0x58 ∷ []) ∷ []) ≡ (fresh, reply ∷ [])
unfolding flatten
feed_frames_example =
    feed_frames fresh ((0x50 ∷ 5 ∷ []) ∷ (1 ∷ 2 ∷ 0x58 ∷ []) ∷ []) (reply ∷ []) refl
      (reply-IsFrame, tt) refl

data_received-bounded_example :
    (length (data_received fresh reply).0.buffer < 65535)
    × IsBytes (data_received fresh reply).0.buffer
data_received-bounded_example = data_received-bounded fresh reply tt (omega arith)

data_received-IsSettled_example : IsSettled (data_received fresh (0x50 ∷ 5 ∷ [])).0
data_received-IsSettled_example = data_received-IsSettled fresh (0x50 ∷ 5 ∷ [])
