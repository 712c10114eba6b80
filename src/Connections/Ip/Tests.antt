-- ===== src/Connections/Ip/Tests.antt =====
-- The IP protocol's theorems at a packet of 48 bytes.
use pai.Prelude.{
  ℕ, ◌≡◌, refl, true, false, Option, none, some, List, [], ◌∷◌, ◌++◌, arith, Bytes, replicate, drop,
  length, ◌%◌,
}
use pai.Connections.Ip.{
  IpMessage, Call, MessageType, serial_passthrough_response, on_message, data_received, feed,
  returned,
}
use pai.Connections.Ip.Pieces.{
  feed_pieces, feed_short, data_received-IsHeaded, data_received_whole, IsHeaded,
}

-- a parser that takes what follows the header as the payload
abbrev payload_of : Bytes → Option IpMessage
payload_of packet =
    some (record { message_type = serial_passthrough_response; payload = drop 16 packet })

abbrev first_part : Bytes
first_part = 0 ∷ 2 ∷ 9 ∷ replicate 20 0xEE

feed_pieces_example :
    feed payload_of (0xAA ∷ 32 ∷ first_part) (replicate 3 1 ∷ replicate 20 7 ∷ [])
    ≡ ([], on_message (replicate 9 0xEE ++ replicate 3 1 ++ replicate 20 7) ∷ [])
unfolding pai.Prelude.flatten
feed_pieces_example =
    feed_pieces payload_of 32 first_part (replicate 3 1 ∷ []) (replicate 20 7)
      (record {
        message_type = serial_passthrough_response;
        payload = replicate 9 0xEE ++ replicate 3 1 ++ replicate 20 7;
      })
      refl refl refl

-- a packet of 64 bytes that announces 48, in pieces of at most 31: all of it has arrived
feed_short_example :
    feed payload_of (0xAA ∷ 48 ∷ first_part) (replicate 20 1 ∷ replicate 19 7 ∷ [])
    ≡ (0xAA ∷ 48 ∷ first_part ++ replicate 20 1 ++ replicate 19 7 ++ [], [])
unfolding pai.Prelude.flatten
feed_short_example = feed_short payload_of 48 first_part (replicate 20 1 ∷ replicate 19 7 ∷ []) refl

data_received-IsHeaded_example :
    IsHeaded (data_received payload_of (0xAA ∷ 48 ∷ first_part) (1 ∷ [])).buffer
unfolding data_received pai.Connections.Ip.assess
data_received-IsHeaded_example =
    data_received-IsHeaded payload_of (0xAA ∷ 48 ∷ first_part) (1 ∷ []) refl

abbrev short_packet : Bytes
short_packet = 0xAA ∷ replicate 15 0

data_received_whole_example :
    (◌≡◌ {A = List Call} [] [])
    × IsHeaded short_packet
    × (length short_packet % 16 ≡ 0)
    × ((data_received payload_of [] short_packet).buffer ≡ [])
    × ((data_received payload_of [] short_packet).ending ≡ returned)
unfolding data_received pai.Connections.Ip.assess pai.Connections.Ip.process
data_received_whole_example = data_received_whole payload_of [] short_packet (on_message []) [] refl
