-- ===== src/Connections/Ip.antt =====
-- `IPConnectionProtocol` of paradox/connections/protocols.py: collecting the pieces that the
-- transport delivers until the packet parser can be called on them.
pub mod Pieces
mod Tests
use pai.Prelude.{
  ℕ, suc, ◌+◌, ◌%◌, Bool, true, false, not, Option, none, some, List, [], ◌∷◌, ◌++◌, length, ltb,
  ◌==◌, if◌then◌else◌, Bytes,
}

-- `IPMessageType`, as far as the protocol tells the types apart
pub data MessageType : Type 0 where
  serial_passthrough_response ip_response other_type : MessageType

pub record IpMessage : Type 0 where
  pub message_type : MessageType
  pub payload : Bytes

-- the calls that one packet leads to
pub data Call : Type 0 where
  on_message : Bytes → Call
  on_ip_message : IpMessage → Call
  wrong_message : IpMessage → Call

-- how `data_received` ends: normally, or with an IndexError or the parser's exception
pub data Ending : Type 0 where
  returned index_error parse_error : Ending

pub record Received : Type 0 where
  pub buffer : Bytes
  pub calls : List Call
  pub ending : Ending

abbrev pub dispatch : IpMessage → Call
dispatch m = elim (m.message_type) [
  | serial_passthrough_response ↦ on_message m.payload
  | ip_response ↦ on_ip_message m
  | other_type ↦ wrong_message m
]

abbrev pub keep : Bytes → Received
keep buffer = record { buffer = buffer; calls = []; ending = returned }

abbrev pub fail : Bytes → Received
fail buffer = record { buffer = buffer; calls = []; ending = index_error }

-- `IPMessageResponse.parse` with the connection's key; none stands for its exceptions
module _ (parse : Bytes → Option IpMessage) where
  -- the buffer is emptied after `_process_message`, so an exception of the parser keeps it
  unfoldable pub process : Bytes → Received
  process buffer = elim (parse buffer) [
    | none ↦ record { buffer = buffer; calls = []; ending = parse_error }
    | some m ↦ record { buffer = []; calls = dispatch m ∷ []; ending = returned }
  ]

  -- what `data_received` does once the piece is in the buffer; self.buffer[0] and self.buffer[1]
  -- raise when the buffer is shorter
  unfoldable pub assess : Bytes → ℕ → Received
  assess [] received = fail []
  assess (sof ∷ []) received = if not (sof == 0xAA) then keep [] else fail (sof ∷ [])
  assess (sof ∷ announced ∷ rest) received =
      if not (sof == 0xAA)
      then keep []
      else if ltb (received + 16) announced
      then keep (sof ∷ announced ∷ rest)
      else if not (length (sof ∷ announced ∷ rest) % 16 == 0)
      then keep (sof ∷ announced ∷ rest)
      else process (sof ∷ announced ∷ rest)

  unfoldable pub data_received : Bytes → Bytes → Received
  data_received buffer recv_data = assess (buffer ++ recv_data) (length recv_data)

  -- the transport calls `data_received` for each piece; an exception does not stop it
  unfoldable pub feed : Bytes → List Bytes → Bytes × List Call
  feed buffer [] = (buffer, [])
  feed buffer (piece ∷ pieces) =
      let step = data_received buffer piece in
      let rest = feed step.buffer pieces in (rest.0, step.calls ++ rest.1)
