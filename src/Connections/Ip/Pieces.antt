-- ===== src/Connections/Ip/Pieces.antt =====
-- Which pieces of an IP packet lead to a call of the parser.
use pai.Prelude.{
  ℕ, ◌+◌, ◌%◌, ◌≡◌, refl, sym, ap, Bool, true, false, not, ◌||◌, ◌&&◌, Option, some, List, [], ◌∷◌,
  ◌++◌, append-nil, append_assoc, flatten, length, ltb, ◌==◌, arith, Bytes, Option-cases, inl, inr,
}
use pai.Connections.Ip.{
  IpMessage, Call, dispatch, returned, process, keep, assess, data_received, feed,
}

-- The piece does not complete the packet: it is shorter by more than 16 than the low byte of the
-- length that the packet announces, or the buffer is no sequence of blocks with it.
abbrev pub is_partial : ℕ → Bytes → Bytes → Bool
is_partial announced rest piece =
    ltb (length piece + 16) announced || not ((2 + length (rest ++ piece)) % 16 == 0)

abbrev pub all_partial : ℕ → Bytes → List Bytes → Bool
all_partial announced rest [] = true
all_partial announced rest (piece ∷ pieces) =
    is_partial announced rest piece && all_partial announced (rest ++ piece) pieces

-- every piece is shorter by more than 16 than the low byte of the length
abbrev pub all_short : ℕ → List Bytes → Bool
all_short announced [] = true
all_short announced (piece ∷ pieces) =
    ltb (length piece + 16) announced && all_short announced pieces

-- the first byte of a packet, when there is one
abbrev pub IsHeaded : Bytes → Type 0
IsHeaded [] = true ≡ true
IsHeaded (sof ∷ rest) = sof ≡ 0xAA

all_short-all_partial :
    (announced : ℕ) (rest : Bytes) (pieces : List Bytes)
    → all_short announced pieces ≡ true
    → all_partial announced rest pieces ≡ true
all_short-all_partial announced rest [] h = refl
all_short-all_partial announced rest (piece ∷ pieces) h =
    ground (arith, all_short-all_partial announced (rest ++ piece) pieces)

module _ (parse : Bytes → Option IpMessage) where
  data_received_partial :
      (announced : ℕ) (rest piece : Bytes)
      → is_partial announced rest piece ≡ true
      → data_received parse (0xAA ∷ announced ∷ rest) piece
        ≡ keep (0xAA ∷ announced ∷ rest ++ piece)
  unfolding data_received assess
  data_received_partial announced rest piece h = ground arith

  data_received_complete :
      (announced : ℕ) (rest piece : Bytes)
      → is_partial announced rest piece ≡ false
      → data_received parse (0xAA ∷ announced ∷ rest) piece
        ≡ process parse (0xAA ∷ announced ∷ rest ++ piece)
  unfolding data_received assess
  data_received_complete announced rest piece h = ground arith

  feed_partial :
      (announced : ℕ) (rest : Bytes) (pieces later : List Bytes)
      → all_partial announced rest pieces ≡ true
      → feed parse (0xAA ∷ announced ∷ rest) (pieces ++ later)
        ≡ feed parse (0xAA ∷ announced ∷ rest ++ flatten pieces) later
  unfolding feed flatten
  feed_partial announced rest [] later h =
      ap (λ r. feed parse (0xAA ∷ announced ∷ r) later) (sym (append-nil rest))
  feed_partial announced rest (piece ∷ pieces) later h = ground (
    arith,
    data_received_partial announced rest piece,
    feed_partial announced (rest ++ piece) pieces later,
    append_assoc rest piece (flatten pieces),
  )

  -- A packet that is delivered in pieces is parsed once, when the piece that completes it arrives,
  -- from all of its bytes in order, and the buffer is empty after it: where no earlier piece
  -- completes it and the parser returns a message.
  pub feed_pieces :
      (announced : ℕ) (first : Bytes) (pieces : List Bytes) (final : Bytes) (m : IpMessage)
      → all_partial announced first pieces ≡ true
      → is_partial announced (first ++ flatten pieces) final ≡ false
      → parse (0xAA ∷ announced ∷ (first ++ flatten pieces) ++ final) ≡ some m
      → feed parse (0xAA ∷ announced ∷ first) (pieces ++ final ∷ []) ≡ ([], dispatch m ∷ [])
  unfolding feed process
  feed_pieces announced first pieces final m h c e = ground (
    arith,
    feed_partial announced first pieces (final ∷ []) h,
    data_received_complete announced (first ++ flatten pieces) final c,
  )

  -- While every piece is shorter by more than 16 than the low byte of the length in the header,
  -- the parser is never called, however many bytes have arrived: all of them stay in the buffer.
  pub feed_short :
      (announced : ℕ) (rest : Bytes) (pieces : List Bytes)
      → all_short announced pieces ≡ true
      → feed parse (0xAA ∷ announced ∷ rest) pieces
        ≡ (0xAA ∷ announced ∷ rest ++ flatten pieces, [])
  unfolding feed
  feed_short announced rest pieces h = ground (
    arith,
    feed_partial announced rest pieces [] (all_short-all_partial announced rest pieces h),
    append-nil pieces,
  )

  assess-IsHeaded :
      (whole : Bytes) (received : ℕ)
      → (assess parse whole received).ending ≡ returned
      → IsHeaded (assess parse whole received).buffer
  unfolding assess process
  assess-IsHeaded [] received h = ground arith
  assess-IsHeaded (sof ∷ []) received h = ground arith
  assess-IsHeaded (sof ∷ announced ∷ rest) received h =
      elim (Option-cases (parse (sof ∷ announced ∷ rest))) [
        | inl e ↦ ground arith
        | inr (m, e) ↦ ground arith
      ]

  -- Whatever arrives: after a call that does not raise, the buffer is empty or starts with the
  -- first byte of a packet, 0xAA.
  pub data_received-IsHeaded :
      (buffer recv_data : Bytes)
      → (data_received parse buffer recv_data).ending ≡ returned
      → IsHeaded (data_received parse buffer recv_data).buffer
  unfolding data_received
  data_received-IsHeaded buffer recv_data h =
      assess-IsHeaded (buffer ++ recv_data) (length recv_data) h

  assess_whole :
      (whole : Bytes) (received : ℕ) (call : Call) (calls : List Call)
      → (assess parse whole received).calls ≡ call ∷ calls
      → (calls ≡ [])
        × IsHeaded whole
        × (length whole % 16 ≡ 0)
        × ((assess parse whole received).buffer ≡ [])
        × ((assess parse whole received).ending ≡ returned)
  unfolding assess process
  assess_whole [] received call calls h = ground arith
  assess_whole (sof ∷ []) received call calls h = ground arith
  assess_whole (sof ∷ announced ∷ rest) received call calls h =
      elim (Option-cases (parse (sof ∷ announced ∷ rest))) [
        | inl e ↦ ground arith
        | inr (m, e) ↦ ground arith
      ]

  -- Whenever a call hands anything on, it hands on one message, all that has been collected is
  -- whole blocks that start with 0xAA, and the buffer is emptied.
  pub data_received_whole :
      (buffer recv_data : Bytes) (call : Call) (calls : List Call)
      → (data_received parse buffer recv_data).calls ≡ call ∷ calls
      → (calls ≡ [])
        × IsHeaded (buffer ++ recv_data)
        × (length (buffer ++ recv_data) % 16 ≡ 0)
        × ((data_received parse buffer recv_data).buffer ≡ [])
        × ((data_received parse buffer recv_data).ending ≡ returned)
  unfolding data_received
  data_received_whole buffer recv_data call calls h =
      assess_whole (buffer ++ recv_data) (length recv_data) call calls h
