-- ===== src/Connections/Serial/Steps.antt =====
-- One round of the loop, and what it does not see: the bytes behind those that it takes.
use pai.Prelude.{
  ℕ, zero, suc, ◌≤◌, ◌<◌, ◌≡◌, refl, ap, Bool, true, false, some, [], ◌∷◌, ◌++◌, arith, length,
  get_or, take, length-append, length-take, take-append, drop-append, take-append-drop, Bytes,
}
use pai.Connections.Checksum.{checksum}
use pai.Connections.Serial.{
  min_length, potential_packet_length, Round, wait, deliver, skip, round, receive,
}

get_or-append : (xs ys : Bytes) (i d : ℕ) → i < length xs → get_or (xs ++ ys) i d ≡ get_or xs i d
get_or-append [] ys i d h = elim h [ ]
get_or-append (x ∷ xs) ys zero d h = refl
get_or-append (x ∷ xs) ys (suc i) d h = get_or-append xs ys i d (omega arith)

-- The announced length rests on the bytes that the loop has asked for.
pub potential_packet_length-append :
    (v : Bool) (xs ys : Bytes)
    → min_length v ≤ length xs
    → potential_packet_length v (xs ++ ys) ≡ potential_packet_length v xs
potential_packet_length-append false xs ys h = refl
potential_packet_length-append true xs ys h = rw (
  get_or-append xs ys 0 0 (omega arith),
  get_or-append xs ys 1 0 (omega arith),
  get_or-append xs ys 2 0 (omega arith),
)

-- A message passes the checksum test only if it is as long as the loop's minimum.
pub min_length-le :
    (v : Bool) (frame : Bytes)
    → checksum (some frame) (min_length v) ≡ true
    → min_length v ≤ length frame
unfolding checksum
min_length-le v frame h = ground arith

pub min_length-pos : (v : Bool) → 4 ≤ min_length v
min_length-pos true = omega arith
min_length-pos false = omega arith

-- What a round has found when it delivers.
pub record Delivered (v : Bool) (buffer frame rest : Bytes) : Type 0 where
  pub splits : buffer ≡ frame ++ rest
  pub announced : length frame ≡ potential_packet_length v buffer
  pub long_enough : min_length v ≤ length frame
  pub sums : checksum (some frame) (min_length v) ≡ true

pub round-deliver :
    (v : Bool) (buffer : Bytes) {frame rest : Bytes}
    → round v buffer ≡ deliver frame rest
    → Delivered v buffer frame rest
unfolding round
round-deliver v buffer h =
    let n = potential_packet_length v buffer in
    ground (arith, take-append-drop n buffer, length-take n buffer, min_length-le v (take n buffer))

-- What a round has found when it drops a byte.
pub record Skipped (v : Bool) (buffer rest : Bytes) : Type 0 where
  pub first : ℕ
  pub splits : buffer ≡ first ∷ rest
  pub enough : min_length v ≤ length buffer
  pub announced : potential_packet_length v buffer ≤ length buffer
  pub refused :
      checksum (some (take (potential_packet_length v buffer) buffer)) (min_length v) ≡ false

pub round-skip :
    (v : Bool) (buffer : Bytes) {rest : Bytes} → round v buffer ≡ skip rest → Skipped v buffer rest
unfolding round
round-skip true [] h = cc
round-skip false [] h = cc
round-skip v (c ∷ cs) h = record {
  first = c;
  splits = ground arith;
  enough = ground arith;
  announced = ground arith;
  refused = ground arith;
}

-- Both shorten the buffer.
pub round-deliver_shortens :
    (v : Bool) (buffer : Bytes) {frame rest : Bytes}
    → round v buffer ≡ deliver frame rest
    → length rest < length buffer
round-deliver_shortens v buffer {frame} {rest} h =
    let d = round-deliver v buffer h in
    omega (arith, ap length d.splits, length-append frame rest, d.long_enough, min_length-pos v)

pub round-skip_shortens :
    (v : Bool) (buffer : Bytes) {rest : Bytes}
    → round v buffer ≡ skip rest
    → length rest < length buffer
round-skip_shortens v buffer h = let s = round-skip v buffer h in omega (arith, ap length s.splits)

-- Bytes behind the buffer change nothing for a round that takes something off its front.
module _ (v : Bool) (buffer more : Bytes) where
  pub round-append_deliver :
      {frame rest : Bytes}
      → round v buffer ≡ deliver frame rest
      → round v (buffer ++ more) ≡ deliver frame (rest ++ more)
  unfolding round
  round-append_deliver h =
      let n = potential_packet_length v buffer in
      ground (
        arith,
        potential_packet_length-append v buffer more,
        length-append buffer more,
        take-append n buffer more,
        drop-append n buffer more,
        length-take n buffer,
      )

  pub round-append_skip :
      {rest : Bytes} → round v buffer ≡ skip rest → round v (buffer ++ more) ≡ skip (rest ++ more)
  unfolding round
  round-append_skip h =
      let n = potential_packet_length v buffer in
      ground (
        arith,
        potential_packet_length-append v buffer more,
        length-append buffer more,
        take-append n buffer more,
        drop-append 1 buffer more,
        min_length-pos v,
      )

-- `round` by cases, with the equation.
pub data RoundIs (r : Round) : Type 0 where
  waits : r ≡ wait → RoundIs r
  delivers : {frame rest : Bytes} → r ≡ deliver frame rest → RoundIs r
  skips : {rest : Bytes} → r ≡ skip rest → RoundIs r

pub Round-cases : (r : Round) → RoundIs r
Round-cases wait = waits refl
Round-cases (deliver frame rest) = delivers refl
Round-cases (skip rest) = skips refl

-- Fuel beyond the length of the buffer changes nothing.
pub receive_fuel :
    (f g : ℕ) (v : Bool) (buffer : Bytes)
    → length buffer < f
    → length buffer < g
    → receive f v buffer ≡ receive g v buffer
unfolding receive
receive_fuel zero g v buffer hf hg = elim hf [ ]
receive_fuel (suc f) zero v buffer hf hg = elim hg [ ]
receive_fuel (suc f) (suc g) v buffer hf hg = elim (Round-cases (round v buffer)) [
  | waits e ↦ rw (e, receive) refl
  | delivers {rest = rest} e ↦
      let h = round-deliver_shortens v buffer e in
      rw (e, receive) (rw (receive_fuel f g v rest (omega arith) (omega arith)) refl)
  | skips {rest = rest} e ↦
      let h = round-skip_shortens v buffer e in
      rw (e, receive) (receive_fuel f g v rest (omega arith) (omega arith))
]

-- With such fuel the loop ends by its own test: another round would wait.
pub receive_ends :
    (f : ℕ) (v : Bool) (buffer : Bytes) → length buffer < f → round v (receive f v buffer).0 ≡ wait
unfolding receive
receive_ends zero v buffer h = elim h [ ]
receive_ends (suc f) v buffer h = elim (Round-cases (round v buffer)) [
  | waits e ↦ rw (e, receive) e
  | delivers {rest = rest} e ↦
      let shorter = round-deliver_shortens v buffer e in
      rw (e, receive) (receive_ends f v rest (omega arith))
  | skips {rest = rest} e ↦
      let shorter = round-skip_shortens v buffer e in
      rw (e, receive) (receive_ends f v rest (omega arith))
]
