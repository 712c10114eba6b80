-- ===== src/Panel/Adapters/Evo.antt =====
-- `DateAdapter` and `EventAdapter` of paradox/hardware/evo/adapters.py.
use Prim.Native.Nat.{bit_and, bit_or}
use pai.Prelude.{
  ℕ, ◌+◌, ◌*◌, ◌/◌, ◌%◌, ◌<◌, ◌≡◌, refl, Bool, true, false, ◌&&◌, Option, none, some, [], ◌∷◌, ◌==◌,
  ltb, if◌then◌else◌, arith, Bytes, all_below, all_below-elim,
}
use pai.Panel.Adapters.{DateTime}

-- `DateAdapter._decode` for fields of six bytes and of seven: none stands for its None. Whether
-- `datetime` takes the values is left to it.
unfoldable pub decode_date6 : ℕ → ℕ → ℕ → ℕ → ℕ → ℕ → Option DateTime
decode_date6 b0 b1 b2 b3 b4 b5 =
    if b2 == 0
    then none
    else some
        (record { year = b0 * 100 + b1; month = b2; day = b3; hour = b4; minute = b5; second = 0 })

unfoldable pub decode_date7 : ℕ → ℕ → ℕ → ℕ → ℕ → ℕ → ℕ → Option DateTime
decode_date7 b0 b1 b2 b3 b4 b5 b6 =
    if b2 == 0
    then none
    else some
        (record { year = b0 * 100 + b1; month = b2; day = b3; hour = b4; minute = b5; second = b6 })

unfoldable pub decode_date : Bytes → Option DateTime
decode_date (b0 ∷ b1 ∷ b2 ∷ b3 ∷ b4 ∷ b5 ∷ []) = decode_date6 b0 b1 b2 b3 b4 b5
decode_date (b0 ∷ b1 ∷ b2 ∷ b3 ∷ b4 ∷ b5 ∷ b6 ∷ bs) = decode_date7 b0 b1 b2 b3 b4 b5 b6
decode_date bs = none

-- `DateAdapter._encode`, for a field of seven bytes or of another length
unfoldable pub encode_date : Bool → DateTime → Bytes
encode_date seven d =
    d.year / 100
    ∷ d.year % 100
    ∷ d.month
    ∷ d.day
    ∷ d.hour
    ∷ d.minute
    ∷ (if seven then d.second ∷ [] else [])

-- A date is decoded from the seven bytes that it is encoded to; from six, it comes back with its
-- seconds at 0. The month is not 0, which stands for no date.
pub decode_date-encode_date :
    (d : DateTime)
    → 0 < d.month
    → (decode_date (encode_date true d) ≡ some d)
      × (decode_date (encode_date false d) ≡ some (record d { second = 0 }))
unfolding decode_date encode_date decode_date6 decode_date7
decode_date-encode_date d h = ground arith

-- an event of the panel
pub record PanelEvent : Type 0 where
  pub major : ℕ
  pub minor : ℕ
  pub minor2 : ℕ
  pub partition : ℕ

-- `EventAdapter._decode`: shifts by six, four and eight are divisions and multiplications by 64, 16
-- and 256
abbrev pub event_of : ℕ → ℕ → ℕ → ℕ → PanelEvent
event_of b0 b1 b2 b3 = record {
  major = b0;
  minor = b2 + b1 / 64 * 256;
  minor2 = b3 + bit_and (b1 / 16) 3 * 256;
  partition = bit_and b1 15;
}

-- none stands for an IndexError
unfoldable pub decode_event : Bytes → Option PanelEvent
decode_event (b0 ∷ b1 ∷ b2 ∷ b3 ∷ bs) = some (event_of b0 b1 b2 b3)
decode_event bs = none

abbrev pub every_byte : Bytes → Bool
every_byte [] = true
every_byte (b ∷ bs) = ltb b 256 && every_byte bs

-- the second byte: partition & 0x0F | (minor >> 8 & 3) << 6 | (minor2 >> 8 & 3) << 4
abbrev pub second_byte : ℕ → ℕ → ℕ → ℕ
second_byte partition high high2 =
    bit_or (bit_or (bit_and partition 15) (bit_and high 3 * 64)) (bit_and high2 3 * 16)

abbrev pub encoded : PanelEvent → Bytes
encoded e =
    e.major
    ∷ second_byte e.partition (e.minor / 256) (e.minor2 / 256)
    ∷ bit_and e.minor 255
    ∷ bit_and e.minor2 255
    ∷ []

-- bytes([..]): none stands for the ValueError of a number above 255
unfoldable pub to_bytes : Bytes → Option Bytes
to_bytes bs = if every_byte bs then some bs else none

-- `EventAdapter._encode`
unfoldable pub encode_event : PanelEvent → Option Bytes
encode_event e = to_bytes (encoded e)

-- the second byte read back, for each of its values
abbrev splits : ℕ → Bool
splits x =
    let b = second_byte (x % 16) (x / 64) (x / 16 % 4) in
    ltb b 256
    && (b / 64 == x / 64)
    && (bit_and (b / 16) 3 == x / 16 % 4)
    && (bit_and b 15 == x % 16)
    && (b == x)

splits_table : all_below 256 splits ≡ true
unfolding all_below
splits_table = refl

low_byte_table : all_below 1024 (λ n. bit_and n 255 == n % 256) ≡ true
unfolding all_below
low_byte_table = refl

low_nibbles_table :
    all_below 256 (λ b. (bit_and b 15 == b % 16) && (bit_and (b / 16) 3 == b / 16 % 4)) ≡ true
unfolding all_below
low_nibbles_table = refl

second_byte-splits :
    (p h h2 : ℕ)
    → p < 16
    → h < 4
    → h2 < 4
    → (ltb (second_byte p h h2) 256 ≡ true)
      × (second_byte p h h2 / 64 ≡ h)
      × (bit_and (second_byte p h h2 / 16) 3 ≡ h2)
      × (bit_and (second_byte p h h2) 15 ≡ p)
second_byte-splits p h h2 a b c =
    let x = p + h2 * 16 + h * 64 in
    let px : x % 16 ≡ p = omega (arith, a) in
    let hx : x / 64 ≡ h = omega (arith, a, b, c) in
    let h2x : x / 16 % 4 ≡ h2 = omega (arith, a, c) in
    let t = all_below-elim 256 splits x splits_table (omega (arith, a, b, c)) in
    ground (arith, t, px, hx, h2x)

-- An event whose numbers fit their fields (a byte, ten bits twice, four bits) can be encoded, and it
-- is decoded from the bytes.
pub decode_event-encode_event :
    (e : PanelEvent)
    → e.major < 256
    → e.minor < 1024
    → e.minor2 < 1024
    → e.partition < 16
    → (bs : Bytes) × (encode_event e ≡ some bs) × (decode_event bs ≡ some e)
unfolding decode_event encode_event to_bytes
decode_event-encode_event e j m m2 p =
    let s =
      second_byte-splits e.partition (e.minor / 256) (e.minor2 / 256) p (omega (arith, m))
        (omega (arith, m2)) in
    let l = all_below-elim 1024 (λ n. bit_and n 255 == n % 256) e.minor low_byte_table m in
    let l2 = all_below-elim 1024 (λ n. bit_and n 255 == n % 256) e.minor2 low_byte_table m2 in
    (encoded e, ground (arith, j, s, l, l2), ground (arith, s, l, l2))

-- A major code above 255 cannot be encoded.
pub encode_event_raises : (e : PanelEvent) → 255 < e.major → encode_event e ≡ none
unfolding encode_event to_bytes
encode_event_raises e h = ground (arith, h)
