-- ===== src/Connections/Checksum.antt =====
-- The one-byte checksum: `checksum` of paradox/connections/protocols.py, and `calculate_checksum`
-- of paradox/hardware/common.py, which the packet formats use.
use pai.Prelude.{
  ℕ, ◌+◌, ◌%◌, ◌≤◌, ◌<◌, ◌≡◌, ◌≢◌, refl, ◌∙◌, Bool, true, false, Option, none, some, [], ◌∷◌, ◌++◌,
  arith, length, length-append, ltb, leb, ◌==◌, if◌then◌else◌, Bytes,
}

-- for c in message: r += c
pub add_up : ℕ → Bytes → ℕ
add_up r [] = r
add_up r (c ∷ cs) = add_up (r + c) cs

unfoldable pub calculate_checksum : Bytes → Bytes
unfolding add_up
calculate_checksum message = add_up 0 message % 256 ∷ []

-- data[:-1]
unfoldable pub but_last : Bytes → Bytes
but_last [] = []
but_last (x ∷ []) = []
but_last (x ∷ y ∷ r) = x ∷ but_last (y ∷ r)

-- data[-1]; 0 stands for the IndexError of an empty `data`, which no caller's minimum admits
unfoldable pub last : Bytes → ℕ
last [] = 0
last (x ∷ []) = x
last (x ∷ y ∷ r) = last (y ∷ r)

unfoldable pub checksum : Option Bytes → ℕ → Bool
unfolding add_up but_last last
checksum none min_message_length = false
checksum (some message) min_message_length =
    if ltb (length message) min_message_length
    then false
    else add_up 0 (but_last message) % 256 == last message

but_last-concat : (xs : Bytes) (c : ℕ) → but_last (xs ++ c ∷ []) ≡ xs
unfolding but_last
but_last-concat [] c = refl
but_last-concat (x ∷ []) c = refl
but_last-concat (x ∷ y ∷ r) c = λ i. x ∷ but_last-concat (y ∷ r) c i

last-concat : (xs : Bytes) (c : ℕ) → last (xs ++ c ∷ []) ≡ c
unfolding last
last-concat [] c = refl
last-concat (x ∷ []) c = refl
last-concat (x ∷ y ∷ r) c = last-concat (y ∷ r) c

add_up-add : (r : ℕ) (xs : Bytes) → add_up r xs ≡ r + add_up 0 xs
unfolding add_up
add_up-add r [] = omega arith
add_up-add r (c ∷ cs) = omega (arith, add_up-add (r + c) cs, add_up-add (0 + c) cs)

add_up-append : (r : ℕ) (xs ys : Bytes) → add_up r (xs ++ ys) ≡ add_up (add_up r xs) ys
unfolding add_up
add_up-append r [] ys = refl
add_up-append r (x ∷ xs) ys = add_up-append (r + x) xs ys

-- The sum around one byte.
add_up-middle :
    (xs : Bytes) (a : ℕ) (ys : Bytes) → add_up 0 (xs ++ a ∷ ys) ≡ add_up 0 xs + a + add_up 0 ys
unfolding add_up
add_up-middle xs a ys = add_up-append 0 xs (a ∷ ys) ∙ add_up-add (add_up 0 xs + a) ys

-- The receiver's test on a message with its last byte told apart.
pub checksum-concat :
    (xs : Bytes) (c min_length : ℕ)
    → checksum (some (xs ++ c ∷ [])) min_length
      ≡ (if ltb (length xs + 1) min_length then false else add_up 0 xs % 256 == c)
unfolding checksum
checksum-concat xs c min_length =
    ground (arith, but_last-concat xs c, last-concat xs c, length-append xs (c ∷ []))

-- A message with the checksum that the packet formats append passes the receiver's test exactly
-- when it is long enough.
pub checksum-calculate_checksum :
    (message : Bytes) (min_length : ℕ)
    → checksum (some (message ++ calculate_checksum message)) min_length
      ≡ leb min_length (length message + 1)
unfolding calculate_checksum
checksum-calculate_checksum message min_length =
    ground (arith, checksum-concat message (add_up 0 message % 256) min_length)

-- If a message passes the test, the message with any one byte before the checksum changed to
-- another byte value is refused.
pub checksum_detects :
    (xs : Bytes) (a b : ℕ) (ys : Bytes) (c min_length : ℕ)
    → a < 256
    → b < 256
    → a ≢ b
    → checksum (some ((xs ++ a ∷ ys) ++ c ∷ [])) min_length ≡ true
    → checksum (some ((xs ++ b ∷ ys) ++ c ∷ [])) min_length ≡ false
checksum_detects xs a b ys c min_length ha hb ne h = ground (
  arith,
  checksum-concat (xs ++ a ∷ ys) c min_length,
  checksum-concat (xs ++ b ∷ ys) c min_length,
  add_up-middle xs a ys,
  add_up-middle xs b ys,
)

but_last-append-last : (xs : Bytes) → xs ≢ [] → but_last xs ++ last xs ∷ [] ≡ xs
unfolding but_last last
but_last-append-last [] ne = absurd (ne refl)
but_last-append-last (x ∷ []) ne = refl
but_last-append-last (x ∷ y ∷ r) ne = λ i. x ∷ but_last-append-last (y ∷ r) (λ e. cc) i

-- Conversely, what passes the test is a body and its checksum.
pub checksum-split :
    (frame : Bytes) (min_length : ℕ)
    → checksum (some frame) min_length ≡ true
    → 0 < min_length
    → (frame ≡ but_last frame ++ calculate_checksum (but_last frame)) × (min_length ≤ length frame)
unfolding checksum calculate_checksum
checksum-split [] min_length h pos = ground arith
checksum-split (x ∷ r) min_length h pos = ground (arith, but_last-append-last (x ∷ r) (λ e. cc))
