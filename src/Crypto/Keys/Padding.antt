-- ===== src/Crypto/Keys/Padding.antt =====
-- The padding with 0xEE that keys and messages get in paradox/lib/crypto.py.
use pai.Prelude.{
  ℕ, ◌-◌, ◌%◌, ◌<◌, ◌≤◌, ◌≡◌, ◌++◌, arith, length, length-append, length-replicate, replicate, take,
  take_left, take_all, ◌==◌, if◌then◌else◌, All-append, All-replicate, IsBytes, Bytes,
}

-- if len(k) % n: k += b'\xee' * (n - (len(k) % n))
unfoldable pub pad : ℕ → Bytes → Bytes
pad n k = if length k % n == 0 then k else k ++ replicate (n - length k % n) 0xEE

pub pad-IsBytes : (n : ℕ) (k : Bytes) → IsBytes k → IsBytes (pad n k)
unfolding pad
pad-IsBytes n k h = ground (
  arith,
  All-append (λ c. c < 256) k (replicate (n - length k % n) 0xEE) h
      (All-replicate (λ c. c < 256) (n - length k % n) 0xEE (omega arith)),
)

-- The padded text is a number of whole blocks of sixteen bytes.
pub length-pad : (k : Bytes) → length (pad 16 k) % 16 ≡ 0
unfolding pad
length-pad k = ground (
  arith,
  length-append k (replicate (16 - length k % 16) 0xEE),
  length-replicate {A = ℕ} (16 - length k % 16) 0xEE,
)

-- The text is what its padding begins with.
pub take-pad : (n : ℕ) (k : Bytes) → take (length k) (pad n k) ≡ k
unfolding pad
take-pad n k = ground (arith, take_left k (replicate (n - length k % n) 0xEE), take_all k)

pub pad-key : (k : Bytes) → 0 < length k → 32 ≤ length (pad 32 k)
unfolding pad
pad-key k h = ground (
  arith,
  length-append k (replicate (32 - length k % 32) 0xEE),
  length-replicate {A = ℕ} (32 - length k % 32) 0xEE,
)
