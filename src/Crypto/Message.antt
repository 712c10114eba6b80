-- ===== src/Crypto/Message.antt =====
-- `encrypt` and `decrypt` of paradox/lib/crypto.py on whole messages.
pub mod RoundTrip
use pai.Prelude.{
  ℕ, zero, suc, ◌/◌, Option, none, some, List, [], ◌∷◌, ◌++◌, length, take, drop, get_or, Bytes,
}
use pai.Crypto.Cipher.{Block, encrypt_block, decrypt_block}
use pai.Crypto.Keys.{keygen}
use pai.Crypto.Keys.Padding.{pad}

-- a = ctxt[i * 16 : (i + 1) * 16]
unfoldable pub to_block : Bytes → Block
to_block xs = record {
  a0 = get_or xs 0 0;
  a1 = get_or xs 1 0;
  a2 = get_or xs 2 0;
  a3 = get_or xs 3 0;
  a4 = get_or xs 4 0;
  a5 = get_or xs 5 0;
  a6 = get_or xs 6 0;
  a7 = get_or xs 7 0;
  a8 = get_or xs 8 0;
  a9 = get_or xs 9 0;
  a10 = get_or xs 10 0;
  a11 = get_or xs 11 0;
  a12 = get_or xs 12 0;
  a13 = get_or xs 13 0;
  a14 = get_or xs 14 0;
  a15 = get_or xs 15 0;
}

unfoldable pub from_block : Block → Bytes
from_block a =
    a.a0 ∷ a.a1 ∷ a.a2 ∷ a.a3 ∷ a.a4 ∷ a.a5 ∷ a.a6 ∷ a.a7 ∷ a.a8 ∷ a.a9 ∷ a.a10 ∷ a.a11 ∷ a.a12
    ∷ a.a13 ∷ a.a14 ∷ a.a15 ∷ []

-- for i in range(blocks): the next sixteen bytes in each round
unfoldable pub each_block : (Block → Block) → ℕ → Bytes → Bytes
unfolding to_block from_block
each_block f zero xs = []
each_block f (suc blocks) xs =
    from_block (f (to_block (take 16 xs))) ++ each_block f blocks (drop 16 xs)

-- `none` is the IndexError of an empty key
unfoldable pub encrypt : Bytes → Bytes → Option Bytes
unfolding each_block
encrypt ctxt key =
    let padded = pad 16 ctxt in
    elim (keygen key) [
      | none ↦ none
      | some rk ↦ some (each_block (encrypt_block rk) (length padded / 16) padded)
    ]

unfoldable pub decrypt : Bytes → Bytes → Option Bytes
unfolding each_block
decrypt ctxt key = elim (keygen key) [
  | none ↦ none
  | some rk ↦ some (each_block (decrypt_block rk) (length ctxt / 16) ctxt)
]
