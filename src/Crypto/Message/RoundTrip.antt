-- ===== src/Crypto/Message/RoundTrip.antt =====
-- What is encrypted and decrypted with one key is the message, padded.
use pai.Prelude.{
  ℕ, zero, suc, ◌*◌, ◌/◌, ◌<◌, ◌≡◌, refl, ap, ◌∙◌, some, [], ◌∷◌, ◌++◌, arith, length, length-take,
  length-drop, take, drop, take-append-drop, get_or-lt, IsBytes, All-take, All-drop, Bytes,
}
use pai.Crypto.Cipher.{Block, encrypt_block, decrypt_block}
use pai.Crypto.Cipher.Steps.{IsByteBlock}
use pai.Crypto.Cipher.Rounds.{decrypt_block-encrypt_block}
use pai.Crypto.Keys.Padding.{pad, pad-IsBytes, length-pad, take-pad}
use pai.Crypto.Keys.Expansion.{keygen-IsBytes}
use pai.Crypto.Message.{to_block, from_block, each_block, encrypt, decrypt}

from_block-to_block : (xs : Bytes) → length xs ≡ 16 → from_block (to_block xs) ≡ xs
unfolding from_block to_block
from_block-to_block [] h = absurd (omega arith)
from_block-to_block (x0 ∷ []) h = absurd (omega arith)
from_block-to_block (x0 ∷ x1 ∷ []) h = absurd (omega arith)
from_block-to_block (x0 ∷ x1 ∷ x2 ∷ []) h = absurd (omega arith)
from_block-to_block (x0 ∷ x1 ∷ x2 ∷ x3 ∷ []) h = absurd (omega arith)
from_block-to_block (x0 ∷ x1 ∷ x2 ∷ x3 ∷ x4 ∷ []) h = absurd (omega arith)
from_block-to_block (x0 ∷ x1 ∷ x2 ∷ x3 ∷ x4 ∷ x5 ∷ []) h = absurd (omega arith)
from_block-to_block (x0 ∷ x1 ∷ x2 ∷ x3 ∷ x4 ∷ x5 ∷ x6 ∷ []) h = absurd (omega arith)
from_block-to_block (x0 ∷ x1 ∷ x2 ∷ x3 ∷ x4 ∷ x5 ∷ x6 ∷ x7 ∷ []) h = absurd (omega arith)
from_block-to_block (x0 ∷ x1 ∷ x2 ∷ x3 ∷ x4 ∷ x5 ∷ x6 ∷ x7 ∷ x8 ∷ []) h = absurd (omega arith)
from_block-to_block (x0 ∷ x1 ∷ x2 ∷ x3 ∷ x4 ∷ x5 ∷ x6 ∷ x7 ∷ x8 ∷ x9 ∷ []) h = absurd (omega arith)
from_block-to_block (x0 ∷ x1 ∷ x2 ∷ x3 ∷ x4 ∷ x5 ∷ x6 ∷ x7 ∷ x8 ∷ x9 ∷ x10 ∷ []) h =
    absurd (omega arith)
from_block-to_block (x0 ∷ x1 ∷ x2 ∷ x3 ∷ x4 ∷ x5 ∷ x6 ∷ x7 ∷ x8 ∷ x9 ∷ x10 ∷ x11 ∷ []) h =
    absurd (omega arith)
from_block-to_block (x0 ∷ x1 ∷ x2 ∷ x3 ∷ x4 ∷ x5 ∷ x6 ∷ x7 ∷ x8 ∷ x9 ∷ x10 ∷ x11 ∷ x12 ∷ []) h =
    absurd (omega arith)
from_block-to_block (x0 ∷ x1 ∷ x2 ∷ x3 ∷ x4 ∷ x5 ∷ x6 ∷ x7 ∷ x8 ∷ x9 ∷ x10 ∷ x11 ∷ x12 ∷ x13 ∷ [])
      h =
    absurd (omega arith)
from_block-to_block
      (x0 ∷ x1 ∷ x2 ∷ x3 ∷ x4 ∷ x5 ∷ x6 ∷ x7 ∷ x8 ∷ x9 ∷ x10 ∷ x11 ∷ x12 ∷ x13 ∷ x14 ∷ []) h =
    absurd (omega arith)
from_block-to_block
      (x0 ∷ x1 ∷ x2 ∷ x3 ∷ x4 ∷ x5 ∷ x6 ∷ x7 ∷ x8 ∷ x9 ∷ x10 ∷ x11 ∷ x12 ∷ x13 ∷ x14 ∷ x15 ∷ []) h =
    refl
from_block-to_block
      (x0 ∷ x1 ∷ x2 ∷ x3 ∷ x4 ∷ x5 ∷ x6 ∷ x7 ∷ x8 ∷ x9 ∷ x10 ∷ x11 ∷ x12 ∷ x13 ∷ x14 ∷ x15 ∷ y ∷ ys)
      h =
    absurd (omega arith)

to_block-IsByteBlock : (xs : Bytes) → IsBytes xs → IsByteBlock (to_block xs)
unfolding to_block
to_block-IsByteBlock xs h = record {
  c0 = record {
    b0 = get_or-lt xs 0 h;
    b1 = get_or-lt xs 4 h;
    b2 = get_or-lt xs 8 h;
    b3 = get_or-lt xs 12 h;
  };
  c1 = record {
    b0 = get_or-lt xs 1 h;
    b1 = get_or-lt xs 5 h;
    b2 = get_or-lt xs 9 h;
    b3 = get_or-lt xs 13 h;
  };
  c2 = record {
    b0 = get_or-lt xs 2 h;
    b1 = get_or-lt xs 6 h;
    b2 = get_or-lt xs 10 h;
    b3 = get_or-lt xs 14 h;
  };
  c3 = record {
    b0 = get_or-lt xs 3 h;
    b1 = get_or-lt xs 7 h;
    b2 = get_or-lt xs 11 h;
    b3 = get_or-lt xs 15 h;
  };
}

to_block-from_block : (a : Block) (rest : Bytes) → to_block (take 16 (from_block a ++ rest)) ≡ a
unfolding to_block from_block
to_block-from_block a rest = refl

drop-from_block : (a : Block) (rest : Bytes) → drop 16 (from_block a ++ rest) ≡ rest
unfolding from_block
drop-from_block a rest = refl

length-each_block : (f : Block → Block) (n : ℕ) (xs : Bytes) → length (each_block f n xs) ≡ n * 16
unfolding each_block from_block
length-each_block f zero xs = omega arith
length-each_block f (suc n) xs = omega (arith, length-each_block f n (drop 16 xs))

module _ (rk : Bytes) (bytes : IsBytes rk) where
  each_block-each_block :
      (n : ℕ) (xs : Bytes)
      → IsBytes xs
      → length xs ≡ n * 16
      → each_block (decrypt_block rk) n (each_block (encrypt_block rk) n xs) ≡ xs
  unfolding each_block
  each_block-each_block zero [] h e = refl
  each_block-each_block zero (x ∷ xs) h e = absurd (omega arith)
  each_block-each_block (suc n) xs h e =
      let first = take 16 xs in
      let done = encrypt_block rk (to_block first) in
      let later = each_block (encrypt_block rk) n (drop 16 xs) in
      let ih =
        each_block-each_block n (drop 16 xs) (All-drop (λ c. c < 256) 16 xs h)
          (omega (arith, length-drop 16 xs)) in
      ap
        (λ b.
          from_block (decrypt_block rk b)
          ++ each_block (decrypt_block rk) n (drop 16 (from_block done ++ later)))
        (to_block-from_block done later)
      ∙ ap (λ r. from_block (decrypt_block rk done) ++ each_block (decrypt_block rk) n r)
          (drop-from_block done later)
      ∙ ap (λ b. from_block b ++ each_block (decrypt_block rk) n later)
          (decrypt_block-encrypt_block rk bytes (to_block first)
            (to_block-IsByteBlock first (All-take (λ c. c < 256) 16 xs h)))
      ∙ ap (λ r. from_block (to_block first) ++ r) ih
      ∙ ap (λ r. r ++ drop 16 xs) (from_block-to_block first (omega (arith, length-take 16 xs)))
      ∙ take-append-drop 16 xs

-- Under every key of bytes but the empty one, a message of bytes is encrypted to whole blocks, as
-- long as its padding, and decrypting these under the same key gives the padded message, which
-- begins with the message itself.
pub decrypt-encrypt :
    (message key : Bytes)
    → IsBytes message
    → IsBytes key
    → 0 < length key
    → (secret : Bytes) × (encrypt message key ≡ some secret)
      × (length secret ≡ length (pad 16 message))
      × (decrypt secret key ≡ some (pad 16 message))
      × (take (length message) (pad 16 message) ≡ message)
unfolding encrypt decrypt
decrypt-encrypt message key hm hk pos =
    let (rk, found, bytes) = keygen-IsBytes key hk pos in
    let padded = pad 16 message in
    let n = length padded / 16 in
    let secret = each_block (encrypt_block rk) n padded in
    let whole : length padded ≡ n * 16 = omega (arith, length-pad message) in
    let sized : length secret ≡ n * 16 = length-each_block (encrypt_block rk) n padded in
    let blocks : length secret / 16 ≡ n = omega arith in
    let back = each_block-each_block rk bytes n padded (pad-IsBytes 16 message hm) whole in
    (
      secret,
      rw (found, encrypt) refl,
      omega arith,
      rw (found, decrypt)
          (ap (λ k. some (each_block (decrypt_block rk) k secret)) blocks ∙ ap some back),
      take-pad 16 message,
    )
