-- ===== src/Crypto/Cipher/Rounds.antt =====
-- A block that is encrypted and decrypted with the same round keys is the block of before.
use pai.Prelude.{ℕ, zero, suc, ◌+◌, ◌≡◌, refl, arith, IsBytes, Bytes}
use pai.Crypto.Cipher.{
  Block, rounds, round_key, add_key, sub_bytes, shift_row, mix_column, encrypt_round,
  encrypt_rounds, encrypt_block, decrypt_round, decrypt_rounds, decrypt_block,
}
use pai.Crypto.Cipher.Steps.{
  IsByteBlock, add_key_twice, unshift_unsub, shifted-IsByteBlock, inv_mix_column-mix_column,
  mix_column-IsByteBlock, add_key-IsByteBlock, round_key-IsByteBlock,
}

module _ (rk : Bytes) where
  decrypt_round-encrypt_round :
      (r : ℕ) (a : Block) → IsByteBlock a → decrypt_round rk r (encrypt_round rk r a) ≡ a
  unfolding decrypt_round encrypt_round
  decrypt_round-encrypt_round r a p =
      let shifted = shift_row (sub_bytes a) in
      rw (add_key_twice (mix_column shifted) (round_key rk r))
        (rw (inv_mix_column-mix_column shifted (shifted-IsByteBlock a)) (unshift_unsub a p))

  encrypt_rounds-snoc :
      (n r : ℕ) (a : Block)
      → encrypt_rounds rk (suc n) r a ≡ encrypt_round rk (r + n) (encrypt_rounds rk n r a)
  unfolding encrypt_rounds
  encrypt_rounds-snoc zero r a = let e : r + 0 ≡ r = omega arith in rw e refl
  encrypt_rounds-snoc (suc n) r a =
      let e : r + suc n ≡ (r + 1) + n = omega arith in
      rw e (encrypt_rounds-snoc n (r + 1) (encrypt_round rk r a))

  module _ (bytes : IsBytes rk) where
    encrypt_round-IsByteBlock : (r : ℕ) (a : Block) → IsByteBlock (encrypt_round rk r a)
    unfolding encrypt_round
    encrypt_round-IsByteBlock r a =
        add_key-IsByteBlock _ _ (mix_column-IsByteBlock _ (shifted-IsByteBlock a))
          (round_key-IsByteBlock rk r bytes)

    encrypt_rounds-IsByteBlock :
        (n r : ℕ) (a : Block) → IsByteBlock a → IsByteBlock (encrypt_rounds rk n r a)
    unfolding encrypt_rounds
    encrypt_rounds-IsByteBlock zero r a p = p
    encrypt_rounds-IsByteBlock (suc n) r a p =
        encrypt_rounds-IsByteBlock n (r + 1) (encrypt_round rk r a) (encrypt_round-IsByteBlock r a)

    decrypt_rounds-encrypt_rounds :
        (n : ℕ) (a : Block) → IsByteBlock a → decrypt_rounds rk n (encrypt_rounds rk n 1 a) ≡ a
    unfolding decrypt_rounds
    decrypt_rounds-encrypt_rounds zero a p = unfold encrypt_rounds in refl
    decrypt_rounds-encrypt_rounds (suc n) a p =
        let e : 1 + n ≡ suc n = omega arith in
        rw (encrypt_rounds-snoc n 1 a) (
          rw e (
            rw
              (decrypt_round-encrypt_round (suc n) (encrypt_rounds rk n 1 a)
                (encrypt_rounds-IsByteBlock n 1 a p))
              (decrypt_rounds-encrypt_rounds n a p)))

    -- With round keys that are bytes, decrypting an encrypted block of bytes gives the block back.
    pub decrypt_block-encrypt_block :
        (a : Block) → IsByteBlock a → decrypt_block rk (encrypt_block rk a) ≡ a
    unfolding decrypt_block encrypt_block
    decrypt_block-encrypt_block a p =
        let start = add_key a (round_key rk 0) in
        let start_bytes =
          add_key-IsByteBlock a (round_key rk 0) p (round_key-IsByteBlock rk 0 bytes) in
        let last = encrypt_rounds rk 13 1 start in
        rw (add_key_twice (shift_row (sub_bytes last)) (round_key rk rounds)) (
          rw (unshift_unsub last (encrypt_rounds-IsByteBlock 13 1 start start_bytes)) (
            rw (decrypt_rounds-encrypt_rounds 13 start start_bytes)
              (add_key_twice a (round_key rk 0))))
