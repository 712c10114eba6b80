-- ===== src/Crypto/Keys/Expansion.antt =====
-- The round keys are bytes, and every key but the empty one has them.
use pai.Prelude.{
  ℕ, zero, suc, ◌+◌, ◌-◌, ◌*◌, ◌/◌, ◌<◌, ◌≡◌, some, List, [], ◌∷◌, arith, length, get_or, get_or-lt,
  replicate, All-set, All-replicate, IsBytes, Bytes,
}
use pai.Prelude.Xor.{◌⊕◌, bit_xor-byte}
use pai.Crypto.Tables.{s_box, s_table, rcon}
use pai.Crypto.Keys.{
  for_each, four, load, position, Word, read_word, next_temp, write_byte, write_word, expand_one,
  expand, keygen,
}
use pai.Crypto.Keys.Padding.{pad, pad-IsBytes, pad-key}

for_each-keeps {ℓ κ} :
    {A : Type ℓ} {S : Type κ} (P : S → Type κ) (body : A → S → S)
    → ((x : A) (s : S) → P s → P (body x s))
    → (xs : List A) (s : S) → P s
    → P (for_each xs body s)
for_each-keeps P body keep [] s h = h
for_each-keeps P body keep (x ∷ xs) s h = for_each-keeps P body keep xs (body x s) (keep x s h)

load-IsBytes : (k rk : Bytes) → IsBytes k → IsBytes rk → IsBytes (load k rk)
unfolding load
load-IsBytes k rk hk h =
    for_each-keeps IsBytes _
      (λ i.
        for_each-keeps IsBytes _
          (λ j.
            for_each-keeps IsBytes _
              (λ x s p.
                All-set (λ c. c < 256) s (j * 4 + i + x) (get_or k (i * 4 + j + x) 0) p
                  (get_or-lt k (i * 4 + j + x) hk))
              (0 ∷ 16 ∷ []))
          four)
      four rk h

record IsByteWord (w : Word) : Type 0 where
  b0 : w.t0 < 256
  b1 : w.t1 < 256
  b2 : w.t2 < 256
  b3 : w.t3 < 256

s_box-byte : (x : ℕ) → s_box x < 256
unfolding s_box
s_box-byte x = get_or-lt s_table x (omega arith)

rcon-byte : (i : ℕ) → get_or rcon i 0 < 256
rcon-byte i = get_or-lt rcon i (omega arith)

read_word-IsByteWord : (rk : Bytes) (i : ℕ) → IsBytes rk → IsByteWord (read_word rk i)
unfolding read_word
read_word-IsByteWord rk i h = record {
  b0 = get_or-lt rk (position i 0) h;
  b1 = get_or-lt rk (position i 1) h;
  b2 = get_or-lt rk (position i 2) h;
  b3 = get_or-lt rk (position i 3) h;
}

next_temp-IsByteWord : (i : ℕ) (w : Word) → IsByteWord w → IsByteWord (next_temp i w)
unfolding next_temp
next_temp-IsByteWord i w h = ground (
  arith,
  s_box-byte w.t0,
  s_box-byte w.t1,
  s_box-byte w.t2,
  s_box-byte w.t3,
  bit_xor-byte (s_box w.t1) (get_or rcon (i / 8 - 1) 0) (s_box-byte w.t1) (rcon-byte (i / 8 - 1)),
)

write_byte-IsBytes : (i j t : ℕ) (rk : Bytes) → t < 256 → IsBytes rk → IsBytes (write_byte i j t rk)
unfolding write_byte
write_byte-IsBytes i j t rk ht h =
    All-set (λ c. c < 256) rk (position i j) (get_or rk (position (i - 8) j) 0 ⊕ t) h
      (bit_xor-byte (get_or rk (position (i - 8) j) 0) t (get_or-lt rk (position (i - 8) j) h) ht)

write_word-IsBytes :
    (i : ℕ) (w : Word) (rk : Bytes) → IsByteWord w → IsBytes rk → IsBytes (write_word i w rk)
unfolding write_word
write_word-IsBytes i w rk hw h = write_byte-IsBytes i 3 w.t3 _ hw.b3 (
    write_byte-IsBytes i 2 w.t2 _ hw.b2
      (write_byte-IsBytes i 1 w.t1 _ hw.b1 (write_byte-IsBytes i 0 w.t0 rk hw.b0 h)))

expand_one-IsBytes : (i : ℕ) (rk : Bytes) → IsBytes rk → IsBytes (expand_one i rk)
unfolding expand_one
expand_one-IsBytes i rk h =
    write_word-IsBytes i (next_temp i (read_word rk (i - 1))) rk
      (next_temp-IsByteWord i (read_word rk (i - 1)) (read_word-IsByteWord rk (i - 1) h)) h

expand-IsBytes : (n i : ℕ) (rk : Bytes) → IsBytes rk → IsBytes (expand n i rk)
unfolding expand
expand-IsBytes zero i rk h = h
expand-IsBytes (suc n) i rk h =
    expand-IsBytes n (i + 1) (expand_one i rk) (expand_one-IsBytes i rk h)

-- Every key of bytes but the empty one gives round keys, and they are bytes.
pub keygen-IsBytes :
    (k : Bytes) → IsBytes k → 0 < length k → (rk : Bytes) × (keygen k ≡ some rk) × IsBytes rk
unfolding keygen
keygen-IsBytes k h pos = (
  expand 52 8 (load (pad 32 k) (replicate 240 0)),
  ground (arith, pad-key k pos),
  expand-IsBytes 52 8 _ (
      load-IsBytes (pad 32 k) (replicate 240 0) (pad-IsBytes 32 k h)
        (All-replicate (λ c. c < 256) 240 0 (omega arith))),
)
