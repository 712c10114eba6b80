-- ===== src/Crypto/Keys.antt =====
-- `_keygen` of paradox/lib/crypto.py: the fifteen round keys of sixteen bytes. The decorator
-- `memoized` returns the value of an earlier call, which is the same.
pub mod Padding
pub mod Expansion
use Prim.Native.Nat.{bit_and}
use pai.Prelude.{
  ℕ, zero, suc, ◌+◌, ◌-◌, ◌*◌, ◌/◌, ◌%◌, Bool, Option, none, some, List, [], ◌∷◌, ◌++◌, length,
  get_or, set, replicate, ltb, ◌==◌, if◌then◌else◌, Bytes,
}
use pai.Prelude.Xor.{◌⊕◌}
use pai.Crypto.Tables.{s_box, rcon}
use pai.Crypto.Keys.Padding.{pad}

-- for x in xs: body
abbrev pub for_each {ℓ κ} : {A : Type ℓ} {S : Type κ} → List A → (A → S → S) → S → S
for_each [] body s = s
for_each (x ∷ xs) body s = for_each xs body (body x s)

abbrev pub four : List ℕ
four = 0 ∷ 1 ∷ 2 ∷ 3 ∷ []

-- for i, j, h in itertools.product(range(4), range(4), (0, 16)): the first 32 bytes
unfoldable pub load : Bytes → Bytes → Bytes
load k = for_each four λ i.
    for_each four
      λ j. for_each (0 ∷ 16 ∷ []) λ h rk. set rk (j * 4 + i + h) (get_or k (i * 4 + j + h) 0)

-- where byte `j` of word `i` stands: ((i & 0xFC) << 2) + (i & 0x03) + j * 4
unfoldable pub position : ℕ → ℕ → ℕ
position i j = bit_and i 0xFC * 4 + bit_and i 0x03 + j * 4

-- `temp`
pub record Word : Type 0 where
  pub t0 : ℕ
  pub t1 : ℕ
  pub t2 : ℕ
  pub t3 : ℕ

unfoldable pub read_word : Bytes → ℕ → Word
unfolding position
read_word rk i = record {
  t0 = get_or rk (position i 0) 0;
  t1 = get_or rk (position i 1) 0;
  t2 = get_or rk (position i 2) 0;
  t3 = get_or rk (position i 3) 0;
}

-- temp[j] = S[temp[j]]
unfoldable pub sub_word : Word → Word
sub_word w = record { t0 = s_box w.t0; t1 = s_box w.t1; t2 = s_box w.t2; t3 = s_box w.t3 }

-- the bytes move one place down, the first to the end
unfoldable pub rotate_word : Word → Word
rotate_word w = record { t0 = w.t1; t1 = w.t2; t2 = w.t3; t3 = w.t0 }

-- temp[0] ^= rcon[int(i / 8 - 1)]
unfoldable pub add_rcon : ℕ → Word → Word
add_rcon i w = record w { t0 = w.t0 ⊕ get_or rcon (i / 8 - 1) 0 }

unfoldable pub next_temp : ℕ → Word → Word
unfolding sub_word rotate_word add_rcon
next_temp i w =
    if i % 8 == 0
    then add_rcon i (rotate_word (sub_word w))
    else if i % 8 == 4
    then sub_word w
    else w

-- rk[position of i, j] = rk[position of i - 8, j] ^ temp[j]
unfoldable pub write_byte : ℕ → ℕ → ℕ → Bytes → Bytes
unfolding position
write_byte i j t rk = set rk (position i j) (get_or rk (position (i - 8) j) 0 ⊕ t)

unfoldable pub write_word : ℕ → Word → Bytes → Bytes
unfolding write_byte
write_word i temp rk =
    write_byte i 3 temp.t3
      (write_byte i 2 temp.t2 (write_byte i 1 temp.t1 (write_byte i 0 temp.t0 rk)))

unfoldable pub expand_one : ℕ → Bytes → Bytes
unfolding read_word next_temp write_word
expand_one i rk = write_word i (next_temp i (read_word rk (i - 1))) rk

-- for i in range(i, i + n)
unfoldable pub expand : ℕ → ℕ → Bytes → Bytes
unfolding expand_one
expand zero i rk = rk
expand (suc n) i rk = expand n (i + 1) (expand_one i rk)

-- `none` is the IndexError of a key too short to be read, which after the padding is the empty one
unfoldable pub keygen : Bytes → Option Bytes
keygen k =
    let padded = pad 32 k in
    if ltb (length padded) 32 then none else some (expand 52 8 (load padded (replicate 240 0)))
