-- ===== src/Crypto/Tests.antt =====
-- The cipher at the vectors of tests/lib/test_crypto.py, and its theorems at concrete inputs.
use Prim.Native.Char.{code}
use pai.Prelude.{◌≡◌, refl, some, [], ◌∷◌, ◌++◌, String, arith, length, take, IsBytes, Bytes}
use pai.Crypto.Tables.{s_box, si_box, xtime, e_table, b_table, d_table, nine_table}
use pai.Crypto.Cipher.Columns.{inv_mix_one-mix_one}
use pai.Crypto.Cipher.{
  mix_one, inv_mix_one, round_key, add_key, sub_bytes, inv_sub_bytes, shift_row, inv_shift_row,
  mix_column, inv_mix_column, encrypt_round, encrypt_rounds, encrypt_block, decrypt_round,
  decrypt_rounds, decrypt_block,
}
use pai.Crypto.Keys.{keygen, load, expand}
use pai.Crypto.Keys.Padding.{pad}
use pai.Crypto.Keys.Expansion.{keygen-IsBytes}
use pai.Crypto.Message.{encrypt, decrypt}
use pai.Crypto.Message.RoundTrip.{decrypt-encrypt}

abbrev codes : String → Bytes
codes String.[] = []
codes (String.◌∷◌ c s) = code c ∷ codes s

abbrev password : Bytes
password = codes "test123456"

abbrev dec_text : Bytes
dec_text = codes "Very hard text to be encrypted"

abbrev enc_text : Bytes
enc_text =
    0xe2 ∷ 0x14 ∷ 0x53 ∷ 0x8e ∷ 0x57 ∷ 0x60 ∷ 0x76 ∷ 0xaa ∷ 0x61 ∷ 0xc5 ∷ 0x3d ∷ 0xfe ∷ 0x90 ∷ 0x94
    ∷ 0xf2 ∷ 0x97 ∷ 0xf0 ∷ 0x1f ∷ 0x19 ∷ 0x49 ∷ 0xf1 ∷ 0xa7 ∷ 0x22 ∷ 0x68 ∷ 0xe5 ∷ 0x2a ∷ 0xe8
    ∷ 0x01 ∷ 0xd4 ∷ 0xdc ∷ 0x7a ∷ 0x6b ∷ []

test_encrypt : encrypt dec_text password ≡ some enc_text
unfolding encrypt keygen pad load expand s_box xtime encrypt_block encrypt_rounds encrypt_round
    round_key add_key mix_column shift_row sub_bytes
test_encrypt = refl

test_decrypt : decrypt enc_text password ≡ some (dec_text ++ 0xEE ∷ 0xEE ∷ [])
unfolding decrypt keygen pad load expand s_box si_box e_table b_table d_table nine_table
    decrypt_block decrypt_rounds decrypt_round round_key add_key inv_mix_column inv_shift_row
    inv_sub_bytes
test_decrypt = refl

keygen-IsBytes_example : (rk : Bytes) × (keygen password ≡ some rk) × IsBytes rk
keygen-IsBytes_example = keygen-IsBytes password (omega arith) (omega arith)

decrypt-encrypt_example :
    (secret : Bytes) × (encrypt dec_text password ≡ some secret)
    × (length secret ≡ length (pad 16 dec_text))
    × (decrypt secret password ≡ some (pad 16 dec_text))
    × (take (length dec_text) (pad 16 dec_text) ≡ dec_text)
decrypt-encrypt_example =
    decrypt-encrypt dec_text password (omega arith) (omega arith) (omega arith)

inv_mix_one-mix_one_example :
    inv_mix_one (mix_one (record { r0 = 1; r1 = 2; r2 = 3; r3 = 255 }))
    ≡ record { r0 = 1; r1 = 2; r2 = 3; r3 = 255 }
inv_mix_one-mix_one_example =
    inv_mix_one-mix_one (record { r0 = 1; r1 = 2; r2 = 3; r3 = 255 }) (omega arith)
