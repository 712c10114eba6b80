-- ===== src/Crypto/Cipher.antt =====
-- One block of the cipher of paradox/lib/crypto.py: the steps that `encrypt` and `decrypt` write
-- out in their loops, over the sixteen bytes a[0] to a[15] of a block.
pub mod Linear
pub mod Columns
pub mod Steps
pub mod Rounds
use pai.Prelude.{ℕ, zero, suc, ◌+◌, ◌*◌, List, [], ◌∷◌, get_or, Bytes}
use pai.Prelude.Xor.{◌⊕◌}
use pai.Crypto.Tables.{s_box, si_box, xtime, e_table, b_table, d_table, nine_table}

pub record Block : Type 0 where
  pub a0 : ℕ
  pub a1 : ℕ
  pub a2 : ℕ
  pub a3 : ℕ
  pub a4 : ℕ
  pub a5 : ℕ
  pub a6 : ℕ
  pub a7 : ℕ
  pub a8 : ℕ
  pub a9 : ℕ
  pub a10 : ℕ
  pub a11 : ℕ
  pub a12 : ℕ
  pub a13 : ℕ
  pub a14 : ℕ
  pub a15 : ℕ

-- ROUNDS
abbrev pub rounds : ℕ
rounds = 14

-- the entries a[j], a[4 + j], a[8 + j] and a[12 + j], which the mixing steps join
pub record Column : Type 0 where
  pub r0 : ℕ
  pub r1 : ℕ
  pub r2 : ℕ
  pub r3 : ℕ

-- rk[i + r16], with r16 = 16 * r
unfoldable pub round_key : Bytes → ℕ → Block
round_key rk r = record {
  a0 = get_or rk (0 + r * 16) 0;
  a1 = get_or rk (1 + r * 16) 0;
  a2 = get_or rk (2 + r * 16) 0;
  a3 = get_or rk (3 + r * 16) 0;
  a4 = get_or rk (4 + r * 16) 0;
  a5 = get_or rk (5 + r * 16) 0;
  a6 = get_or rk (6 + r * 16) 0;
  a7 = get_or rk (7 + r * 16) 0;
  a8 = get_or rk (8 + r * 16) 0;
  a9 = get_or rk (9 + r * 16) 0;
  a10 = get_or rk (10 + r * 16) 0;
  a11 = get_or rk (11 + r * 16) 0;
  a12 = get_or rk (12 + r * 16) 0;
  a13 = get_or rk (13 + r * 16) 0;
  a14 = get_or rk (14 + r * 16) 0;
  a15 = get_or rk (15 + r * 16) 0;
}

-- Key Addition
unfoldable pub add_key : Block → Block → Block
add_key a k = record {
  a0 = a.a0 ⊕ k.a0;
  a1 = a.a1 ⊕ k.a1;
  a2 = a.a2 ⊕ k.a2;
  a3 = a.a3 ⊕ k.a3;
  a4 = a.a4 ⊕ k.a4;
  a5 = a.a5 ⊕ k.a5;
  a6 = a.a6 ⊕ k.a6;
  a7 = a.a7 ⊕ k.a7;
  a8 = a.a8 ⊕ k.a8;
  a9 = a.a9 ⊕ k.a9;
  a10 = a.a10 ⊕ k.a10;
  a11 = a.a11 ⊕ k.a11;
  a12 = a.a12 ⊕ k.a12;
  a13 = a.a13 ⊕ k.a13;
  a14 = a.a14 ⊕ k.a14;
  a15 = a.a15 ⊕ k.a15;
}

-- S BOX
unfoldable pub sub_bytes : Block → Block
sub_bytes a = record {
  a0 = s_box a.a0;
  a1 = s_box a.a1;
  a2 = s_box a.a2;
  a3 = s_box a.a3;
  a4 = s_box a.a4;
  a5 = s_box a.a5;
  a6 = s_box a.a6;
  a7 = s_box a.a7;
  a8 = s_box a.a8;
  a9 = s_box a.a9;
  a10 = s_box a.a10;
  a11 = s_box a.a11;
  a12 = s_box a.a12;
  a13 = s_box a.a13;
  a14 = s_box a.a14;
  a15 = s_box a.a15;
}

-- Si Box
unfoldable pub inv_sub_bytes : Block → Block
inv_sub_bytes a = record {
  a0 = si_box a.a0;
  a1 = si_box a.a1;
  a2 = si_box a.a2;
  a3 = si_box a.a3;
  a4 = si_box a.a4;
  a5 = si_box a.a5;
  a6 = si_box a.a6;
  a7 = si_box a.a7;
  a8 = si_box a.a8;
  a9 = si_box a.a9;
  a10 = si_box a.a10;
  a11 = si_box a.a11;
  a12 = si_box a.a12;
  a13 = si_box a.a13;
  a14 = si_box a.a14;
  a15 = si_box a.a15;
}

-- Shift Row
unfoldable pub shift_row : Block → Block
shift_row a = record {
  a0 = a.a0;
  a1 = a.a1;
  a2 = a.a2;
  a3 = a.a3;
  a4 = a.a5;
  a5 = a.a6;
  a6 = a.a7;
  a7 = a.a4;
  a8 = a.a10;
  a9 = a.a11;
  a10 = a.a8;
  a11 = a.a9;
  a12 = a.a15;
  a13 = a.a12;
  a14 = a.a13;
  a15 = a.a14;
}

-- Shift Row Invert
unfoldable pub inv_shift_row : Block → Block
inv_shift_row a = record {
  a0 = a.a0;
  a1 = a.a1;
  a2 = a.a2;
  a3 = a.a3;
  a4 = a.a7;
  a5 = a.a4;
  a6 = a.a5;
  a7 = a.a6;
  a8 = a.a10;
  a9 = a.a11;
  a10 = a.a8;
  a11 = a.a9;
  a12 = a.a13;
  a13 = a.a14;
  a14 = a.a15;
  a15 = a.a12;
}

-- Mix Column, for one of the four columns; `tmp` is tmp0 to tmp3
unfoldable pub mix_one : Column → Column
mix_one c =
    let tmp = c.r0 ⊕ c.r1 ⊕ c.r2 ⊕ c.r3 in
    record {
      r0 = c.r0 ⊕ (xtime (c.r0 ⊕ c.r1) ⊕ tmp);
      r1 = c.r1 ⊕ (xtime (c.r1 ⊕ c.r2) ⊕ tmp);
      r2 = c.r2 ⊕ (xtime (c.r2 ⊕ c.r3) ⊕ tmp);
      r3 = c.r3 ⊕ (xtime (c.r3 ⊕ c.r0) ⊕ tmp);
    }

-- Inv Mix Column, for one of the four columns
unfoldable pub inv_mix_one : Column → Column
inv_mix_one c = record {
  r0 = e_table c.r0 ⊕ b_table c.r1 ⊕ d_table c.r2 ⊕ nine_table c.r3;
  r1 = e_table c.r1 ⊕ b_table c.r2 ⊕ d_table c.r3 ⊕ nine_table c.r0;
  r2 = e_table c.r2 ⊕ b_table c.r3 ⊕ d_table c.r0 ⊕ nine_table c.r1;
  r3 = e_table c.r3 ⊕ b_table c.r0 ⊕ d_table c.r1 ⊕ nine_table c.r2;
}

abbrev pub col0 : Block → Column
col0 a = record { r0 = a.a0; r1 = a.a4; r2 = a.a8; r3 = a.a12 }

abbrev pub col1 : Block → Column
col1 a = record { r0 = a.a1; r1 = a.a5; r2 = a.a9; r3 = a.a13 }

abbrev pub col2 : Block → Column
col2 a = record { r0 = a.a2; r1 = a.a6; r2 = a.a10; r3 = a.a14 }

abbrev pub col3 : Block → Column
col3 a = record { r0 = a.a3; r1 = a.a7; r2 = a.a11; r3 = a.a15 }

abbrev pub from_columns : Column → Column → Column → Column → Block
from_columns p q r s = record {
  a0 = p.r0;
  a1 = q.r0;
  a2 = r.r0;
  a3 = s.r0;
  a4 = p.r1;
  a5 = q.r1;
  a6 = r.r1;
  a7 = s.r1;
  a8 = p.r2;
  a9 = q.r2;
  a10 = r.r2;
  a11 = s.r2;
  a12 = p.r3;
  a13 = q.r3;
  a14 = r.r3;
  a15 = s.r3;
}

unfoldable pub mix_column : Block → Block
unfolding mix_one
mix_column a =
    from_columns (mix_one (col0 a)) (mix_one (col1 a)) (mix_one (col2 a)) (mix_one (col3 a))

unfoldable pub inv_mix_column : Block → Block
unfolding inv_mix_one
inv_mix_column a =
    from_columns (inv_mix_one (col0 a)) (inv_mix_one (col1 a)) (inv_mix_one (col2 a))
      (inv_mix_one (col3 a))

-- the body of the loop of `encrypt`
unfoldable pub encrypt_round : Bytes → ℕ → Block → Block
encrypt_round rk r a = add_key (mix_column (shift_row (sub_bytes a))) (round_key rk r)

-- for r in range(r, r + n)
unfoldable pub encrypt_rounds : Bytes → ℕ → ℕ → Block → Block
encrypt_rounds rk zero r a = a
encrypt_rounds rk (suc n) r a = encrypt_rounds rk n (r + 1) (encrypt_round rk r a)

unfoldable pub encrypt_block : Bytes → Block → Block
encrypt_block rk a =
    add_key (shift_row (sub_bytes (encrypt_rounds rk 13 1 (add_key a (round_key rk 0)))))
      (round_key rk rounds)

-- the body of the loop of `decrypt`
unfoldable pub decrypt_round : Bytes → ℕ → Block → Block
decrypt_round rk r a = inv_shift_row (inv_sub_bytes (inv_mix_column (add_key a (round_key rk r))))

-- for r in range(n, 0, -1)
unfoldable pub decrypt_rounds : Bytes → ℕ → Block → Block
decrypt_rounds rk zero a = a
decrypt_rounds rk (suc n) a = decrypt_rounds rk n (decrypt_round rk (suc n) a)

unfoldable pub decrypt_block : Bytes → Block → Block
decrypt_block rk a =
    add_key (decrypt_rounds rk 13 (inv_shift_row (inv_sub_bytes (add_key a (round_key rk rounds)))))
      (round_key rk 0)
