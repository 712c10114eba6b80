-- ===== src/Crypto/Cipher/Steps.antt =====
-- Each step of a round and the step that undoes it, and the blocks that hold bytes.
use pai.Prelude.{ℕ, ◌+◌, ◌*◌, ◌<◌, ◌≡◌, refl, true, arith, ◌==◌, ==_iff, get_or-lt, IsBytes, Bytes}
use pai.Prelude.Xor.{bit_xor_cancel, bit_xor-byte}
use pai.Crypto.Tables.{s_box, si_box, s_table}
use pai.Crypto.Cipher.{
  Block, col0, col1, col2, col3, from_columns, round_key, add_key, sub_bytes, inv_sub_bytes,
  shift_row, inv_shift_row, mix_column, inv_mix_column,
}
use pai.Prelude.{all_below, all_below-elim}
use pai.Crypto.Cipher.Columns.{IsByteColumn, inv_mix_one-mix_one, mix_one-IsByteColumn}

pub record IsByteBlock (a : Block) : Type 0 where
  pub c0 : IsByteColumn (col0 a)
  pub c1 : IsByteColumn (col1 a)
  pub c2 : IsByteColumn (col2 a)
  pub c3 : IsByteColumn (col3 a)

-- Adding the same key twice gives the block back.
pub add_key_twice : (a k : Block) → add_key (add_key a k) k ≡ a
unfolding add_key
add_key_twice a k = λ i. record {
  a0 = bit_xor_cancel a.a0 k.a0 i;
  a1 = bit_xor_cancel a.a1 k.a1 i;
  a2 = bit_xor_cancel a.a2 k.a2 i;
  a3 = bit_xor_cancel a.a3 k.a3 i;
  a4 = bit_xor_cancel a.a4 k.a4 i;
  a5 = bit_xor_cancel a.a5 k.a5 i;
  a6 = bit_xor_cancel a.a6 k.a6 i;
  a7 = bit_xor_cancel a.a7 k.a7 i;
  a8 = bit_xor_cancel a.a8 k.a8 i;
  a9 = bit_xor_cancel a.a9 k.a9 i;
  a10 = bit_xor_cancel a.a10 k.a10 i;
  a11 = bit_xor_cancel a.a11 k.a11 i;
  a12 = bit_xor_cancel a.a12 k.a12 i;
  a13 = bit_xor_cancel a.a13 k.a13 i;
  a14 = bit_xor_cancel a.a14 k.a14 i;
  a15 = bit_xor_cancel a.a15 k.a15 i;
}

si_box-s_box_table : all_below 256 (λ x. si_box (s_box x) == x) ≡ true
unfolding all_below s_box si_box
si_box-s_box_table = refl

si_box-s_box : (x : ℕ) → x < 256 → si_box (s_box x) ≡ x
si_box-s_box x h =
    (==_iff _ x).0 (all_below-elim 256 (λ x. si_box (s_box x) == x) x si_box-s_box_table h)

s_table-IsBytes : IsBytes s_table
s_table-IsBytes = omega arith

s_box-byte : (x : ℕ) → s_box x < 256
unfolding s_box
s_box-byte x = get_or-lt s_table x s_table-IsBytes

-- Substituting and shifting back undoes substituting and shifting.
pub unshift_unsub :
    (a : Block) → IsByteBlock a → inv_shift_row (inv_sub_bytes (shift_row (sub_bytes a))) ≡ a
unfolding inv_shift_row inv_sub_bytes shift_row sub_bytes
unshift_unsub a p = λ i. record {
  a0 = si_box-s_box a.a0 p.c0.b0 i;
  a1 = si_box-s_box a.a1 p.c1.b0 i;
  a2 = si_box-s_box a.a2 p.c2.b0 i;
  a3 = si_box-s_box a.a3 p.c3.b0 i;
  a4 = si_box-s_box a.a4 p.c0.b1 i;
  a5 = si_box-s_box a.a5 p.c1.b1 i;
  a6 = si_box-s_box a.a6 p.c2.b1 i;
  a7 = si_box-s_box a.a7 p.c3.b1 i;
  a8 = si_box-s_box a.a8 p.c0.b2 i;
  a9 = si_box-s_box a.a9 p.c1.b2 i;
  a10 = si_box-s_box a.a10 p.c2.b2 i;
  a11 = si_box-s_box a.a11 p.c3.b2 i;
  a12 = si_box-s_box a.a12 p.c0.b3 i;
  a13 = si_box-s_box a.a13 p.c1.b3 i;
  a14 = si_box-s_box a.a14 p.c2.b3 i;
  a15 = si_box-s_box a.a15 p.c3.b3 i;
}

pub shifted-IsByteBlock : (a : Block) → IsByteBlock (shift_row (sub_bytes a))
unfolding shift_row sub_bytes
shifted-IsByteBlock a = record {
  c0 = record {
    b0 = s_box-byte a.a0;
    b1 = s_box-byte a.a5;
    b2 = s_box-byte a.a10;
    b3 = s_box-byte a.a15;
  };
  c1 = record {
    b0 = s_box-byte a.a1;
    b1 = s_box-byte a.a6;
    b2 = s_box-byte a.a11;
    b3 = s_box-byte a.a12;
  };
  c2 = record {
    b0 = s_box-byte a.a2;
    b1 = s_box-byte a.a7;
    b2 = s_box-byte a.a8;
    b3 = s_box-byte a.a13;
  };
  c3 = record {
    b0 = s_box-byte a.a3;
    b1 = s_box-byte a.a4;
    b2 = s_box-byte a.a9;
    b3 = s_box-byte a.a14;
  };
}

pub inv_mix_column-mix_column : (a : Block) → IsByteBlock a → inv_mix_column (mix_column a) ≡ a
unfolding inv_mix_column mix_column
inv_mix_column-mix_column a p = λ i.
    from_columns (inv_mix_one-mix_one (col0 a) p.c0 i) (inv_mix_one-mix_one (col1 a) p.c1 i)
      (inv_mix_one-mix_one (col2 a) p.c2 i) (inv_mix_one-mix_one (col3 a) p.c3 i)

pub mix_column-IsByteBlock : (a : Block) → IsByteBlock a → IsByteBlock (mix_column a)
unfolding mix_column
mix_column-IsByteBlock a p = record {
  c0 = mix_one-IsByteColumn (col0 a) p.c0;
  c1 = mix_one-IsByteColumn (col1 a) p.c1;
  c2 = mix_one-IsByteColumn (col2 a) p.c2;
  c3 = mix_one-IsByteColumn (col3 a) p.c3;
}

pub add_key-IsByteBlock : (a k : Block) → IsByteBlock a → IsByteBlock k → IsByteBlock (add_key a k)
unfolding add_key
add_key-IsByteBlock a k p q = record {
  c0 = record {
    b0 = bit_xor-byte a.a0 k.a0 p.c0.b0 q.c0.b0;
    b1 = bit_xor-byte a.a4 k.a4 p.c0.b1 q.c0.b1;
    b2 = bit_xor-byte a.a8 k.a8 p.c0.b2 q.c0.b2;
    b3 = bit_xor-byte a.a12 k.a12 p.c0.b3 q.c0.b3;
  };
  c1 = record {
    b0 = bit_xor-byte a.a1 k.a1 p.c1.b0 q.c1.b0;
    b1 = bit_xor-byte a.a5 k.a5 p.c1.b1 q.c1.b1;
    b2 = bit_xor-byte a.a9 k.a9 p.c1.b2 q.c1.b2;
    b3 = bit_xor-byte a.a13 k.a13 p.c1.b3 q.c1.b3;
  };
  c2 = record {
    b0 = bit_xor-byte a.a2 k.a2 p.c2.b0 q.c2.b0;
    b1 = bit_xor-byte a.a6 k.a6 p.c2.b1 q.c2.b1;
    b2 = bit_xor-byte a.a10 k.a10 p.c2.b2 q.c2.b2;
    b3 = bit_xor-byte a.a14 k.a14 p.c2.b3 q.c2.b3;
  };
  c3 = record {
    b0 = bit_xor-byte a.a3 k.a3 p.c3.b0 q.c3.b0;
    b1 = bit_xor-byte a.a7 k.a7 p.c3.b1 q.c3.b1;
    b2 = bit_xor-byte a.a11 k.a11 p.c3.b2 q.c3.b2;
    b3 = bit_xor-byte a.a15 k.a15 p.c3.b3 q.c3.b3;
  };
}

pub round_key-IsByteBlock : (rk : Bytes) (r : ℕ) → IsBytes rk → IsByteBlock (round_key rk r)
unfolding round_key
round_key-IsByteBlock rk r h = record {
  c0 = record {
    b0 = get_or-lt rk (0 + r * 16) h;
    b1 = get_or-lt rk (4 + r * 16) h;
    b2 = get_or-lt rk (8 + r * 16) h;
    b3 = get_or-lt rk (12 + r * 16) h;
  };
  c1 = record {
    b0 = get_or-lt rk (1 + r * 16) h;
    b1 = get_or-lt rk (5 + r * 16) h;
    b2 = get_or-lt rk (9 + r * 16) h;
    b3 = get_or-lt rk (13 + r * 16) h;
  };
  c2 = record {
    b0 = get_or-lt rk (2 + r * 16) h;
    b1 = get_or-lt rk (6 + r * 16) h;
    b2 = get_or-lt rk (10 + r * 16) h;
    b3 = get_or-lt rk (14 + r * 16) h;
  };
  c3 = record {
    b0 = get_or-lt rk (3 + r * 16) h;
    b1 = get_or-lt rk (7 + r * 16) h;
    b2 = get_or-lt rk (11 + r * 16) h;
    b3 = get_or-lt rk (15 + r * 16) h;
  };
}
