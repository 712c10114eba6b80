-- ===== src/Crypto/Cipher/Columns.antt =====
-- The two mixing steps undo one another, column by column.
use pai.Prelude.{
  all_below, all_below-elim, ℕ, ◌<◌, ◌≡◌, refl, sym, ap, ◌∙◌, Bool, true, ◌&&◌, arith, ◌==◌,
}
use pai.Prelude.Xor.{◌⊕◌, bit_xor-zero, zero-bit_xor, bit_xor-byte, bit_xor_interchange}
use pai.Crypto.Tables.{xtime, e_table, b_table, d_table, nine_table}
use pai.Crypto.Cipher.{Column, mix_one, inv_mix_one}
use pai.Crypto.Cipher.Linear.{
  IsFieldMap, xtime-IsFieldMap, e_table-IsFieldMap, b_table-IsFieldMap, d_table-IsFieldMap,
  nine_table-IsFieldMap,
}

pub record IsByteColumn (c : Column) : Type 0 where
  pub b0 : c.r0 < 256
  pub b1 : c.r1 < 256
  pub b2 : c.r2 < 256
  pub b3 : c.r3 < 256

abbrev add_column : Column → Column → Column
add_column u v = record { r0 = u.r0 ⊕ v.r0; r1 = u.r1 ⊕ v.r1; r2 = u.r2 ⊕ v.r2; r3 = u.r3 ⊕ v.r3 }

add_column-IsByteColumn :
    (u v : Column) → IsByteColumn u → IsByteColumn v → IsByteColumn (add_column u v)
add_column-IsByteColumn u v p q = record {
  b0 = bit_xor-byte u.r0 v.r0 p.b0 q.b0;
  b1 = bit_xor-byte u.r1 v.r1 p.b1 q.b1;
  b2 = bit_xor-byte u.r2 v.r2 p.b2 q.b2;
  b3 = bit_xor-byte u.r3 v.r3 p.b3 q.b3;
}

-- An entry of a column that is computed from the column and respects `⊕`.
record IsLinear (f : Column → ℕ) : Type 0 where
  additive : (u v : Column) → IsByteColumn u → IsByteColumn v → f (add_column u v) ≡ f u ⊕ f v
  byte : (u : Column) → IsByteColumn u → f u < 256

xor-IsLinear : (f g : Column → ℕ) → IsLinear f → IsLinear g → IsLinear (λ c. f c ⊕ g c)
xor-IsLinear f g lf lg = record {
  additive = λ u v p q.
      ap (λ k. k ⊕ g (add_column u v)) (lf.additive u v p q)
      ∙ ap (λ k. (f u ⊕ f v) ⊕ k) (lg.additive u v p q)
      ∙ bit_xor_interchange (f u) (f v) (g u) (g v);
  byte = λ u p. bit_xor-byte (f u) (g u) (lf.byte u p) (lg.byte u p);
}

table-IsLinear : (t : ℕ → ℕ) (f : Column → ℕ) → IsFieldMap t → IsLinear f → IsLinear (λ c. t (f c))
table-IsLinear t f m l = record {
  additive =
      λ u v p q. ap t (l.additive u v p q) ∙ m.additive (f u) (f v) (l.byte u p) (l.byte v q);
  byte = λ u p. m.byte (f u) (l.byte u p);
}

r0-IsLinear : IsLinear (λ c. c.r0)
r0-IsLinear = record { additive = λ u v p q. refl; byte = λ u p. p.b0 }

r1-IsLinear : IsLinear (λ c. c.r1)
r1-IsLinear = record { additive = λ u v p q. refl; byte = λ u p. p.b1 }

r2-IsLinear : IsLinear (λ c. c.r2)
r2-IsLinear = record { additive = λ u v p q. refl; byte = λ u p. p.b2 }

r3-IsLinear : IsLinear (λ c. c.r3)
r3-IsLinear = record { additive = λ u v p q. refl; byte = λ u p. p.b3 }

-- the terms of the two steps, over entries that respect `⊕`
module _ (f g h k : Column → ℕ) (lf : IsLinear f) (lg : IsLinear g) (lh : IsLinear h)
    (lk : IsLinear k) where
  sum-IsLinear : IsLinear (λ c. f c ⊕ g c ⊕ h c ⊕ k c)
  sum-IsLinear = xor-IsLinear _ _ (xor-IsLinear _ _ (xor-IsLinear _ _ lf lg) lh) lk

  mixed-IsLinear :
      (a b : Column → ℕ)
      → IsLinear a
      → IsLinear b
      → IsLinear (λ c. a c ⊕ (xtime (a c ⊕ b c) ⊕ (f c ⊕ g c ⊕ h c ⊕ k c)))
  mixed-IsLinear a b la lb = xor-IsLinear a _ la (
      xor-IsLinear _ _
        (table-IsLinear xtime (λ c. a c ⊕ b c) xtime-IsFieldMap (xor-IsLinear a b la lb))
        sum-IsLinear)

  unmixed-IsLinear :
      IsLinear (λ c. e_table (f c) ⊕ b_table (g c) ⊕ d_table (h c) ⊕ nine_table (k c))
  unmixed-IsLinear =
      xor-IsLinear _ _
        (xor-IsLinear _ _
          (xor-IsLinear _ _ (table-IsLinear e_table f e_table-IsFieldMap lf)
            (table-IsLinear b_table g b_table-IsFieldMap lg))
          (table-IsLinear d_table h d_table-IsFieldMap lh))
        (table-IsLinear nine_table k nine_table-IsFieldMap lk)

mix_one-r0 : IsLinear (λ c. (mix_one c).r0)
unfolding mix_one
mix_one-r0 =
    mixed-IsLinear (λ c. c.r0) (λ c. c.r1) (λ c. c.r2) (λ c. c.r3) r0-IsLinear r1-IsLinear
      r2-IsLinear r3-IsLinear (λ c. c.r0) (λ c. c.r1) r0-IsLinear r1-IsLinear

mix_one-r1 : IsLinear (λ c. (mix_one c).r1)
unfolding mix_one
mix_one-r1 =
    mixed-IsLinear (λ c. c.r0) (λ c. c.r1) (λ c. c.r2) (λ c. c.r3) r0-IsLinear r1-IsLinear
      r2-IsLinear r3-IsLinear (λ c. c.r1) (λ c. c.r2) r1-IsLinear r2-IsLinear

mix_one-r2 : IsLinear (λ c. (mix_one c).r2)
unfolding mix_one
mix_one-r2 =
    mixed-IsLinear (λ c. c.r0) (λ c. c.r1) (λ c. c.r2) (λ c. c.r3) r0-IsLinear r1-IsLinear
      r2-IsLinear r3-IsLinear (λ c. c.r2) (λ c. c.r3) r2-IsLinear r3-IsLinear

mix_one-r3 : IsLinear (λ c. (mix_one c).r3)
unfolding mix_one
mix_one-r3 =
    mixed-IsLinear (λ c. c.r0) (λ c. c.r1) (λ c. c.r2) (λ c. c.r3) r0-IsLinear r1-IsLinear
      r2-IsLinear r3-IsLinear (λ c. c.r3) (λ c. c.r0) r3-IsLinear r0-IsLinear

-- the column after both steps
abbrev there_and_back : Column → Column
there_and_back c = inv_mix_one (mix_one c)

there_and_back-r0 : IsLinear (λ c. (there_and_back c).r0)
unfolding inv_mix_one
there_and_back-r0 =
    unmixed-IsLinear (λ c. (mix_one c).r0) (λ c. (mix_one c).r1) (λ c. (mix_one c).r2)
      (λ c. (mix_one c).r3) mix_one-r0 mix_one-r1 mix_one-r2 mix_one-r3

there_and_back-r1 : IsLinear (λ c. (there_and_back c).r1)
unfolding inv_mix_one
there_and_back-r1 =
    unmixed-IsLinear (λ c. (mix_one c).r1) (λ c. (mix_one c).r2) (λ c. (mix_one c).r3)
      (λ c. (mix_one c).r0) mix_one-r1 mix_one-r2 mix_one-r3 mix_one-r0

there_and_back-r2 : IsLinear (λ c. (there_and_back c).r2)
unfolding inv_mix_one
there_and_back-r2 =
    unmixed-IsLinear (λ c. (mix_one c).r2) (λ c. (mix_one c).r3) (λ c. (mix_one c).r0)
      (λ c. (mix_one c).r1) mix_one-r2 mix_one-r3 mix_one-r0 mix_one-r1

there_and_back-r3 : IsLinear (λ c. (there_and_back c).r3)
unfolding inv_mix_one
there_and_back-r3 =
    unmixed-IsLinear (λ c. (mix_one c).r3) (λ c. (mix_one c).r0) (λ c. (mix_one c).r1)
      (λ c. (mix_one c).r2) mix_one-r3 mix_one-r0 mix_one-r1 mix_one-r2

-- a column with one entry that is not 0
abbrev only0 : ℕ → Column
only0 x = record { r0 = x; r1 = 0; r2 = 0; r3 = 0 }

abbrev only1 : ℕ → Column
only1 x = record { r0 = 0; r1 = x; r2 = 0; r3 = 0 }

abbrev only2 : ℕ → Column
only2 x = record { r0 = 0; r1 = 0; r2 = x; r3 = 0 }

abbrev only3 : ℕ → Column
only3 x = record { r0 = 0; r1 = 0; r2 = 0; r3 = x }

abbrev is_same : Column → Column → Bool
is_same c d = (c.r0 == d.r0) && (c.r1 == d.r1) && (c.r2 == d.r2) && (c.r3 == d.r3)

is_same-eq : (c d : Column) → is_same c d ≡ true → c ≡ d
is_same-eq c d h = ground arith

only0_table : all_below 256 (λ x. is_same (there_and_back (only0 x)) (only0 x)) ≡ true
unfolding all_below mix_one inv_mix_one xtime e_table b_table d_table nine_table
only0_table = refl

there_and_back-only0 : (x : ℕ) → x < 256 → there_and_back (only0 x) ≡ only0 x
there_and_back-only0 x h =
    is_same-eq _ _
      (all_below-elim 256 (λ x. is_same (there_and_back (only0 x)) (only0 x)) x only0_table h)

only1_table : all_below 256 (λ x. is_same (there_and_back (only1 x)) (only1 x)) ≡ true
unfolding all_below mix_one inv_mix_one xtime e_table b_table d_table nine_table
only1_table = refl

there_and_back-only1 : (x : ℕ) → x < 256 → there_and_back (only1 x) ≡ only1 x
there_and_back-only1 x h =
    is_same-eq _ _
      (all_below-elim 256 (λ x. is_same (there_and_back (only1 x)) (only1 x)) x only1_table h)

only2_table : all_below 256 (λ x. is_same (there_and_back (only2 x)) (only2 x)) ≡ true
unfolding all_below mix_one inv_mix_one xtime e_table b_table d_table nine_table
only2_table = refl

there_and_back-only2 : (x : ℕ) → x < 256 → there_and_back (only2 x) ≡ only2 x
there_and_back-only2 x h =
    is_same-eq _ _
      (all_below-elim 256 (λ x. is_same (there_and_back (only2 x)) (only2 x)) x only2_table h)

only3_table : all_below 256 (λ x. is_same (there_and_back (only3 x)) (only3 x)) ≡ true
unfolding all_below mix_one inv_mix_one xtime e_table b_table d_table nine_table
only3_table = refl

there_and_back-only3 : (x : ℕ) → x < 256 → there_and_back (only3 x) ≡ only3 x
there_and_back-only3 x h =
    is_same-eq _ _
      (all_below-elim 256 (λ x. is_same (there_and_back (only3 x)) (only3 x)) x only3_table h)

there_and_back-add :
    (u v : Column)
    → IsByteColumn u
    → IsByteColumn v
    → there_and_back (add_column u v) ≡ add_column (there_and_back u) (there_and_back v)
there_and_back-add u v p q = λ i. record {
  r0 = there_and_back-r0.additive u v p q i;
  r1 = there_and_back-r1.additive u v p q i;
  r2 = there_and_back-r2.additive u v p q i;
  r3 = there_and_back-r3.additive u v p q i;
}

-- Every column is the sum of four such.
abbrev parts : Column → Column
parts c = add_column (add_column (only0 c.r0) (only1 c.r1)) (add_column (only2 c.r2) (only3 c.r3))

parts_lem : (c : Column) → parts c ≡ c
parts_lem c = λ i. record {
  r0 = (bit_xor-zero (c.r0 ⊕ 0) ∙ bit_xor-zero c.r0) i;
  r1 = (bit_xor-zero (0 ⊕ c.r1) ∙ zero-bit_xor c.r1) i;
  r2 = (zero-bit_xor (c.r2 ⊕ 0) ∙ bit_xor-zero c.r2) i;
  r3 = (zero-bit_xor (0 ⊕ c.r3) ∙ zero-bit_xor c.r3) i;
}

-- The inverse step undoes the mixing of a column of bytes.
pub inv_mix_one-mix_one : (c : Column) → IsByteColumn c → inv_mix_one (mix_one c) ≡ c
inv_mix_one-mix_one c p =
    let p0 : IsByteColumn (only0 c.r0) = record {
      b0 = p.b0;
      b1 = omega arith;
      b2 = omega arith;
      b3 = omega arith;
    } in
    let p1 : IsByteColumn (only1 c.r1) = record {
      b0 = omega arith;
      b1 = p.b1;
      b2 = omega arith;
      b3 = omega arith;
    } in
    let p2 : IsByteColumn (only2 c.r2) = record {
      b0 = omega arith;
      b1 = omega arith;
      b2 = p.b2;
      b3 = omega arith;
    } in
    let p3 : IsByteColumn (only3 c.r3) = record {
      b0 = omega arith;
      b1 = omega arith;
      b2 = omega arith;
      b3 = p.b3;
    } in
    let front = add_column (only0 c.r0) (only1 c.r1) in
    let back = add_column (only2 c.r2) (only3 c.r3) in
    ap there_and_back (sym (parts_lem c))
    ∙ there_and_back-add front back (add_column-IsByteColumn (only0 c.r0) (only1 c.r1) p0 p1)
        (add_column-IsByteColumn (only2 c.r2) (only3 c.r3) p2 p3)
    ∙ ap (λ k. add_column k (there_and_back back))
        (there_and_back-add (only0 c.r0) (only1 c.r1) p0 p1)
    ∙ ap
        (λ k. add_column (add_column (there_and_back (only0 c.r0)) (there_and_back (only1 c.r1))) k)
        (there_and_back-add (only2 c.r2) (only3 c.r3) p2 p3)
    ∙ ap
        (λ k.
          add_column (add_column k (there_and_back (only1 c.r1)))
            (add_column (there_and_back (only2 c.r2)) (there_and_back (only3 c.r3))))
        (there_and_back-only0 c.r0 p.b0)
    ∙ ap
        (λ k.
          add_column (add_column (only0 c.r0) k)
            (add_column (there_and_back (only2 c.r2)) (there_and_back (only3 c.r3))))
        (there_and_back-only1 c.r1 p.b1)
    ∙ ap
        (λ k.
          add_column (add_column (only0 c.r0) (only1 c.r1))
            (add_column k (there_and_back (only3 c.r3))))
        (there_and_back-only2 c.r2 p.b2)
    ∙ ap (λ k. add_column (add_column (only0 c.r0) (only1 c.r1)) (add_column (only2 c.r2) k))
        (there_and_back-only3 c.r3 p.b3)
    ∙ parts_lem c

pub mix_one-IsByteColumn : (c : Column) → IsByteColumn c → IsByteColumn (mix_one c)
mix_one-IsByteColumn c p = record {
  b0 = mix_one-r0.byte c p;
  b1 = mix_one-r1.byte c p;
  b2 = mix_one-r2.byte c p;
  b3 = mix_one-r3.byte c p;
}
