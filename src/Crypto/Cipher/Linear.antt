-- ===== src/Crypto/Cipher/Linear.antt =====
-- The mixing tables respect `⊕`: multiplication in the field of 256 elements distributes over it.
use pai.Prelude.{
  all_below, all_below-elim, ℕ, ◌%◌, ◌/◌, ◌<◌, ◌≡◌, refl, sym, ap, ◌∙◌, Bool, true, ◌&&◌, List, [],
  ◌∷◌, arith, ◌==◌, if◌then◌else◌,
}
use pai.Prelude.Xor.{
  ◌⊕◌, bit_xor-mod, bit_xor-half, bit_xor_self, bit_xor-zero, zero-bit_xor, bit_xor_interchange,
  bit_xor-byte,
}
use pai.Crypto.Tables.{xtime, e_table, b_table, d_table, nine_table}

-- the part of `t` that the lowest digit of `x` chooses
abbrev pick : ℕ → ℕ → ℕ
pick t x = if x % 2 == 1 then t else 0

-- the map that takes the digits' numbers 1, 2, 4, … to the given values and respects `⊕`
from_basis : List ℕ → ℕ → ℕ
from_basis [] x = 0
from_basis (t ∷ ts) x = pick t x ⊕ from_basis ts (x / 2)

pick-xor : (t a b : ℕ) → pick t (a ⊕ b) ≡ pick t a ⊕ pick t b
pick-xor t a b =
    ground (arith, bit_xor-mod a b, bit_xor_self t, bit_xor-zero t, zero-bit_xor t, zero-bit_xor 0)

from_basis-xor : (ts : List ℕ) (a b : ℕ) → from_basis ts (a ⊕ b) ≡ from_basis ts a ⊕ from_basis ts b
unfolding from_basis
from_basis-xor [] a b = refl
from_basis-xor (t ∷ ts) a b =
    ap (λ k. pick t (a ⊕ b) ⊕ from_basis ts k) (bit_xor-half a b)
    ∙ ap (λ k. pick t (a ⊕ b) ⊕ k) (from_basis-xor ts (a / 2) (b / 2))
    ∙ ap (λ k. k ⊕ (from_basis ts (a / 2) ⊕ from_basis ts (b / 2))) (pick-xor t a b)
    ∙ bit_xor_interchange (pick t a) (pick t b) (from_basis ts (a / 2)) (from_basis ts (b / 2))

abbrev pub basis : (ℕ → ℕ) → List ℕ
basis f = f 1 ∷ f 2 ∷ f 4 ∷ f 8 ∷ f 16 ∷ f 32 ∷ f 64 ∷ f 128 ∷ []

-- the table holds bytes, and agrees with what its values at 1, 2, 4, … determine
abbrev agrees : (ℕ → ℕ) → ℕ → Bool
agrees f x = (f x == from_basis (basis f) x) && (f x / 256 == 0)

-- A table over the bytes that respects `⊕` and holds bytes.
pub record IsFieldMap (f : ℕ → ℕ) : Type 0 where
  pub additive : (a b : ℕ) → a < 256 → b < 256 → f (a ⊕ b) ≡ f a ⊕ f b
  pub byte : (a : ℕ) → a < 256 → f a < 256

module _ (f : ℕ → ℕ) (table : all_below 256 (agrees f) ≡ true) where
  agrees-from_basis : (a : ℕ) → a < 256 → f a ≡ from_basis (basis f) a
  agrees-from_basis a h = let e = all_below-elim 256 (agrees f) a table h in ground arith

  IsFieldMap-of_table : IsFieldMap f
  IsFieldMap-of_table = record {
    additive = λ a b p q.
        agrees-from_basis (a ⊕ b) (bit_xor-byte a b p q)
        ∙ from_basis-xor (basis f) a b
        ∙ ap (λ k. k ⊕ from_basis (basis f) b) (sym (agrees-from_basis a p))
        ∙ ap (λ k. f a ⊕ k) (sym (agrees-from_basis b q));
    byte = λ a h. let e = all_below-elim 256 (agrees f) a table h in ground arith;
  }

xtime-agrees : all_below 256 (agrees xtime) ≡ true
unfolding all_below from_basis xtime
xtime-agrees = refl

e_table-agrees : all_below 256 (agrees e_table) ≡ true
unfolding all_below from_basis e_table
e_table-agrees = refl

b_table-agrees : all_below 256 (agrees b_table) ≡ true
unfolding all_below from_basis b_table
b_table-agrees = refl

d_table-agrees : all_below 256 (agrees d_table) ≡ true
unfolding all_below from_basis d_table
d_table-agrees = refl

nine_table-agrees : all_below 256 (agrees nine_table) ≡ true
unfolding all_below from_basis nine_table
nine_table-agrees = refl

pub xtime-IsFieldMap : IsFieldMap xtime
xtime-IsFieldMap = IsFieldMap-of_table xtime xtime-agrees

pub e_table-IsFieldMap : IsFieldMap e_table
e_table-IsFieldMap = IsFieldMap-of_table e_table e_table-agrees

pub b_table-IsFieldMap : IsFieldMap b_table
b_table-IsFieldMap = IsFieldMap-of_table b_table b_table-agrees

pub d_table-IsFieldMap : IsFieldMap d_table
d_table-IsFieldMap = IsFieldMap-of_table d_table d_table-agrees

pub nine_table-IsFieldMap : IsFieldMap nine_table
nine_table-IsFieldMap = IsFieldMap-of_table nine_table nine_table-agrees
