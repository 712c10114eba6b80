-- ===== src/Panel/Eeprom/Runs.antt =====
-- Stretches of memory, and batches of neighbouring fields.
use pai.Prelude.{
  ℕ, zero, suc, ◌+◌, ◌*◌, ◌≡◌, refl, subst, ap, List, [], ◌∷◌, ◌++◌, map, arith, length, take, drop,
  take_left, drop_left, Bytes,
}
use pai.Panel.Eeprom.{IndexAddress, fields}

-- `n` bytes of memory from address `a` on
unfoldable pub slice : (ℕ → ℕ) → ℕ → ℕ → Bytes
slice memory a zero = []
slice memory a (suc n) = memory a ∷ slice memory (a + 1) n

length-slice : (memory : ℕ → ℕ) (a n : ℕ) → length (slice memory a n) ≡ n
unfolding slice
length-slice memory a zero = refl
length-slice memory a (suc n) = ap suc (length-slice memory (a + 1) n)

slice-add :
    (memory : ℕ → ℕ) (a n m : ℕ)
    → slice memory a (n + m) ≡ slice memory a n ++ slice memory (a + n) m
unfolding slice
slice-add memory a zero m =
    let e : a + 0 ≡ a = omega arith in let z : 0 + m ≡ m = omega arith in rw e (rw z refl)
slice-add memory a (suc n) m =
    let e : suc n + m ≡ suc (n + m) = omega arith in
    let s : a + suc n ≡ (a + 1) + n = omega arith in
    rw e (rw s (ap (◌∷◌ (memory a)) (slice-add memory (a + 1) n m)))

-- The field at offset `i` of a stretch is the memory there.
slice_field :
    (memory : ℕ → ℕ) (a i n rest : ℕ)
    → take n (drop i (slice memory a (i + (n + rest)))) ≡ slice memory (a + i) n
slice_field memory a i n rest =
    let before = slice memory a i in
    let here = slice memory (a + i) n in
    let behind = slice memory (a + i + n) rest in
    rw (slice-add memory a i (n + rest), slice-add memory (a + i) n rest)
      (rw
        (subst (λ k. drop k (before ++ (here ++ behind)) ≡ here ++ behind) (length-slice memory a i)
          (drop_left before (here ++ behind)))
        (subst (λ k. take k (here ++ behind) ≡ here) (length-slice memory (a + i) n)
          (take_left here behind)))

-- The fields of a batch lie one behind the other, from address `a` on.
abbrev pub IsRun : ℕ → ℕ → List IndexAddress → Type 0
IsRun n a [] = Unit
IsRun n a (ia ∷ rest) = (ia.address ≡ a) × IsRun n (a + n) rest

pub IsRun-snoc :
    (n a : ℕ) (batch : List IndexAddress) (ia : IndexAddress)
    → IsRun n a batch
    → a + length batch * n ≡ ia.address
    → IsRun n a (batch ++ ia ∷ [])
IsRun-snoc n a [] ia r e = (omega arith, tt)
IsRun-snoc n a (x ∷ batch) ia r e = (r.0, IsRun-snoc n (a + n) batch ia r.1 (grind arith))

-- what a field of its own would have been read as
abbrev pub field_of : (ℕ → ℕ) → ℕ → IndexAddress → ℕ × Bytes
field_of memory n ia = (ia.idx, slice memory ia.address n)

-- Cut from the memory that the whole batch covers, every field is its own stretch of memory.
pub fields-map :
    (memory : ℕ → ℕ) (n a i total : ℕ) (batch : List IndexAddress)
    → IsRun n (a + i * n) batch
    → i + length batch ≡ total
    → fields n (slice memory a (total * n)) i batch ≡ map (field_of memory n) batch
unfolding fields
fields-map memory n a i total [] r e = refl
fields-map memory n a i total (ia ∷ batch) r e =
    let next : a + i * n + n ≡ a + (i + 1) * n = grind arith in
    let covers : total * n ≡ i * n + (n + length batch * n) = rw (← e) (grind arith) in
    let ih = fields-map memory n a (i + 1) total batch (rw next at r.1) (omega arith) in
    let here : take n (drop (i * n) (slice memory a (total * n))) ≡ slice memory ia.address n =
      rw covers (rw r.0 (slice_field memory a (i * n) n (length batch * n))) in
    cc
