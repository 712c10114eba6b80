-- ===== src/Panel/Eeprom/Reads.antt =====
-- Reading in batches gives what reading field by field gives.
use pai.Prelude.{
  ℕ, ◌+◌, ◌*◌, ◌<◌, ◌≤◌, ◌≡◌, refl, sym, ap, ◌∙◌, false, Option, some, List, [], ◌∷◌, ◌++◌, map,
  append-nil, append_assoc, arith, length, length-append, All, Bytes, Bool-cases, inl, inr,
}
use pai.Panel.Eeprom.{IndexAddress, Run, done, nothing, send, is_full, batches, eeprom_batch_reader}
use pai.Panel.Eeprom.Runs.{slice, IsRun, IsRun-snoc, field_of, fields-map}

map-concat {ℓ κ} :
    {A : Type ℓ} {B : Type κ} (f : A → B) (xs ys : List A) → map f (xs ++ ys) ≡ map f xs ++ map f ys
map-concat f [] ys = refl
map-concat f (x ∷ xs) ys = ap (◌∷◌ (f x)) (map-concat f xs ys)

-- A batch holds neighbouring fields, and no more than fit one answer.
abbrev IsBatch : ℕ → List IndexAddress → Type 0
IsBatch n [] = Unit
IsBatch n (first ∷ batch) = IsRun n first.address (first ∷ batch)

module _ (read : ℕ → ℕ → Option Bytes) (max n : ℕ) where
  IsBatch-snoc :
      (batch : List IndexAddress) (ia : IndexAddress)
      → IsBatch n batch
      → is_full read max n batch ia ≡ false
      → IsBatch n (batch ++ ia ∷ [])
  unfolding is_full
  IsBatch-snoc [] ia b h = (refl, tt)
  IsBatch-snoc (first ∷ batch) ia b h =
      IsRun-snoc n first.address (first ∷ batch) ia b (ground arith)

  fits-snoc :
      (batch : List IndexAddress) (ia : IndexAddress)
      → n ≤ max
      → is_full read max n batch ia ≡ false
      → length (batch ++ ia ∷ []) * n ≤ max
  unfolding is_full
  fits-snoc [] ia w h = omega arith
  fits-snoc (first ∷ batch) ia w h =
      let longer : length ((first ∷ batch) ++ ia ∷ []) ≡ length (first ∷ batch) + 1 =
        length-append (first ∷ batch) (ia ∷ []) in
      rw longer (ground arith)

  -- The requests, whatever the panel answers.
  send-fits :
      (batch : List IndexAddress) (next : Run)
      → length batch * n ≤ max
      → All (λ (r : ℕ × ℕ). r.1 ≤ max) next.requests
      → All (λ (r : ℕ × ℕ). r.1 ≤ max) (send read max n batch next).requests
  unfolding send
  send-fits [] next f h = tt
  send-fits (first ∷ batch) next f h = ground (arith, h)

  batches-fits :
      (batch addresses : List IndexAddress)
      → n ≤ max
      → length batch * n ≤ max
      → All (λ (r : ℕ × ℕ). r.1 ≤ max) (batches read max n batch addresses).requests
  unfolding batches
  batches-fits batch [] w f = send-fits batch (nothing done) f tt
  batches-fits batch (ia ∷ addresses) w f = elim (Bool-cases (is_full read max n batch ia)) [
    | inl e ↦
        rw (e, batches) (send-fits batch _ f (batches-fits (ia ∷ []) addresses w (omega arith)))
    | inr e ↦ rw (e, batches) (batches-fits (batch ++ ia ∷ []) addresses w (fits-snoc batch ia w e))
  ]

  -- If one field fits an answer of the panel, no request asks for more than fits one.
  pub requests_fit :
      (addresses : List IndexAddress)
      → n ≤ max
      → All (λ (r : ℕ × ℕ). r.1 ≤ max) (eeprom_batch_reader read max n addresses).requests
  unfolding eeprom_batch_reader
  requests_fit addresses w = ground (arith, batches-fits [] addresses w)

  module _ (memory : ℕ → ℕ) (answers : (a len : ℕ) → read a len ≡ some (slice memory a len))
      (positive : 0 < n) where
    send-yields :
        (first : IndexAddress) (batch : List IndexAddress) (next : Run)
        → IsBatch n (first ∷ batch)
        → ((send read max n (first ∷ batch) next).yields
            ≡ map (field_of memory n) (first ∷ batch) ++ next.yields)
          × ((send read max n (first ∷ batch) next).end ≡ next.end)
    unfolding send
    send-yields first batch next b =
        let total = length (first ∷ batch) in
        let start : first.address ≡ first.address + 0 * n = omega arith in
        let cut =
          fields-map memory n first.address 0 total (first ∷ batch) (start, rw (← start) b.1)
            (omega arith) in
        let some_bytes : 0 < total * n = grind arith in
        ground (arith, cut, answers first.address (total * n))

    batches-yields :
        (batch addresses : List IndexAddress)
        → IsBatch n batch
        → ((batches read max n batch addresses).yields
            ≡ map (field_of memory n) (batch ++ addresses))
          × ((batches read max n batch addresses).end ≡ done)
    unfolding batches
    batches-yields [] [] b = (refl, refl)
    batches-yields (first ∷ batch) [] b =
        rw append-nil
          (let s = send-yields first batch (nothing done) b in (s.0 ∙ append-nil _, s.1))
    batches-yields [] (ia ∷ addresses) b = (batches-yields (ia ∷ []) addresses (refl, tt))
    batches-yields (first ∷ batch) (ia ∷ addresses) b =
        elim (Bool-cases (is_full read max n (first ∷ batch) ia)) [
          | inr e ↦
              let kept = (first ∷ batch) ++ ia ∷ [] in
              let ih = batches-yields kept addresses (IsBatch-snoc (first ∷ batch) ia b e) in
              rw (e, batches) (rw (← append_assoc batch (ia ∷ []) addresses) ih)
          | inl e ↦
              let ih = batches-yields (ia ∷ []) addresses (refl, tt) in
              let s = send-yields first batch (batches read max n (ia ∷ []) addresses) b in
              let joined = map-concat (field_of memory n) (first ∷ batch) (ia ∷ addresses) in
              rw (e, batches) (s.0 ∙ rw ih.0 (sym joined), s.1 ∙ ih.1)
        ]

    -- If the panel answers every request with its memory, every field that is asked for is yielded
    -- once, in order, under its index and with the memory at its own address, as if it had been
    -- read alone; and the generator ends by its own test.
    pub yields_every_field :
        (addresses : List IndexAddress)
        → 0 < max
        → ((eeprom_batch_reader read max n addresses).yields ≡ map (field_of memory n) addresses)
          × ((eeprom_batch_reader read max n addresses).end ≡ done)
    unfolding eeprom_batch_reader
    yields_every_field addresses m = ground (arith, batches-yields [] addresses tt)
