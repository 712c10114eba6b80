-- ===== src/Panel/Adapters.antt =====
-- The adapters that turn bytes of the panel's memory into values, without the classes of the
-- library `construct` that they extend: paradox/hardware/evo/adapters.py in Adapters/Evo, and
-- paradox/hardware/spectra_magellan/adapters.py in Adapters/Spectra.
pub mod Evo
pub mod Spectra
mod Tests
use Prim.Native.Nat.{bit_and}
use pai.Prelude.{ℕ, Bool, not, ◌==◌}

-- value & mask != 0
abbrev pub masked : ℕ → ℕ → Bool
masked value mask = not (bit_and value mask == 0)

-- (value & mask) == expected
abbrev pub masks_to : ℕ → ℕ → ℕ → Bool
masks_to value mask expected = bit_and value mask == expected

-- a date and a time as `datetime` holds them
pub record DateTime : Type 0 where
  pub year : ℕ
  pub month : ℕ
  pub day : ℕ
  pub hour : ℕ
  pub minute : ℕ
  pub second : ℕ
