-- ===== src/Panel/Dump.antt =====
-- Dumping the panel's memory to a file: `dump_memory` and `dump_memory_to_file` of
-- paradox/hardware/evo/panel.py and paradox/hardware/spectra_magellan/panel.py.
use pai.Prelude.{
  ℕ, zero, suc, ◌+◌, ◌*◌, ◌/◌, ◌-◌, ◌≡◌, String, Bytes, List, [], ◌∷◌, ◌++◌, take, drop,
  if◌then◌else◌, arith, string_eq, refl, ap, sym, ◌∙◌,
}
use pai.Session.Request.{Answer, reply, no_reply, timeout_error, connection_error, other_error}

-- a, a + step, ..: n numbers
abbrev pub steps : ℕ → ℕ → ℕ → List ℕ
steps a step zero = []
steps a step (suc n) = a ∷ steps (a + step) step n

-- range(0, stop, step)
abbrev pub range : ℕ → ℕ → List ℕ
range stop step = steps 0 step ((stop + (step - 1)) / step)

-- how the dump ends: after the whole range, at an address without a reply, or with an exception, of
-- `send_wait` or for a kind of memory that is not known
pub data Ending : Type 0 where
  whole : Ending
  unread : ℕ → Ending
  timed_out lost raised unknown_memory : Ending

pub record Dump : Type 0 where
  pub written : Bytes
  pub ended : Ending

abbrev pub stops : Ending → Dump
stops e = record { written = []; ended = e }

abbrev pub then_write : Bytes → Dump → Dump
then_write bs d = record { written = bs ++ d.written; ended = d.ended }

-- `dump_memory_to_file`: `ask a` is how the request for the address a ends, the data its reply has
unfoldable pub dump_memory_to_file : (ℕ → Answer Bytes) → List ℕ → Dump
dump_memory_to_file ask [] = stops whole
dump_memory_to_file ask (a ∷ rest) = elim (ask a) [
  | reply bs ↦ then_write bs (dump_memory_to_file ask rest)
  | no_reply ↦ stops (unread a)
  | timeout_error ↦ stops timed_out
  | connection_error ↦ stops lost
  | other_error ↦ stops raised
]

-- `dump_memory`, for the requests to the two kinds of memory: the RAM of a Spectra panel is asked for
-- at its address and 0x8000
module _ (ram eeprom : ℕ → Answer Bytes) where
  unfoldable pub evo_dump_memory : String → Dump
  evo_dump_memory memory_type =
      if string_eq.same memory_type "ram"
      then dump_memory_to_file ram (range 59 1)
      else if string_eq.same memory_type "eeprom"
      then dump_memory_to_file eeprom (range 65535 64)
      else stops unknown_memory

  unfoldable pub spectra_dump_memory : String → Dump
  spectra_dump_memory memory_type =
      if string_eq.same memory_type "ram"
      then dump_memory_to_file (λ a. ram (a + 32768)) (range 9 1)
      else if string_eq.same memory_type "eeprom"
      then dump_memory_to_file eeprom (range 4095 32)
      else stops unknown_memory

take_then : (a b n : ℕ) (m : Bytes) → n ≡ a + b → take a m ++ take b (drop a m) ≡ take n m
take_then zero b n m e = ground (arith, e)
take_then (suc a) b zero m e = ground (arith, e)
take_then (suc a) zero (suc n) [] e = refl
take_then (suc a) (suc b) (suc n) [] e = refl
take_then (suc a) b (suc n) (x ∷ m) e = ap (◌∷◌ x) (take_then a b n m (omega (arith, e)))

drop_then : (a b n : ℕ) (m : Bytes) → n ≡ a + b → drop b (drop a m) ≡ drop n m
drop_then zero b n m e = ground (arith, e)
drop_then (suc a) b zero m e = ground (arith, e)
drop_then (suc a) zero (suc n) [] e = refl
drop_then (suc a) (suc b) (suc n) [] e = refl
drop_then (suc a) b (suc n) (x ∷ m) e = drop_then a b n m (omega (arith, e))

module _ (memory : Bytes) (step : ℕ) where
  -- the panel replies to a request with the bytes from the address on
  abbrev pub honest : ℕ → Answer Bytes
  honest a = reply (take step (drop a memory))

  dump_steps :
      (n a : ℕ)
      → dump_memory_to_file honest (steps a step n)
        ≡ record { written = take (n * step) (drop a memory); ended = whole }
  unfolding dump_memory_to_file
  dump_steps zero a = ground arith
  dump_steps (suc n) a =
      let later = dump_steps n (a + step) in
      ap (then_write (take step (drop a memory))) later
      ∙ ap (λ bs. record { written = bs; ended = whole })
          (ap (λ m. take step (drop a memory) ++ take (n * step) m)
              (sym (drop_then a step (a + step) memory refl))
            ∙ take_then step (n * step) (suc n * step) (drop a memory) (omega arith))

-- Where the panel answers every request with its memory, the dump of the EEPROM has the first 64
-- KiB of it on an EVO panel and the first 4 KiB on a Spectra panel, and is whole.
pub dump_memory_whole :
    (ram : ℕ → Answer Bytes) (memory : Bytes)
    → (evo_dump_memory ram (honest memory 64) "eeprom"
        ≡ record { written = take 65536 memory; ended = whole })
      × (spectra_dump_memory ram (honest memory 32) "eeprom"
          ≡ record { written = take 4096 memory; ended = whole })
unfolding evo_dump_memory spectra_dump_memory
dump_memory_whole ram memory = (dump_steps memory 64 1024 0, dump_steps memory 32 128 0)
