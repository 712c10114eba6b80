-- ===== src/Panel/Eeprom/Tests.antt =====
-- Runs of the batch reader at concrete inputs, and its theorems at such inputs.
use pai.Prelude.{ℕ, ◌*◌, ◌%◌, ◌≤◌, ◌≡◌, refl, Option, some, List, [], ◌∷◌, map, arith, All, Bytes}
use pai.Panel.Eeprom.{IndexAddress, done, eeprom_batch_reader}
use pai.Panel.Eeprom.Runs.{slice, field_of}
use pai.Panel.Eeprom.Reads.{requests_fit, yields_every_field}

abbrev memory : ℕ → ℕ
memory a = (a * 7) % 256

abbrev answering : ℕ → ℕ → Option Bytes
answering a n = some (slice memory a n)

abbrev at : ℕ → ℕ → IndexAddress
at i a = record { idx = i; address = a }

-- three neighbours, of which two fit one answer, and one elsewhere
abbrev addresses : List IndexAddress
addresses = at 1 100 ∷ at 2 102 ∷ at 3 104 ∷ at 4 300 ∷ []

three_requests :
    (eeprom_batch_reader answering 4 2 addresses).requests ≡ (100, 4) ∷ (104, 2) ∷ (300, 2) ∷ []
unfolding eeprom_batch_reader slice
three_requests = refl

requests_fit_example :
    All (λ (r : ℕ × ℕ). r.1 ≤ 4) (eeprom_batch_reader answering 4 2 addresses).requests
requests_fit_example = requests_fit answering 4 2 addresses (omega arith)

yields_every_field_example :
    ((eeprom_batch_reader answering 4 2 addresses).yields ≡ map (field_of memory 2) addresses)
    × ((eeprom_batch_reader answering 4 2 addresses).end ≡ done)
yields_every_field_example =
    yields_every_field answering 4 2 memory (λ a len. refl) (omega arith) addresses (omega arith)
