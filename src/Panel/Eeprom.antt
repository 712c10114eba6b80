-- ===== src/Panel/Eeprom.antt =====
-- `Panel._eeprom_batch_reader` of paradox/hardware/panel.py: fields of one length are read from the
-- panel's memory in batches of neighbouring addresses.
pub mod Runs
pub mod Reads
mod Tests
use pai.Prelude.{
  ℕ, zero, suc, ◌+◌, ◌*◌, Bool, true, false, not, ◌&&◌, ◌||◌, Option, none, some, List, [], ◌∷◌,
  ◌++◌, length, take, drop, ltb, ◌==◌, if◌then◌else◌, Bytes,
}

pub record IndexAddress : Type 0 where
  pub idx : ℕ
  pub address : ℕ

-- How the generator ends. `wrong_length` is its AssertionError; `no_data` is the TypeError of
-- taking a slice of the `None` that `_eeprom_read_address` gives for a missing reply.
pub data End : Type 0 where
  done wrong_length no_data : End

-- What a run asks of the panel, what it yields, and how it ends.
pub record Run : Type 0 where
  pub requests : List (ℕ × ℕ)
  pub yields : List (ℕ × Bytes)
  pub end : End

abbrev pub nothing : End → Run
nothing e = record { requests = []; yields = []; end = e }

-- for i, ia2 in enumerate(send_batch, start=i)
unfoldable pub fields : ℕ → Bytes → ℕ → List IndexAddress → List (ℕ × Bytes)
fields field_length found i [] = []
fields field_length found i (ia ∷ rest) =
    (ia.idx, take field_length (drop (i * field_length) found))
    ∷ fields field_length found (i + 1) rest

-- `_eeprom_read_address`: address and length to the data of the reply, if there is one
module _ (read : ℕ → ℕ → Option Bytes) (max_eeprom_response_data_length field_length : ℕ) where
  -- a batch is sent, and the generator goes on if there was an answer
  unfoldable pub answer : Option Bytes → ℕ → ℕ → List IndexAddress → Run → Run
  unfolding fields
  answer none address request_length batch next = record {
    requests = (address, request_length) ∷ [];
    yields = [];
    end = no_data;
  }
  answer (some found) address request_length batch next = record {
    requests = (address, request_length) ∷ next.requests;
    yields = fields field_length found 0 batch ++ next.yields;
    end = next.end;
  }

  unfoldable pub send : List IndexAddress → Run → Run
  unfolding answer
  send [] next = nothing done
  send (first ∷ batch) next =
      let request_length = length (first ∷ batch) * field_length in
      if request_length == 0
      then nothing done
      else answer (read first.address request_length) first.address request_length (first ∷ batch)
          next

  -- the condition under which the batch is sent before `ia` is taken up
  unfoldable pub is_full : List IndexAddress → IndexAddress → Bool
  is_full [] ia = false
  is_full (first ∷ batch) ia =
      let batch_len = length (first ∷ batch) in
      not (first.address + batch_len * field_length == ia.address)
      || ltb max_eeprom_response_data_length ((batch_len + 1) * field_length)

  -- the loop; after the last batch the next round finds an empty one, and breaks
  unfoldable pub batches : List IndexAddress → List IndexAddress → Run
  unfolding send is_full
  batches batch [] = send batch (nothing done)
  batches batch (ia ∷ addresses) =
      let sent = send batch (batches (ia ∷ []) addresses) in
      let kept = batches (batch ++ ia ∷ []) addresses in if is_full batch ia then sent else kept

  unfoldable pub eeprom_batch_reader : List IndexAddress → Run
  unfolding batches
  eeprom_batch_reader addresses =
      if ltb max_eeprom_response_data_length 1 then nothing wrong_length else batches [] addresses
