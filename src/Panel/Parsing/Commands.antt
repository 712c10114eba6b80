-- ===== src/Panel/Parsing/Commands.antt =====
-- The format that is chosen for a message from the panel is one of the message's command.
use pai.Prelude.{
  ℕ, zero, suc, refl, ◌/◌, ◌≡◌, ◌≤◌, ◌<◌, Bool, not, Bytes, Option, none, some, [], ◌∷◌, length,
  get_elem?, ◌-◌, ◌≢◌, arith, ◌⊎◌, inl, inr,
}
use pai.Panel.Parsing.{
  Direction, to_panel, from_panel, Format, initiate_communication, start_communication,
  close_connection, initialize_communication, set_time_date, perform_action,
  perform_partition_action, perform_zone_action, read_eeprom, initiate_communication_response,
  start_communication_response, initialize_communication_response, login_confirmation_response,
  error_message, set_time_date_response, perform_action_response, perform_zone_action_response,
  read_status_response, read_eeprom_response, live_event, requested_event, Choice, format, nothing,
  index_error, base_choice, evo_choice, spectra_choice, evo_from_panel, spectra_from_panel, or_else,
  test_back, is,
}

-- the command, the high half of the first byte, in each format of a response
abbrev pub command_of : Format → Option ℕ
command_of initiate_communication_response = some 7
command_of start_communication_response = some 0
command_of initialize_communication_response = some 1
command_of login_confirmation_response = some 1
command_of error_message = some 7
command_of set_time_date_response = some 3
command_of perform_action_response = some 4
command_of perform_zone_action_response = some 13
command_of read_status_response = some 5
command_of read_eeprom_response = some 5
command_of live_event = some 14
command_of requested_event = some 14
command_of initiate_communication = none
command_of start_communication = none
command_of close_connection = none
command_of initialize_communication = none
command_of set_time_date = none
command_of perform_action = none
command_of perform_partition_action = none
command_of perform_zone_action = none
command_of read_eeprom = none

module _ (b : ℕ) (bs : Bytes) (f : Format) where
  base_command : base_choice from_panel (b ∷ bs) ≡ format f → command_of f ≡ some (b / 16)
  unfolding base_choice
  base_command h = ground (arith, h)

  evo_command : evo_from_panel (b ∷ bs) b ≡ format f → command_of f ≡ some (b / 16)
  evo_command h = ground (arith, h)

  spectra_command : spectra_from_panel (b ∷ bs) b ≡ format f → command_of f ≡ some (b / 16)
  spectra_command h = ground (arith, h)

or_else-cases :
    (c d : Choice) (f : Format) → or_else c d ≡ format f → (c ≡ format f) ⊎ (d ≡ format f)
or_else-cases (format g) d f h = inl h
or_else-cases nothing d f h = inr h
or_else-cases index_error d f h = inl h

-- A message from a panel is parsed with a format of the command that its first byte has, whatever the
-- kind of the panel.
pub choice-command_of :
    (b : ℕ) (bs : Bytes) (f : Format)
    → (evo_choice from_panel (b ∷ bs) ≡ format f) ⊎ (spectra_choice from_panel (b ∷ bs) ≡ format f)
    → command_of f ≡ some (b / 16)
unfolding evo_choice spectra_choice
choice-command_of b bs f (inl h) =
    elim (or_else-cases (base_choice from_panel (b ∷ bs)) (evo_from_panel (b ∷ bs) b) f h) [
      | inl c ↦ base_command b bs f c
      | inr c ↦ evo_command b bs f c
    ]
choice-command_of b bs f (inr h) =
    elim (or_else-cases (base_choice from_panel (b ∷ bs)) (spectra_from_panel (b ∷ bs) b) f h) [
      | inl c ↦ base_command b bs f c
      | inr c ↦ spectra_command b bs f c
    ]

get_elem_defined : (m : Bytes) (i : ℕ) → i < length m → (b : ℕ) × (get_elem? m i ≡ some b)
get_elem_defined [] i h = ground (arith, h)
get_elem_defined (b ∷ m) zero h = (b, refl)
get_elem_defined (b ∷ m) (suc i) h = get_elem_defined m i (omega (arith, h))

test_back_defined :
    (m : Bytes) (p : ℕ → Bool) → 5 ≤ length m → (v : Bool) × (test_back m 5 p ≡ some v)
test_back_defined m p h =
    let d = get_elem_defined m (length m - 5) (omega (arith, h)) in (p d.0, ground (arith, h, d.1))

-- No test reads beyond a message of five bytes or more.
pub choice_settled :
    (d : Direction) (a b c e f : ℕ) (bs : Bytes)
    → (evo_choice d (a ∷ b ∷ c ∷ e ∷ f ∷ bs) ≢ index_error)
      × (spectra_choice d (a ∷ b ∷ c ∷ e ∷ f ∷ bs) ≢ index_error)
unfolding evo_choice spectra_choice base_choice
choice_settled to_panel a b c e f bs =
    let d = test_back_defined (a ∷ b ∷ c ∷ e ∷ f ∷ bs) (λ x. not (is 0 x)) (omega arith) in
    (ground arith, ground (arith, d.1))
choice_settled from_panel a b c e f bs =
    let d = test_back_defined (a ∷ b ∷ c ∷ e ∷ f ∷ bs) (is 0) (omega arith) in
    (ground arith, ground (arith, d.1))
