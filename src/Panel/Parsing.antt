-- ===== src/Panel/Parsing.antt =====
-- Which message format a message is parsed with: `parse_message` of paradox/hardware/panel.py and of
-- the two kinds of panels (paradox/hardware/evo/panel.py,
-- paradox/hardware/spectra_magellan/panel.py). The formats are declared for the library construct.
pub mod Commands
pub mod Handling
use pai.Prelude.{
  ℕ, ◌/◌, ◌≡◌, Bool, true, false, not, Bytes, Option, none, some, List, [], ◌∷◌, ◌==◌, ltb, length,
  get_elem?, if◌then◌else◌, ◌-◌,
}

pub data Direction : Type 0 where
  to_panel from_panel : Direction

-- the formats, by the names that they have in the modules of parsers
pub data Format : Type 0 where
  initiate_communication start_communication close_connection initialize_communication : Format
  set_time_date perform_action perform_partition_action perform_zone_action read_eeprom : Format
  initiate_communication_response start_communication_response : Format
  initialize_communication_response login_confirmation_response error_message : Format
  set_time_date_response perform_action_response perform_zone_action_response : Format
  read_status_response read_eeprom_response live_event requested_event : Format

-- the outcome of the tests: a format, no format, or an IndexError for a message that is too short
pub data Choice : Type 0 where
  format : Format → Choice
  nothing index_error : Choice

-- a condition, in the order of its tests: none is the IndexError
abbrev pub and_also : Option Bool → Option Bool → Option Bool
and_also none b = none
and_also (some false) b = some false
and_also (some true) b = b

abbrev pub when : Option Bool → Choice → Choice → Choice
when none a b = index_error
when (some true) a b = a
when (some false) a b = b

-- message[i], in a test
abbrev pub test : Bytes → ℕ → (ℕ → Bool) → Option Bool
test m i p = elim (get_elem? m i) [ none ↦ none | some b ↦ some (p b) ]

-- message[-k]
abbrev pub test_back : Bytes → ℕ → (ℕ → Bool) → Option Bool
test_back m k p = if ltb (length m) k then none else test m (length m - k) p

abbrev pub is : ℕ → ℕ → Bool
is n b = b == n

abbrev pub nibble : ℕ → ℕ → Bool
nibble n b = (b / 16) == n

-- `Panel.parse_message`
unfoldable pub base_choice : Direction → Bytes → Choice
base_choice d [] = nothing
base_choice to_panel (b ∷ bs) =
    when (and_also (some (is 114 b)) (test (b ∷ bs) 1 (is 0))) (format initiate_communication)
      (when (some (is 95 b)) (format start_communication) nothing)
base_choice from_panel (b ∷ bs) =
    when (and_also (some (is 114 b)) (test (b ∷ bs) 1 (is 255)))
      (format initiate_communication_response)
      (when (and_also (some (is 0 b)) (test (b ∷ bs) 4 (ltb 0)))
        (format start_communication_response) nothing)

abbrev pub or_else : Choice → Choice → Choice
or_else (format f) c = format f
or_else nothing c = c
or_else index_error c = index_error

abbrev pub evo_to_panel : Bytes → ℕ → Choice
evo_to_panel m b = when (some (is 112 b)) (format close_connection) (
    when (some (is 0 b)) (format initialize_communication) (
      when (some (is 48 b)) (format set_time_date) (
        when (some (is 64 b)) (format perform_partition_action)
          (when (some (is 208 b)) (format perform_zone_action) nothing))))

abbrev pub evo_from_panel : Bytes → ℕ → Choice
evo_from_panel m b = when (some (nibble 7 b)) (format error_message) (
    when (some (nibble 1 b)) (format login_confirmation_response) (
      when (some (nibble 3 b)) (format set_time_date_response) (
        when (some (nibble 4 b)) (format perform_action_response) (
          when (some (nibble 13 b)) (format perform_zone_action_response) (
            when (some (nibble 5 b)) (format read_eeprom_response) (
              when (some (nibble 14 b))
                (when (test m 1 (is 255)) (format live_event) (format requested_event))
                nothing))))))

-- `Panel_EVOBase.parse_message`, up to the call of the parser
unfoldable pub evo_choice : Direction → Bytes → Choice
evo_choice d [] = nothing
evo_choice to_panel (b ∷ bs) = or_else (base_choice to_panel (b ∷ bs)) (evo_to_panel (b ∷ bs) b)
evo_choice from_panel (b ∷ bs) =
    or_else (base_choice from_panel (b ∷ bs)) (evo_from_panel (b ∷ bs) b)

abbrev pub spectra_to_panel : Bytes → ℕ → Choice
spectra_to_panel m b =
    when (and_also (some (is 112 b)) (test_back m 5 (λ x. not (is 0 x)))) (format close_connection)
      (when (some (is 0 b)) (format initialize_communication) (
        when (some (is 48 b)) (format set_time_date) (
          when (some (is 64 b)) (format perform_action) (
            when (and_also (some (is 80 b)) (test m 2 (λ x. ltb x 128))) (format read_eeprom)
              nothing))))

abbrev pub spectra_from_panel : Bytes → ℕ → Choice
spectra_from_panel m b = when (some (is 16 b)) (format initialize_communication_response) (
    when (and_also (some (nibble 7 b)) (test_back m 5 (is 0))) (format error_message) (
      when (some (nibble 3 b)) (format set_time_date_response) (
        when (some (nibble 4 b)) (format perform_action_response) (
          when (and_also (some (nibble 5 b)) (test m 2 (is 128))) (format read_status_response) (
            when (and_also (some (nibble 5 b)) (test m 2 (λ x. ltb x 128)))
              (format read_eeprom_response)
              (when (some (nibble 14 b)) (format live_event) nothing))))))

-- `Panel.parse_message` of Spectra and Magellan panels, up to the call of the parser
unfoldable pub spectra_choice : Direction → Bytes → Choice
spectra_choice d [] = nothing
spectra_choice to_panel (b ∷ bs) =
    or_else (base_choice to_panel (b ∷ bs)) (spectra_to_panel (b ∷ bs) b)
spectra_choice from_panel (b ∷ bs) =
    or_else (base_choice from_panel (b ∷ bs)) (spectra_from_panel (b ∷ bs) b)

-- `parse_message`: what the format's parser makes of the message, none for None; the `try` statement
-- takes an IndexError and what the parser raises
abbrev pub parse_with : {C : Type 0} → (Format → Bytes → Option C) → Choice → Bytes → Option C
parse_with parser c m = elim c [ format f ↦ parser f m | nothing ↦ none | index_error ↦ none ]
