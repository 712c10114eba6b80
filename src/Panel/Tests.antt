-- ===== src/Panel/Tests.antt =====
-- Messages, logins and dumps at concrete ones.
use pai.Prelude.{
  ℕ, ◌≡◌, ◌≢◌, ◌↔◌, ◌/◌, true, false, ◌&&◌, ◌==◌, some, none, [], ◌∷◌, refl, Bytes, arith, take,
  replicate, length, Bool, inl,
}
use pai.Session.Request.{Answer, reply, timeout_error}
use pai.Panel.Parsing.{
  from_panel, to_panel, evo_choice, spectra_choice, base_choice, index_error, live_event,
  error_message, Format, start_communication_response,
}
use pai.Panel.Parsing.Commands.{command_of, choice-command_of, choice_settled}
use pai.Panel.Parsing.Handling.{
  Fields, on_connection_message, on_connection_message_iff, event_can_handle,
}
use pai.Panel.Login.{
  success, number, letters, absent, encode_password, packed, evo_initialize_communication,
  spectra_initialize_communication, encode_password-packed, encode_password_injective,
  login_success, spectra_login_refused,
}
use pai.Panel.Dump.{whole, evo_dump_memory, spectra_dump_memory, honest, dump_memory_whole}

abbrev rest : Bytes
rest = 255 ∷ 0 ∷ 1 ∷ 20 ∷ 21 ∷ []

choice-command_of_example : command_of live_event ≡ some (226 / 16)
unfolding evo_choice base_choice
choice-command_of_example = choice-command_of 226 rest live_event (inl refl)

choice_settled_example :
    (evo_choice to_panel (112 ∷ 0 ∷ 0 ∷ 0 ∷ 0 ∷ []) ≢ index_error)
    × (spectra_choice to_panel (112 ∷ 0 ∷ 0 ∷ 0 ∷ 0 ∷ []) ≢ index_error)
choice_settled_example = choice_settled to_panel 112 0 0 0 0 []

-- a message of one byte may be too short
short : evo_choice from_panel (114 ∷ []) ≡ index_error
unfolding evo_choice base_choice
short = refl

-- a live event and an error, as long as their formats
abbrev ff : ℕ
ff = 255

abbrev behind : Bytes
behind = replicate 35 0

abbrev as_long : Format → Bytes → Bool
as_long f m = elim f [ live_event ↦ length m == 37 | _ ↦ true ]

on_connection_message_iff_example :
    (((on_connection_message as_long true (226 ∷ ff ∷ behind)).event ≡ true) ↔ (
      (true ≡ true)
      × (226 / 16 ≡ 14)
      × (ff ≡ 255)
      × (as_long live_event (226 ∷ ff ∷ behind) ≡ true)))
    × (((on_connection_message as_long true (226 ∷ ff ∷ behind)).error ≡ true) ↔ (
        (true ≡ true)
        × (226 / 16 ≡ 7)
        × ((226 == 114) && (ff == 255) ≡ false)
        × (as_long error_message (226 ∷ ff ∷ behind) ≡ true)))
on_connection_message_iff_example = on_connection_message_iff as_long true 226 ff behind

taken : (on_connection_message as_long true (226 ∷ ff ∷ behind)).event ≡ true
unfolding on_connection_message evo_choice base_choice event_can_handle
taken = refl

-- what is too short does not parse, and what comes before there is a panel is dropped
dropped :
    ((on_connection_message as_long true (226 ∷ ff ∷ [])).event ≡ false)
    × ((on_connection_message as_long false (226 ∷ ff ∷ behind)).event ≡ false)
unfolding on_connection_message evo_choice base_choice event_can_handle
dropped = (refl, refl)

abbrev pin : ℕ
pin = 1234

encode_password-packed_example : encode_password (number pin) ≡ some (packed pin)
encode_password-packed_example = encode_password-packed pin (omega arith)

encode_password_injective_example : pin ≡ pin
encode_password_injective_example =
    encode_password_injective pin pin (omega arith) (omega arith) refl

-- a text of digits is sent as the number is, None as 0, and five digits cannot be sent
texts :
    (encode_password (letters "0123") ≡ encode_password (number 123))
    × (encode_password absent ≡ encode_password (number 0))
    × (encode_password (number 12345) ≡ none)
unfolding encode_password
texts = (refl, refl, refl)

abbrev panel : Bytes → Answer ℕ
panel p = reply 1

login_success_example :
    ((evo_initialize_communication panel (number pin) ≡ success)
      ↔ ((p : Bytes) × (encode_password (number pin) ≡ some p) × (panel p ≡ reply 1)))
    × ((spectra_initialize_communication panel (number pin) ≡ success)
        ↔ ((p : Bytes) × (encode_password (number pin) ≡ some p) × (panel p ≡ reply 16)))
login_success_example = login_success panel (number pin)

abbrev zero_fields : Fields
zero_fields = record { command = 0; requested_event_nr = false; message = false }

spectra_login_refused_example : start_communication_response ≡ start_communication_response
spectra_login_refused_example =
    spectra_login_refused start_communication_response zero_fields refl refl

abbrev mute : ℕ → Answer Bytes
mute a = timeout_error

abbrev memory : Bytes
memory = 1 ∷ 2 ∷ 3 ∷ []

dump_memory_whole_example :
    (evo_dump_memory mute (honest memory 64) "eeprom"
      ≡ record { written = take 65536 memory; ended = whole })
    × (spectra_dump_memory mute (honest memory 32) "eeprom"
        ≡ record { written = take 4096 memory; ended = whole })
dump_memory_whole_example = dump_memory_whole mute memory
