-- ===== src/Panel/Parsing/Handling.antt =====
-- Which of the session's handlers takes a message that has been parsed: paradox/paradox.py,
-- `on_connection_message` and `_register_connection_handlers`, with the handlers of
-- paradox/lib/async_message_manager.py.
use pai.Prelude.{
  ℕ, ◌/◌, ◌≡◌, ◌↔◌, Bool, true, false, not, ◌&&◌, Bytes, Option, none, some, ◌∷◌, ◌==◌, arith,
  if◌then◌else◌,
}
use pai.Panel.Parsing.{
  from_panel, Format, initiate_communication_response, start_communication_response,
  initialize_communication_response, login_confirmation_response, error_message,
  set_time_date_response, perform_action_response, perform_zone_action_response,
  read_status_response, read_eeprom_response, live_event, requested_event, evo_choice, base_choice,
  parse_with,
}

-- what the handlers look at in a parsed message: `po.command`, and whether it has the entries
-- "requested_event_nr" and "message"
pub record Fields : Type 0 where
  pub command : ℕ
  pub requested_event_nr : Bool
  pub message : Bool

-- `EventMessageHandler.can_handle`
unfoldable pub event_can_handle : Fields → Bool
event_can_handle f = (f.command == 14) && not f.requested_event_nr

-- `ErrorMessageHandler.can_handle`
unfoldable pub error_can_handle : Fields → Bool
error_can_handle f = (f.command == 7) && f.message

abbrev pub plain : ℕ → Fields
plain c = record { command = c; requested_event_nr = false; message = false }

-- the entries that the formats of responses declare
abbrev pub initiate_communication_response_fields : Fields
initiate_communication_response_fields = plain 7

abbrev pub start_communication_response_fields : Fields
start_communication_response_fields = plain 0

abbrev pub initialize_communication_response_fields : Fields
initialize_communication_response_fields = plain 16

abbrev pub login_confirmation_response_fields : Fields
login_confirmation_response_fields = plain 1

abbrev pub error_message_fields : Fields
error_message_fields = record (plain 7) { message = true }

abbrev pub set_time_date_response_fields : Fields
set_time_date_response_fields = plain 3

abbrev pub perform_action_response_fields : Fields
perform_action_response_fields = plain 4

abbrev pub perform_zone_action_response_fields : Fields
perform_zone_action_response_fields = plain 13

abbrev pub read_status_response_fields : Fields
read_status_response_fields = plain 5

abbrev pub read_eeprom_response_fields : Fields
read_eeprom_response_fields = plain 5

abbrev pub live_event_fields : Fields
live_event_fields = plain 14

abbrev pub requested_event_fields : Fields
requested_event_fields = record (plain 14) { requested_event_nr = true }

-- Those of a format; the formats without are those of requests. Where both panels have a format of a
-- name, it declares these entries in both.
abbrev pub fields_of : Format → Option Fields
fields_of f = elim f [
  | initiate_communication_response ↦ some initiate_communication_response_fields
  | start_communication_response ↦ some start_communication_response_fields
  | initialize_communication_response ↦ some initialize_communication_response_fields
  | login_confirmation_response ↦ some login_confirmation_response_fields
  | error_message ↦ some error_message_fields
  | set_time_date_response ↦ some set_time_date_response_fields
  | perform_action_response ↦ some perform_action_response_fields
  | perform_zone_action_response ↦ some perform_zone_action_response_fields
  | read_status_response ↦ some read_status_response_fields
  | read_eeprom_response ↦ some read_eeprom_response_fields
  | live_event ↦ some live_event_fields
  | requested_event ↦ some requested_event_fields
  | _ ↦ none
]

-- the handlers that a raw message ends up with
pub record Taken : Type 0 where
  pub event : Bool
  pub error : Bool

abbrev pub taken_by : Option Fields → Taken
taken_by none = record { event = false; error = false }
taken_by (some f) = record { event = event_can_handle f; error = error_can_handle f }

-- `parses f m` is whether construct's parser for the format takes the message; otherwise it raises.
module _ (parses : Format → Bytes → Bool) where
  abbrev pub parsed : Format → Bytes → Option Fields
  parsed f m = if parses f m then fields_of f else none

  -- `on_connection_message`, for an EVO panel or before there is a panel; the exceptions are caught
  unfoldable pub on_connection_message : Bool → Bytes → Taken
  on_connection_message has_panel m =
      if not has_panel
      then taken_by none
      else taken_by (parse_with parsed (evo_choice from_panel m) m)

  -- Once there is a panel, an EVO one, the handler of events gets the messages that start with the
  -- command 14, have 255 behind and are parsed as LiveEvent, and the handler of errors those with the
  -- command 7 that do not answer InitiateCommunication and are parsed as ErrorMessage.
  pub on_connection_message_iff :
      (has_panel : Bool) (b c : ℕ) (bs : Bytes)
      → (((on_connection_message has_panel (b ∷ c ∷ bs)).event ≡ true) ↔ (
          (has_panel ≡ true) × (b / 16 ≡ 14) × (c ≡ 255) × (parses live_event (b ∷ c ∷ bs) ≡ true)))
        × (((on_connection_message has_panel (b ∷ c ∷ bs)).error ≡ true) ↔ (
            (has_panel ≡ true)
            × (b / 16 ≡ 7)
            × ((b == 114) && (c == 255) ≡ false)
            × (parses error_message (b ∷ c ∷ bs) ≡ true)))
  unfolding on_connection_message evo_choice base_choice event_can_handle error_can_handle
  on_connection_message_iff has_panel b c bs = ground arith
