-- ===== src/Interfaces/Tests.antt =====
-- A command as a text, to an alarm that takes what it gets.
use pai.Prelude.{
  ◌≡◌, ◌↔◌, String, true, some, [], ◌∷◌, refl, lookup, split, lower, strip, is_in, string_eq,
}
use pai.Session.Control.{returns}
use pai.Panel.Commands.Sessions.{Kind, zone}
use pai.Interfaces.Text.{
  Alarm, Handled, CallsOnce, get_or, ok, invalid, invalid_command, handle_command,
  handle_command_calls, normalize_command,
}

abbrev willing : Alarm
willing kind element command = returns true

abbrev bypass : Handled
bypass = handle_command [] (some willing) "Zone hall BYPASS"

handle_command_calls_example : (bypass.reply ≡ ok) ↔ (
    (kind : Kind) × (element : String) × (command : String) × CallsOnce
      (split 32 (get_or [] "Zone hall BYPASS"))
      bypass
      kind
      element
      command
    × (willing kind element command ≡ returns true))
handle_command_calls_example = handle_command_calls [] willing "Zone hall BYPASS"

bypassed : (bypass.reply ≡ ok) × (bypass.calls ≡ (zone, "hall", "bypass") ∷ [])
unfolding handle_command split lower strip is_in normalize_command lookup
bypassed = (refl, refl)

too_short : (handle_command [] (some willing) "zone hall").reply ≡ invalid "zone hall"
unfolding handle_command split lookup
too_short = refl

unknown : (handle_command [] (some willing) "zone hall open").reply ≡ invalid_command
unfolding handle_command split lookup lower strip is_in normalize_command
unknown = refl
