-- ===== src/Panel/Commands/Tests.antt =====
-- Commands for two zones, to a Spectra and to an EVO panel.
use pai.Prelude.{
  ℕ, ◌≡◌, ◌≤◌, ◌≢◌, ◌==◌, refl, true, false, Option, none, List, [], ◌∷◌, map, arith, string_eq,
  lookup, lower, if◌then◌else◌, upsert,
}
use pai.Storage.Keys.{Key, number}
use pai.Storage.Container.{Container, one, several, select, select_each, get_index}
use pai.Session.Control.{accepted, control, returns}
use pai.Session.Request.{
  Answer, Exchange, replied, timed_out, reply, timeout_error, send_wait, attempts,
}
use pai.Panel.Commands.{is_answered, requests, pos}
use pai.Panel.Commands.Spectra
use pai.Panel.Commands.Evo
use pai.Panel.Commands.Spectra.{Action, to_element}
use pai.Panel.Commands.Evo.{Request, Sent, mapping_error, sent}
use pai.Panel.Commands.Sessions.{
  zone, door, Commands, spectra, Panel, spectra_panel, commands_of, asked, control_element,
  control_element_answered, control_zones_partial,
}

abbrev key_of : ℕ → Option Key
key_of r = none

abbrev house : Container
house = record { items = (number 1, 10) ∷ (number 2, 11) ∷ (number 3, 12) ∷ []; key_index = [] }

-- the panel answers every request, at the second attempt
abbrev late : ℕ → Exchange ℕ
late attempt = if attempt == 1 then timed_out else replied 64

five : 1 ≤ 5
five = omega arith

abbrev house_panel : Panel ℕ
house_panel = spectra_panel (λ n a. late)

abbrev panel : Commands Action
panel = commands_of true 5 five house_panel

control_element_answered_example :
    (select key_of ◌==◌ house (several (number 1 ∷ number 2 ∷ [])) ≢ [])
    × (is_answered
          (asked key_of ◌==◌ panel house
            (several (number 1 ∷ number 2 ∷ []))
            zone
            "Bypass").exchanges
        ≡ true)
    × ((control_element key_of ◌==◌ panel house
          (several (number 1 ∷ number 2 ∷ []))
          zone
          "Bypass").refreshed
        ≡ true)
unfolding control_element control spectra lower select Spectra.control_zones Spectra.perform_each
    send_wait attempts lookup select_each get_index
control_element_answered_example =
    control_element_answered true 5 five house_panel key_of ◌==◌ house
      (several (number 1 ∷ number 2 ∷ [])) zone "Bypass" refl

-- doors are not implemented for it
no_doors :
    (control_element key_of ◌==◌ panel house (one (number 1)) door "unlock").answer ≡ returns false
unfolding control_element control spectra lower select select_each get_index
no_doors = refl

-- the second zone is not answered for
abbrev second_lost : ℕ → Action → Answer ℕ
second_lost n a = if n == 1 then timeout_error else reply 64

control_zones_partial_example :
    (requests
        (Spectra.control_zones second_lost (number 5 ∷ number 6 ∷ number 7 ∷ []) "bypass").exchanges
      ≡ map (to_element 16) (5 ∷ 6 ∷ []))
    × ((control
          (number 5 ∷ number 6 ∷ number 7 ∷ [])
          (λ ks. (Spectra.control_zones second_lost ks "bypass").ending)).answer
        ≡ returns false)
control_zones_partial_example =
    control_zones_partial second_lost (5 ∷ []) 6 (number 7 ∷ []) refl refl

-- one message for both partitions, and none for a command that the message type does not know
abbrev two : List Key
two = number 1 ∷ number 2 ∷ []

abbrev evo_panel : Request → Sent ℕ
evo_panel a = sent (reply 64)

both_at_once :
    (Evo.control_partitions evo_panel two "arm").exchanges
    ≡ (Evo.on_partitions ((number 1, "arm") ∷ (number 2, "arm") ∷ []), true) ∷ []
unfolding Evo.control_partitions upsert
both_at_once = refl

not_known :
    Evo.control_zones evo_panel two "open" ≡ record { ending = accepted false; exchanges = [] }
unfolding Evo.control_zones lookup
not_known = refl

abbrev every_reply : ℕ → Action → Answer ℕ
every_reply n a = reply 64

-- "pulse" is "on" and "off" for each output
pulsed :
    requests (Spectra.control_outputs every_reply (number 4 ∷ []) "pulse").exchanges
    ≡ record { action = 50; argument = pos 3 } ∷ record { action = 51; argument = pos 3 } ∷ []
unfolding Spectra.control_outputs Spectra.pulse_each requests
pulsed = refl
