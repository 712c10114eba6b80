-- ===== src/Interfaces/Mqtt/Control.antt =====
-- The handlers of commands in paradox/interfaces/mqtt/basic.py.
use pai.Prelude.{ℕ, String, Bool, Option, none, some, List, [], ◌∷◌, ◌++◌, string_eq, split}
use pai.Session.Control.{Answer, returns, panel_error, type_error}
use pai.Panel.Commands.Sessions.{Kind, partition}
use pai.Interfaces.Text.{get_or}
use pai.Interfaces.Mqtt.Challenge.{
  Secret, Challenge, Report, passed, refused, attribute_error, unbound, Validated, validate,
}
use pai.Interfaces.Mqtt.Toggle.{Resolution, proceed, ignore, fails, resolve}

-- the settings that the handlers read
pub record Config : Type 0 where
  pub secret : Option Secret
  pub rounds : ℕ
  pub aliases : List (String × String)
  pub codes : List (String × String)

-- What is published as the command status, with the call of the alarm and the user: that it is about
-- to be made, and whether it was accepted.
pub data Status (C : Type 0) : Type 0 where
  authentication : Report → Status C
  announced : C → Option String → Status C
  ended : Bool → C → Option String → Status C

-- what a handler leaves: the challenge, the calls of the alarm, and what it has published
pub record Handled (C : Type 0) : Type 0 where
  pub challenge : Challenge
  pub calls : List C
  pub statuses : List (Status C)

-- a call of the alarm for an element and a command, and one of `send_panic`, for a partition, a type
-- and a user
abbrev pub Order : Type 0
Order = Kind × Option String × String

abbrev pub Panic : Type 0
Panic = Option String × String × String

abbrev pub authentications : {C : Type 0} → List Report → List (Status C)
authentications [] = []
authentications (r ∷ rs) = authentication r ∷ authentications rs

abbrev pub head_or : List String → String
head_or [] = ""
head_or (s ∷ ss) = s

abbrev pub tail_head : List String → Option String
tail_head [] = none
tail_head (s ∷ []) = none
tail_head (s ∷ t ∷ ts) = some t

-- `_extract_command_user`
unfoldable pub extract_command_user : String → String × Option String
extract_command_user command = (head_or (split 32 command), tail_head (split 32 command))

module _ (digest : ℕ → String → String) (config : Config) where
  -- the command and its user, authenticated where there is a secret
  unfoldable pub identify : Challenge → String → String → Validated
  identify challenge nonce content = elim (config.secret) [
    | none ↦ record {
      verdict = passed (extract_command_user content).0 (extract_command_user content).1;
      challenge = challenge;
      reports = [];
    }
    | some secret ↦ validate digest config.rounds secret challenge nonce content
  ]

module _ {C : Type 0} where
  abbrev pub stops : Validated → Handled C
  stops v = record { challenge = v.challenge; calls = []; statuses = authentications v.reports }

  -- the call is made; an exception of the alarm's ends the handler
  abbrev pub give : (C → Answer) → C → Validated → Option String → Handled C
  give alarm call v user = record {
    challenge = v.challenge;
    calls = call ∷ [];
    statuses =
        authentications v.reports
        ++ announced call user ∷ (elim (alarm call) [
          | returns b ↦ ended b call user ∷ []
          | panel_error ↦ []
          | type_error ↦ []
        ]);
  }

  abbrev pub act : (C → Answer) → (String → C) → Validated → Option String → Resolution → Handled C
  act alarm call v user r = elim r [
    | proceed command ↦ give alarm (call command) v user
    | ignore ↦ stops v
    | fails ↦ stops v
  ]

  -- A handler, with what it makes of the command before it gives it; a command that is refused, and
  -- one whose authentication raises, ends it.
  abbrev pub handle_with :
      (String → Resolution) → (C → Answer) → (String → C) → Validated → Handled C
  handle_with meant alarm call v = elim (v.verdict) [
    | passed command user ↦ act alarm call v user (meant command)
    | refused ↦ stops v
    | attribute_error ↦ stops v
    | unbound ↦ stops v
  ]

module _ (digest : ℕ → String → String) (config : Config) (challenge : Challenge)
    (nonce : String) where
  -- `_mqtt_handle_zone_control`, `_mqtt_handle_output_control` and `_mqtt_handle_door_control`
  unfoldable pub handle_control : (Order → Answer) → Kind → Option String → String → Handled Order
  handle_control alarm kind element content =
      handle_with proceed alarm (λ command. (kind, element, command))
        (identify digest config challenge nonce content)

  -- `_mqtt_handle_partition_control`
  unfoldable pub handle_partition_control :
      {V : Type 0}
      → (V → Bool)
      → List (String × List (String × V))
      → (Order → Answer)
      → Option String
      → String
      → Handled Order
  handle_partition_control truthy partitions alarm element content =
      handle_with
        (λ command. resolve truthy config.codes partitions element (get_or config.aliases command))
        alarm (λ command. (partition, element, command))
        (identify digest config challenge nonce content)

  -- `_mqtt_handle_send_panic`, for the third part of the topic; the content is the user
  unfoldable pub handle_send_panic :
      (Panic → Answer) → String → Option String → String → Handled Panic
  handle_send_panic alarm panic_type element content =
      handle_with proceed alarm (λ user_id. (element, panic_type, user_id))
        (identify digest config challenge nonce content)
