-- ===== src/Interfaces/Text.antt =====
-- Commands and notifications as texts: paradox/interfaces/text/core.py.
use pai.Prelude.{
  ℕ, ◌≡◌, ◌≢◌, ◌↔◌, ◌⊎◌, String, Bool, true, not, ◌&&◌, Option, none, some, List, [], ◌∷◌, leb,
  if◌then◌else◌, lookup, string_eq, split, lower, strip, is_in, arith, Option-cases, refl, inl, inr,
}
use pai.Session.Control.{Answer, returns, panel_error, type_error}
use pai.Panel.Commands.Sessions.{Kind, zone, partition, output, door}

-- the alarm: `control_zone`, .. for an element and a command
abbrev pub Alarm : Type 0
Alarm = Kind → String → String → Answer

-- what the sender is told, or that an exception leaves `handle_command`: InvalidCommand, or one of
-- the alarm's
pub data Reply : Type 0 where
  ok no_alarm invalid_command raised : Reply
  invalid : String → Reply
  command_error : Kind → String → String → Reply
  invalid_element : String → Reply

-- the reply, and the calls of the alarm
pub record Handled : Type 0 where
  pub reply : Reply
  pub calls : List (Kind × String × String)

abbrev pub on_words : List String
on_words = "true" ∷ "on" ∷ "1" ∷ "enable" ∷ []

abbrev pub off_words : List String
off_words = "false" ∷ "off" ∷ "0" ∷ "disable" ∷ []

abbrev pub commands : List String
commands = "pulse" ∷ "arm" ∷ "disarm" ∷ "arm_stay" ∷ "arm_sleep" ∷ "bypass" ∷ "clear_bypass" ∷ []

abbrev pub normal : String → Option String
normal c =
    if is_in c on_words
    then some "on"
    else if is_in c off_words
    then some "off"
    else if is_in c commands
    then some c
    else none

-- `normalize_command`; none is InvalidCommand
unfoldable pub normalize_command : String → Option String
normalize_command command = normal (lower (strip command))

abbrev pub get_or : List (String × String) → String → String
get_or d k = elim (lookup d k) [ none ↦ k | some v ↦ v ]

abbrev pub three : List String → Option (String × String × String)
three [] = none
three (a ∷ []) = none
three (a ∷ b ∷ []) = none
three (a ∷ b ∷ c ∷ []) = some (a, b, c)
three (a ∷ b ∷ c ∷ d ∷ ts) = none

abbrev pub kind_of : String → Option Kind
kind_of s =
    if string_eq.same s "zone"
    then some zone
    else if string_eq.same s "partition"
    then some partition
    else if string_eq.same s "output"
    then some output
    else none

abbrev pub says : Reply → Handled
says r = record { reply = r; calls = [] }

-- the alarm is called, and its answer passed on
abbrev pub command_to : Alarm → Kind → String → String → Handled
command_to alarm kind element command = record {
  reply = elim (alarm kind element command) [
    | returns b ↦ if b then ok else command_error kind element command
    | panel_error ↦ raised
    | type_error ↦ raised
  ];
  calls = (kind, element, command) ∷ [];
}

-- `handle_command`
unfoldable pub handle_command : List (String × String) → Option Alarm → String → Handled
handle_command aliases alarm raw = elim (three (split 32 (get_or aliases raw))) [
  | none ↦ says (invalid raw)
  | some (type, element, command) ↦ elim alarm [
    | none ↦ says no_alarm
    | some a ↦ elim (normalize_command (lower command)) [
      | none ↦ says invalid_command
      | some c ↦ elim (kind_of (lower type)) [
        | none ↦ says (invalid_element element)
        | some k ↦ command_to a k element c
      ]
    ]
  ]
]

-- `notification_filter`
unfoldable pub notification_filter : ℕ → String → ℕ → String → Bool
notification_filter min_level name level sender =
    leb min_level level && not (string_eq.same sender name)

-- what the alarm may be asked for, and the words for the kinds of elements
abbrev pub allowed : List String
allowed =
    "on" ∷ "off" ∷ "pulse" ∷ "arm" ∷ "disarm" ∷ "arm_stay" ∷ "arm_sleep" ∷ "bypass" ∷ "clear_bypass"
    ∷ []

abbrev pub word_of : Kind → String
word_of zone = "zone"
word_of partition = "partition"
word_of output = "output"
word_of door = "door"

module _ (c d : String) where
  is_in-allowed : is_in c commands ≡ true → is_in c allowed ≡ true
  unfolding is_in
  is_in-allowed h = ground (arith, h)

  on_allowed : is_in "on" allowed ≡ true
  unfolding is_in
  on_allowed = refl

  off_allowed : is_in "off" allowed ≡ true
  unfolding is_in
  off_allowed = refl

  normal-allowed : normal c ≡ some d → is_in d allowed ≡ true
  normal-allowed h = ground (arith, h, on_allowed, off_allowed, is_in-allowed)

kind_of_word : (s : String) (k : Kind) → kind_of s ≡ some k → (s ≡ word_of k) × (k ≢ door)
kind_of_word s k h = ground (
  arith,
  h,
  string_eq.same_sound s "zone",
  string_eq.same_sound s "partition",
  string_eq.same_sound s "output",
)

three-words : (ws : List String) (t e w : String) → three ws ≡ some (t, e, w) → ws ≡ t ∷ e ∷ w ∷ []
three-words [] t e w h = ground (arith, h)
three-words (a ∷ []) t e w h = ground (arith, h)
three-words (a ∷ b ∷ []) t e w h = ground (arith, h)
three-words (a ∷ b ∷ c ∷ []) t e w h = ground (arith, h)
three-words (a ∷ b ∷ c ∷ d ∷ ws) t e w h = ground (arith, h)

command_to_ok :
    (alarm : Alarm) (k : Kind) (e c : String)
    → ((command_to alarm k e c).reply ≡ ok) ↔ (alarm k e c ≡ returns true)
command_to_ok alarm k e c = ground arith

-- The one call of the alarm is for the element that the second of three words names, with one of the
-- nine commands; it is a zone, a partition or an output, as the first word says.
abbrev pub CallsOnce : List String → Handled → Kind → String → String → Type 0
CallsOnce words handled kind element command =
    (handled.calls ≡ (kind, element, command) ∷ [])
    × (is_in command allowed ≡ true)
    × (kind ≢ door)
    × (type : String) × (word : String) × (words ≡ type ∷ element ∷ word ∷ [])
    × (lower type ≡ word_of kind)

module _ (aliases : List (String × String)) (alarm : Alarm) (raw : String) where
  abbrev pub handled : Handled
  handled = handle_command aliases (some alarm) raw

  -- A command is refused without a call of the alarm, and then the sender is not told OK, or it
  -- makes one call, and then the sender is told OK exactly when the alarm accepts.
  handle_command-cases :
      ((handled.calls ≡ []) × (handled.reply ≢ ok))
      ⊎ ((kind : Kind) × (element : String) × (command : String) × CallsOnce
            (split 32 (get_or aliases raw))
            handled
            kind
            element
            command
          × ((handled.reply ≡ ok) ↔ (alarm kind element command ≡ returns true)))
  unfolding handle_command normalize_command
  handle_command-cases = elim (Option-cases (three (split 32 (get_or aliases raw)))) [
    | inl n ↦ inl (ground (arith, n), ground (arith, n))
    | inr ((t, e, w), s) ↦ elim (Option-cases (normalize_command (lower w))) [
      | inl n ↦ inl (ground (arith, n, s), ground (arith, n, s))
      | inr (c, n) ↦ elim (Option-cases (kind_of (lower t))) [
        | inl f ↦ inl (ground (arith, n, s, f), ground (arith, n, s, f))
        | inr (k, f) ↦ inr (
          k,
          e,
          c,
          (
            ground (arith, n, s, f),
            normal-allowed (lower (strip (lower w))) c n,
            (kind_of_word (lower t) k f).1,
            t,
            w,
            three-words (split 32 (get_or aliases raw)) t e w s,
            (kind_of_word (lower t) k f).0,
          ),
          ground (arith, n, s, f, command_to_ok alarm k e c),
        )
      ]
    ]
  ]

  -- The sender of a command is told OK exactly when the alarm has been called, once, for the zone,
  -- the partition or the output that the first two of its three words name, with one of the nine
  -- commands, and has accepted.
  pub handle_command_calls : (handled.reply ≡ ok) ↔ (
      (kind : Kind) × (element : String) × (command : String) × CallsOnce
        (split 32 (get_or aliases raw))
        handled
        kind
        element
        command
      × (alarm kind element command ≡ returns true))
  handle_command_calls = elim handle_command-cases [
    | inl (n, r) ↦ (λ e. ground (arith, r, e), λ c. ground (arith, n, c.3.0))
    | inr (k, e, c, once, i) ↦
        (λ r. (k, e, c, once, i.0 r), λ x. i.1 (ground (arith, once.0, x.3.0, x.4)))
  ]
