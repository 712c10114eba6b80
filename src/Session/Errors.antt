-- ===== src/Session/Errors.antt =====
-- `get_error_message` of paradox/hardware/panel.py and `handle_error_message` of
-- paradox/paradox.py: what an error reported by the panel leads to.
use text.Mathlib.Text.{◌==◌ as str_eq, find?}
use pai.Prelude.{
  ℕ, String, ◌≡◌, refl, ap, sym, ◌∙◌, Bool-cases, inl, inr, ==_iff, Bool, true, false, ◌&&◌, ◌||◌,
  Option, none, some, arith, ◌==◌, if◌then◌else◌, List, [], ◌∷◌,
}

-- the messages in the order of the tests
abbrev pub messages : List (ℕ × String)
messages =
    (0x00, "Requested command did not work")
    ∷ (0x01, "User Code is invalid")
    ∷ (0x02, "Partition in code lockout (too many bad entries)")
    ∷ (0x05, "Panel will disconnect")
    ∷ (0x10, "Panel Not connected")
    ∷ (0x11, "Panel Already Connected")
    ∷ (0x12, "Invalid PC Password")
    ∷ (0x13, "Winload on phone line")
    ∷ (0x14, "Invalid Module address")
    ∷ (0x15, "Cannot write in RAM")
    ∷ (0x16, "Request to Upgrade Failed")
    ∷ (0x17, "Record number out of range")
    ∷ (0x19, "Invalid record type")
    ∷ (0x1A, "Multi-Bus not supported")
    ∷ (0x1B, "Incorrect number of users")
    ∷ (0x1C, "Invalid label number")
    ∷ []

-- the `if` chain; `error_str` is what str() makes of the code
unfoldable pub message_from : List (ℕ × String) → String → ℕ → String
message_from [] error_str code = error_str
message_from ((c, m) ∷ ms) error_str code =
    let rest = message_from ms error_str code in if code == c then m else rest

abbrev pub get_error_message : String → ℕ → String
get_error_message error_str code = message_from messages error_str code

-- what `handle_error_message` does: it starts a task that disconnects, raises, or only logs
pub data Reaction : Type 0 where
  disconnects authentication_failed code_lockout logged : Reaction

abbrev pub is_in : String → String → Bool
is_in part whole = elim (find? whole part) [ none ↦ false | some i ↦ true ]

abbrev pub react : String → Reaction
react message =
    if str_eq message "Invalid PC Password"
    then authentication_failed
    else if is_in "code lockout" message
    then code_lockout
    else logged

-- `error_enum` is the name that the message format gives to the code, where it has one
unfoldable pub handle_error_message : Option String → String → ℕ → Reaction
handle_error_message none error_str code = react (get_error_message error_str code)
handle_error_message (some error_enum) error_str code =
    if str_eq error_enum "panel_not_connected"
    then disconnects
    else react (get_error_message error_str code)

abbrev pub is_not_connected : Option String → Bool
is_not_connected none = false
is_not_connected (some error_enum) = str_eq error_enum "panel_not_connected"

abbrev pub has_message : List (ℕ × String) → ℕ → Bool
has_message [] code = false
has_message ((c, m) ∷ ms) code = code == c || has_message ms code

abbrev pub expected : ℕ → Reaction
expected code =
    if code == 0x12 then authentication_failed else if code == 0x02 then code_lockout else logged

abbrev same_reaction : Reaction → Reaction → Bool
same_reaction disconnects b = elim b [ disconnects ↦ true | _ ↦ false ]
same_reaction authentication_failed b = elim b [ authentication_failed ↦ true | _ ↦ false ]
same_reaction code_lockout b = elim b [ code_lockout ↦ true | _ ↦ false ]
same_reaction logged b = elim b [ logged ↦ true | _ ↦ false ]

same_reaction_sound : (a b : Reaction) → same_reaction a b ≡ true → a ≡ b
same_reaction_sound disconnects b h = ground arith
same_reaction_sound authentication_failed b h = ground arith
same_reaction_sound code_lockout b h = ground arith
same_reaction_sound logged b h = ground arith

-- every entry of the table leads to the reaction that its code alone says
abbrev all_expected : List (ℕ × String) → Bool
all_expected [] = true
all_expected ((c, m) ∷ ms) = same_reaction (react m) (expected c) && all_expected ms

and_left : (a b : Bool) → a && b ≡ true → a ≡ true
and_left a b h = ground arith

and_right : (a b : Bool) → a && b ≡ true → b ≡ true
and_right a b h = ground arith

react-message_from :
    (ms : List (ℕ × String)) (error_str : String) (code : ℕ)
    → all_expected ms ≡ true
    → has_message ms code ≡ true
    → react (message_from ms error_str code) ≡ expected code
unfolding message_from
react-message_from [] error_str code t h = ground (arith, h)
react-message_from ((c, m) ∷ ms) error_str code t h =
    let sound : same_reaction (react m) (expected c) ≡ true =
      and_left (same_reaction (react m) (expected c)) (all_expected ms) t in
    elim (Bool-cases (code == c)) [
      | inl e ↦ rw e (
          same_reaction_sound (react m) (expected c) sound
          ∙ ap expected (sym ((==_iff code c).0 e)))
      | inr e ↦ rw e (
          react-message_from ms error_str code
            (and_right (same_reaction (react m) (expected c)) (all_expected ms) t)
            (ground (arith, e, h)))
    ]

-- For the errors that have a message of their own, the handler raises AuthenticationFailed for the
-- code 0x12 alone and CodeLockout for the code 0x02 alone, and logs each other one; but for the
-- error that is named panel_not_connected, upon which it disconnects.
pub handle_error_message-expected :
    (error_enum : Option String) (error_str : String) (code : ℕ)
    → has_message messages code ≡ true
    → handle_error_message error_enum error_str code
      ≡ (if is_not_connected error_enum then disconnects else expected code)
unfolding handle_error_message
handle_error_message-expected none error_str code h =
    react-message_from messages error_str code refl h
handle_error_message-expected (some error_enum) error_str code h =
    elim (Bool-cases (str_eq error_enum "panel_not_connected")) [
      | inl e ↦ rw e refl
      | inr e ↦ rw e (react-message_from messages error_str code refl h)
    ]
