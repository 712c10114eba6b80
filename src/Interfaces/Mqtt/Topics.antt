-- ===== src/Interfaces/Mqtt/Topics.antt =====
-- From a message to the parts of its topic: `mqtt_handle_decorator` of
-- paradox/interfaces/mqtt/basic.py, and the topics of paradox/interfaces/mqtt/helpers.py.
use Prim.Native.Char.{Char}
use Prim.Native.String.{◌∷◌ as ◌then◌}
use pai.Prelude.{
  ◌≡◌, String, Bool, true, false, not, ◌||◌, Option, none, some, List, [], ◌∷◌, ltb, length,
  if◌then◌else◌, split, split_text, strip, arith, get_elem?, join, occurs, concat, lacks,
  split-concat, split_none, concat_assoc, split_text-concat, ap, ◌≢◌, ◌∙◌,
}

pub record Message : Type 0 where
  pub retain : Bool
  pub topic : String
  pub payload : String

-- `ParsedMessage`; element is None for a short topic
pub record Parsed : Type 0 where
  pub topics : List String
  pub element : Option String
  pub content : String

-- The wrapper: none where the message is ignored, with an error or without one. `alarm` is whether
-- there is one.
unfoldable pub parse : String → Bool → Message → Option Parsed
parse base alarm m =
    if m.retain || not alarm then none else elim (get_elem? (split_text base 0 m.topic) 1) [
      | none ↦ none
      | some topic ↦
          if ltb (length (split 47 topic)) 3
          then none
          else some (record {
            topics = split 47 topic;
            element = get_elem? (split 47 topic) 3;
            content = strip m.payload;
          })
    ]

-- `get_control_topic_prefix`
unfoldable pub get_control_topic_prefix : String → String → String → String
get_control_topic_prefix base control element_topic = join "/" (base ∷ control ∷ element_topic ∷ [])

abbrev pub slash : Char
slash = "/"

-- the part of the topic behind the base
abbrev pub below : String → String → String → String
below control element_topic element =
    slash then concat control (slash then concat element_topic (slash then element))

module _ (base control element_topic element : String) where
  split-below :
      lacks 47 control ≡ true
      → lacks 47 element_topic ≡ true
      → lacks 47 element ≡ true
      → split 47 (below control element_topic element) ≡ "" ∷ control ∷ element_topic ∷ element ∷ []
  unfolding split
  split-below c t e = ground (
    arith,
    split-concat slash control (concat element_topic (slash then element)),
    split-concat slash element_topic element,
    split_none 47 element,
  )

  -- the topic of an element, below the prefix that `on_connect` subscribes to
  abbrev pub topic_of : String
  topic_of = concat (get_control_topic_prefix base control element_topic) (slash then element)

  topic_of-below : topic_of ≡ concat base (below control element_topic element)
  unfolding get_control_topic_prefix join concat
  topic_of-below =
      concat_assoc base (slash then concat control (slash then element_topic)) (slash then element)
      ∙ ap (λ s. concat base (slash then s))
          (concat_assoc control (slash then element_topic) (slash then element))

  -- A command for an element, under the base topic and the control topic, is taken apart into its
  -- element, with the payload stripped, where none of the names has a slash and the base topic does
  -- not occur in the rest; and it is ignored when it is a retained one or there is no alarm.
  pub parse-below :
      (retain alarm : Bool) (payload : String)
      → base ≢ ""
      → occurs base (below control element_topic element) ≡ false
      → lacks 47 control ≡ true
      → lacks 47 element_topic ≡ true
      → lacks 47 element ≡ true
      → parse base alarm (record { retain = retain; topic = topic_of; payload = payload }) ≡ (
          if retain || not alarm
          then none
          else some (record {
            topics = "" ∷ control ∷ element_topic ∷ element ∷ [];
            element = some element;
            content = strip payload;
          }))
  unfolding parse
  parse-below retain alarm payload b o c t e = ground (
    arith,
    topic_of-below,
    split_text-concat base (below control element_topic element) b o,
    split-below c t e,
  )
