-- ===== src/PubSub/Wiring.antt =====
-- The topics that the session subscribes to (`Paradox.__init__` of paradox/paradox.py), against the
-- topics that `load_memory` of paradox/hardware/panel.py publishes to.
use pai.Prelude.{ℕ, ◌≡◌, String, Bool, false, List, [], ◌∷◌, ◌++◌, refl, ◌∙◌, concat, string_eq}
use pai.PubSub.{function, Listeners, Call, subscribe, send_message, update, topic_of}
use pai.PubSub.Delivery.{subscribe-send_message}

-- the session's methods, as functions
abbrev pub on_labels_load : ℕ
on_labels_load = 0

abbrev pub on_definitions_load : ℕ
on_definitions_load = 1

abbrev pub on_status_update : ℕ
on_status_update = 2

abbrev pub on_event : ℕ
on_event = 3

abbrev pub on_property_change : ℕ
on_property_change = 4

module _ {A : Type 0} where
  -- `ps.subscribe`, without arguments of its own
  abbrev pub hears : Listeners A → ℕ → String → Listeners A
  hears ls f name = subscribe ls (function f) (topic_of name) []

  -- the subscriptions of `Paradox.__init__`, in order
  unfoldable pub subscribe_session : Listeners A → Listeners A
  subscribe_session ls =
      hears
        (hears
          (hears
            (hears (hears ls on_labels_load "labels_loaded") on_definitions_load
              "definitons_loaded")
            on_status_update "status_update")
          on_event "events")
        on_property_change "changes"

  -- `ps.sendMessage`
  unfoldable pub publish : Listeners A → (ℕ → Bool) → String → List (String × A) → List (Call A)
  publish ls done name kwargs = send_message ls done (topic_of name) kwargs

  deaf :
      (ls : Listeners A) (f : ℕ) (name other : String) (done : ℕ → Bool)
      (kwargs : List (String × A))
      → string_eq.same (topic_of name) (topic_of other) ≡ false
      → publish (hears ls f name) done other kwargs ≡ publish ls done other kwargs
  unfolding publish
  deaf ls f name other done kwargs n =
      (subscribe-send_message ls f (topic_of name) (topic_of other) [] kwargs done n).1

  -- The labels that are loaded are passed to the session, behind the subscribers that were there; the
  -- definitions that are loaded are not passed to it at all.
  pub publish-subscribe_session :
      (ls : Listeners A) (done : ℕ → Bool) (kwargs : List (String × A))
      → (publish (subscribe_session ls) done "labels_loaded" kwargs
          ≡ publish ls done "labels_loaded" kwargs
            ++ record { callback = function on_labels_load; arguments = update [] kwargs } ∷ [])
        × (publish (subscribe_session ls) done "definitions_loaded" kwargs
            ≡ publish ls done "definitions_loaded" kwargs)
  unfolding subscribe_session concat publish
  publish-subscribe_session ls done kwargs =
      let l1 = hears ls on_labels_load "labels_loaded" in
      let l2 = hears l1 on_definitions_load "definitons_loaded" in
      let l3 = hears l2 on_status_update "status_update" in
      let l4 = hears l3 on_event "events" in
      (
        deaf l4 on_property_change "changes" "labels_loaded" done kwargs refl
            ∙ deaf l3 on_event "events" "labels_loaded" done kwargs refl
            ∙ deaf l2 on_status_update "status_update" "labels_loaded" done kwargs refl
            ∙ deaf l1 on_definitions_load "definitons_loaded" "labels_loaded" done kwargs refl
            ∙ (subscribe-send_message ls on_labels_load (topic_of "labels_loaded")
                (topic_of "definitions_loaded") [] kwargs done refl).0,
        deaf l4 on_property_change "changes" "definitions_loaded" done kwargs refl
            ∙ deaf l3 on_event "events" "definitions_loaded" done kwargs refl
            ∙ deaf l2 on_status_update "status_update" "definitions_loaded" done kwargs refl
            ∙ deaf l1 on_definitions_load "definitons_loaded" "definitions_loaded" done kwargs refl
            ∙ deaf ls on_labels_load "labels_loaded" "definitions_loaded" done kwargs refl,
      )
