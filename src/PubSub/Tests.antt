-- ===== src/PubSub/Tests.antt =====
-- Two subscribers, and the session's.
use pai.Prelude.{
  ℕ, ◌≡◌, Bool, false, String, some, List, [], ◌∷◌, ◌++◌, refl, string_eq, lookup, upsert,
}
use pai.PubSub.{function, future, Listeners, subscribe, unsubscribe, send_message, call_all, update}
use pai.PubSub.Delivery.{subscribe-send_message, unsubscribe-subscribe}
use pai.PubSub.Wiring.{subscribe_session, publish, on_labels_load, publish-subscribe_session}

abbrev nobody : Listeners ℕ
nobody = []

abbrev one : Listeners ℕ
one = ("pai_events", record { callback = function 7; curried = ("level", 1) ∷ [] } ∷ []) ∷ []

abbrev event : List (String × ℕ)
event = ("event", 5) ∷ []

abbrev never : ℕ → Bool
never f = false

abbrev none_given : List (String × ℕ)
none_given = []

subscribe-send_message_example :
    (send_message (subscribe one (function 8) "pai_events" none_given) never "pai_events" event
      ≡ send_message one never "pai_events" event
        ++ record { callback = function 8; arguments = update none_given event } ∷ [])
    × (send_message (subscribe one (function 8) "pai_events" none_given) never "pai_changes" event
        ≡ send_message one never "pai_changes" event)
subscribe-send_message_example =
    subscribe-send_message one 8 "pai_events" "pai_changes" none_given event never refl

unsubscribe-subscribe_example :
    (after : Listeners ℕ) × (unsubscribe
        (subscribe one (function 8) "pai_events" none_given)
        (function 8)
        "pai_events"
      ≡ some after)
    × ((done : ℕ → Bool) (kwargs : List (String × ℕ))
        → send_message after done "pai_events" kwargs ≡ send_message one done "pai_events" kwargs)
unfolding lookup
unsubscribe-subscribe_example = unsubscribe-subscribe one (function 8) "pai_events" none_given refl

publish-subscribe_session_example :
    (publish (subscribe_session one) never "labels_loaded" event
      ≡ publish one never "labels_loaded" event
        ++ record { callback = function on_labels_load; arguments = update none_given event } ∷ [])
    × (publish (subscribe_session one) never "definitions_loaded" event
        ≡ publish one never "definitions_loaded" event)
publish-subscribe_session_example = publish-subscribe_session one never event

-- a future that subscribed twice is set once
set_once :
    send_message
      (subscribe (subscribe nobody (future 3) "t" none_given) (future 3) "t" none_given)
      never
      "t"
      event
    ≡ record { callback = future 3; arguments = event } ∷ []
unfolding send_message subscribe call_all lookup upsert
set_once = refl
