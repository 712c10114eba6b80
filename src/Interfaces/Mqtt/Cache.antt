-- ===== src/Interfaces/Mqtt/Cache.antt =====
-- What is published, and published again after a while: `publish` and `republish_loop` of
-- paradox/interfaces/mqtt/core.py.
use pai.Prelude.{
  ℕ, ◌+◌, ◌≤◌, ◌≡◌, String, Bool, List, [], ◌∷◌, leb, if◌then◌else◌, upsert, string_eq, arith, refl,
}

pub record Entry : Type 0 where
  pub value : String
  pub qos : ℕ
  pub retain : Bool
  pub last_publish : ℕ

abbrev pub Cache : Type 0
Cache = List (String × Entry)

-- a message to the client: topic, value, quality of service, and whether it is retained
pub record Sent : Type 0 where
  pub topic : String
  pub value : String
  pub qos : ℕ
  pub retain : Bool

abbrev pub message : String → Entry → Sent
message k e = record { topic = k; value = e.value; qos = e.qos; retain = e.retain }

-- `publish`, at a time
unfoldable pub publish : ℕ → String → String → ℕ → Bool → Cache → Cache × Sent
publish now topic value qos retain cache = (
  upsert cache topic (record { value = value; qos = qos; retain = retain; last_publish = now }),
  record { topic = topic; value = value; qos = qos; retain = retain },
)

-- last_publish <= trigger, where the trigger is the time less the interval
abbrev pub is_due : ℕ → ℕ → Entry → Bool
is_due interval now e = leb (e.last_publish + interval) now

-- One pass of `republish_loop`, for which time stands still: a due entry is published, which puts a
-- new entry in its place.
unfoldable pub republish : ℕ → ℕ → Cache → Cache × List Sent
republish interval now [] = ([], [])
republish interval now ((k, e) ∷ cache) =
    let rest = republish interval now cache in
    if is_due interval now e
    then ((k, record e { last_publish = now }) ∷ rest.0, message k e ∷ rest.1)
    else ((k, e) ∷ rest.0, rest.1)

-- the due entries, as messages
abbrev pub due : ℕ → ℕ → Cache → List Sent
due interval now [] = []
due interval now ((k, e) ∷ cache) =
    let rest = due interval now cache in if is_due interval now e then message k e ∷ rest else rest

abbrev pub messages : Cache → List Sent
messages [] = []
messages ((k, e) ∷ cache) = message k e ∷ messages cache

republish_sends :
    (interval now : ℕ) (cache : Cache) → (republish interval now cache).1 ≡ due interval now cache
unfolding republish
republish_sends interval now [] = refl
republish_sends interval now ((k, e) ∷ cache) = ground (arith, republish_sends interval now cache)

republish_keeps :
    (interval now : ℕ) (cache : Cache) → messages (republish interval now cache).0 ≡ messages cache
unfolding republish
republish_keeps interval now [] = refl
republish_keeps interval now ((k, e) ∷ cache) = ground (arith, republish_keeps interval now cache)

republish_quiet :
    (interval now : ℕ) (cache : Cache)
    → 1 ≤ interval
    → due interval now (republish interval now cache).0 ≡ []
unfolding republish
republish_quiet interval now [] h = refl
republish_quiet interval now ((k, e) ∷ cache) h =
    ground (arith, h, republish_quiet interval now cache)

-- A pass publishes the entries that are due and no others, keeps every message that is known, and
-- leaves nothing due, for an interval that is not 0.
pub republish_settles :
    (interval now : ℕ) (cache : Cache)
    → 1 ≤ interval
    → ((republish interval now cache).1 ≡ due interval now cache)
      × (messages (republish interval now cache).0 ≡ messages cache)
      × (due interval now (republish interval now cache).0 ≡ [])
republish_settles interval now cache h = (
  republish_sends interval now cache,
  republish_keeps interval now cache,
  republish_quiet interval now cache h,
)
