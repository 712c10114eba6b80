-- ===== src/PubSub.antt =====
-- Publishing and subscribing by topic: paradox/lib/ps.py.
pub mod Delivery
pub mod Wiring
mod Tests
use pai.Prelude.{
  ℕ, ◌≡◌, ◌≢◌, String, Bool, true, false, Option, none, some, List, [], ◌∷◌, ◌++◌, ◌==◌,
  if◌then◌else◌, lookup, upsert, string_eq, concat,
}

-- A subscriber is a function or a future, which is a number here, and is called with the curried
-- arguments overridden by those of the message.
pub data Callback : Type 0 where
  function future : ℕ → Callback

pub record Listener (A : Type 0) : Type 0 where
  pub callback : Callback
  pub curried : List (String × A)

abbrev pub same_callback : Callback → Callback → Bool
same_callback (function a) (function b) = a == b
same_callback (function a) (future b) = false
same_callback (future a) (function b) = false
same_callback (future a) (future b) = a == b

abbrev pub Listeners : Type 0 → Type 0
Listeners A = List (String × List (Listener A))

-- a call of a function, or the setting of a future, with the arguments
pub record Call (A : Type 0) : Type 0 where
  pub callback : Callback
  pub arguments : List (String × A)

module _ {A : Type 0} where
  -- listeners[topic], for a defaultdict(list)
  abbrev pub listeners_of : Listeners A → String → List (Listener A)
  listeners_of ls topic = elim (lookup ls topic) [ none ↦ [] | some l ↦ l ]

  -- `PubSub.subscribe`
  unfoldable pub subscribe : Listeners A → Callback → String → List (String × A) → Listeners A
  subscribe ls callback topic curried =
      upsert ls topic
        (listeners_of ls topic ++ record { callback = callback; curried = curried } ∷ [])

  -- list.remove of a listener, which compares the callbacks alone; none is the ValueError
  abbrev pub remove : List (Listener A) → Callback → Option (List (Listener A))
  remove [] callback = none
  remove (l ∷ ls) callback =
      let rest = remove ls callback in
      if same_callback l.callback callback
      then some ls
      else (elim rest [ none ↦ none | some r ↦ some (l ∷ r) ])

  -- `PubSub.unsubscribe`
  unfoldable pub unsubscribe : Listeners A → Callback → String → Option (Listeners A)
  unsubscribe ls callback topic = elim (remove (listeners_of ls topic) callback) [
    | none ↦ none
    | some l ↦ some (upsert ls topic l)
  ]

  -- kwargs2.update(**kwargs)
  abbrev pub update : List (String × A) → List (String × A) → List (String × A)
  update d [] = d
  update d ((k, v) ∷ kwargs) = update (upsert d k v) kwargs

  -- `Listener.call`: a future that is done already is left as it is
  abbrev pub call : (ℕ → Bool) → List (String × A) → Listener A → List (Call A)
  call done kwargs l = elim (l.callback) [
    | function f ↦ record { callback = function f; arguments = update l.curried kwargs } ∷ []
    | future f ↦
        if done f
        then []
        else record { callback = future f; arguments = update l.curried kwargs } ∷ []
  ]

  abbrev pub sets : Call A → ℕ → Bool
  sets c f = elim (c.callback) [ function g ↦ false | future g ↦ g == f ]

  abbrev pub any_sets : List (Call A) → ℕ → Bool
  any_sets [] f = false
  any_sets (c ∷ cs) f = if sets c f then true else any_sets cs f

  -- the calls of asyncio.gather, in the order of the listeners; a future that one of them sets is
  -- done for those after it
  unfoldable pub call_all : (ℕ → Bool) → List (String × A) → List (Listener A) → List (Call A)
  call_all done kwargs [] = []
  call_all done kwargs (l ∷ ls) =
      call done kwargs l
      ++ call_all (λ f. if any_sets (call done kwargs l) f then true else done f) kwargs ls

  -- `PubSub.sendMessage`
  unfoldable pub send_message :
      Listeners A → (ℕ → Bool) → String → List (String × A) → List (Call A)
  send_message ls done topic kwargs = call_all done kwargs (listeners_of ls topic)

-- the topics of the module's own functions have a prefix
abbrev pub prefix : String
prefix = "pai_"

abbrev pub topic_of : String → String
topic_of name = concat prefix name
