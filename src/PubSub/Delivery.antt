-- ===== src/PubSub/Delivery.antt =====
-- Who gets a message.
use pai.Prelude.{
  ℕ, ◌≡◌, String, Bool, true, false, none, some, List, [], ◌∷◌, ◌++◌, if◌then◌else◌, upsert,
  string_eq, lookup-upsert, lookup-upsert_other, arith, refl, ap, ◌∙◌, sym, append_assoc,
}
use pai.PubSub.{
  Callback, function, future, Listener, same_callback, Listeners, listeners_of, subscribe, remove,
  unsubscribe, update, call, any_sets, call_all, send_message,
}

same_callback_refl : (cb : Callback) → same_callback cb cb ≡ true
same_callback_refl (function a) = ground arith
same_callback_refl (future a) = ground arith

module _ {A : Type 0} where
  call_all-append :
      (done : ℕ → Bool) (kwargs : List (String × A)) (ls : List (Listener A)) (f : ℕ)
      (curried : List (String × A))
      → call_all done kwargs (ls ++ record { callback = function f; curried = curried } ∷ [])
        ≡ call_all done kwargs ls
          ++ record { callback = function f; arguments = update curried kwargs } ∷ []
  unfolding call_all
  call_all-append done kwargs [] f curried = refl
  call_all-append done kwargs (l ∷ ls) f curried =
      let first = call done kwargs l in
      let later : ℕ → Bool = λ g. if any_sets first g then true else done g in
      ap (λ cs. first ++ cs) (call_all-append later kwargs ls f curried)
      ∙ sym (
          append_assoc first (call_all later kwargs ls)
            (record { callback = function f; arguments = update curried kwargs } ∷ []))

  listeners_of-upsert :
      (ls : Listeners A) (topic : String) (l : List (Listener A))
      → listeners_of (upsert ls topic l) topic ≡ l
  listeners_of-upsert ls topic l = ground (arith, lookup-upsert ls topic l)

  listeners_of-upsert_other :
      (ls : Listeners A) (topic other : String) (l : List (Listener A))
      → string_eq.same topic other ≡ false
      → listeners_of (upsert ls topic l) other ≡ listeners_of ls other
  listeners_of-upsert_other ls topic other l n =
      ground (arith, lookup-upsert_other ls topic other l n)

  -- A function that subscribes is called behind the subscribers that were there, with its own
  -- arguments overridden by those of the message, and the calls for another topic are as before.
  pub subscribe-send_message :
      (ls : Listeners A) (f : ℕ) (topic other : String) (curried kwargs : List (String × A))
      (done : ℕ → Bool)
      → string_eq.same topic other ≡ false
      → (send_message (subscribe ls (function f) topic curried) done topic kwargs
          ≡ send_message ls done topic kwargs
            ++ record { callback = function f; arguments = update curried kwargs } ∷ [])
        × (send_message (subscribe ls (function f) topic curried) done other kwargs
            ≡ send_message ls done other kwargs)
  unfolding send_message subscribe
  subscribe-send_message ls f topic other curried kwargs done n =
      let l = listeners_of ls topic ++ record { callback = function f; curried = curried } ∷ [] in
      (
        ap (call_all done kwargs) (listeners_of-upsert ls topic l)
            ∙ call_all-append done kwargs (listeners_of ls topic) f curried,
        ap (call_all done kwargs) (listeners_of-upsert_other ls topic other l n),
      )

  abbrev pub is_fresh : List (Listener A) → Callback → Bool
  is_fresh [] cb = true
  is_fresh (l ∷ ls) cb = if same_callback l.callback cb then false else is_fresh ls cb

  remove-append :
      (ls : List (Listener A)) (cb : Callback) (curried : List (String × A))
      → is_fresh ls cb ≡ true
      → remove (ls ++ record { callback = cb; curried = curried } ∷ []) cb ≡ some ls
  remove-append [] cb curried h = ground (arith, same_callback_refl cb)
  remove-append (l ∷ ls) cb curried h = ground (arith, h, remove-append ls cb curried)

  -- A subscriber that was not there and unsubscribes again leaves every message with the calls that
  -- it had.
  pub unsubscribe-subscribe :
      (ls : Listeners A) (cb : Callback) (topic : String) (curried : List (String × A))
      → is_fresh (listeners_of ls topic) cb ≡ true
      → (after : Listeners A) × (unsubscribe (subscribe ls cb topic curried) cb topic ≡ some after)
        × ((done : ℕ → Bool) (kwargs : List (String × A))
            → send_message after done topic kwargs ≡ send_message ls done topic kwargs)
  unfolding unsubscribe subscribe send_message
  unsubscribe-subscribe ls cb topic curried h =
      let l = listeners_of ls topic ++ record { callback = cb; curried = curried } ∷ [] in
      let gone =
        ap (λ m. remove m cb) (listeners_of-upsert ls topic l)
        ∙ remove-append (listeners_of ls topic) cb curried h in
      (
        upsert (upsert ls topic l) topic (listeners_of ls topic),
        ap (λ o. elim o [ none ↦ none | some m ↦ some (upsert (upsert ls topic l) topic m) ]) gone,
        λ done kwargs.
            ap (call_all done kwargs)
              (listeners_of-upsert (upsert ls topic l) topic (listeners_of ls topic)),
      )
