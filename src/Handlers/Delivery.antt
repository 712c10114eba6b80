-- ===== src/Handlers/Delivery.antt =====
-- What `handle` does with one message, and what registering a future leaves behind.
use pai.Prelude.{
  ◌≡◌, refl, ap, ◌∙◌, Bool, true, false, none, some, List, [], ◌∷◌, ◌++◌, map, arith, if◌then◌else◌,
  All, ◌||◌,
}
use pai.Handlers.{
  Handler, HandlerRegistry, Kind, future, persistent, accepts, can_handle, can_handle_kind,
  call_kind, raises_kind, handled, unhandled, ignored, raised, pass, handle, remove_id, begin_wait,
  end_wait,
}
use pai.Handlers.Removal.{IsFresh}

module _ {Msg : Type 0} where
  -- the message is for this handler
  abbrev pub is_for : Msg → Handler Msg → Bool
  is_for m h = elim (can_handle h m) [ accepts ↦ true | _ ↦ false ]

  -- the handler once the message has been through: a waiting future that it is for is completed
  abbrev pub served : Msg → Handler Msg → Handler Msg
  served m h = record h { kind = if is_for m h then call_kind h.kind m else h.kind }

  abbrev pub any_for : Msg → List (Handler Msg) → Bool
  any_for m [] = false
  any_for m (h ∷ hs) = is_for m h || any_for m hs

  -- the handler takes the message and does not raise, or does not take it
  abbrev pub IsQuiet : Msg → Handler Msg → Type 0
  IsQuiet m h = is_for m h ≡ true → raises_kind h.kind m ≡ false

  pass-quiet :
      (m : Msg) (hs : List (Handler Msg))
      → All (IsQuiet m) hs
      → pass m hs ≡ (map (served m) hs, any_for m hs, false)
  unfolding pass
  pass-quiet m [] q = refl
  pass-quiet m (h ∷ hs) q = ground (arith, pass-quiet m hs q.1, q.0)

  -- Where no handler that takes the message raises: every one that takes it is served, in place,
  -- and the others stay as they are; and an error is logged exactly when none has taken it and
  -- the registry is not told to ignore that.
  pub handle-All :
      (r : HandlerRegistry Msg) (m : Msg)
      → All (IsQuiet m) r.handlers
      → handle r m ≡ (
        record r { handlers = map (served m) r.handlers },
        if any_for m r.handlers
            then handled
            else if r.should_ignore_no_handlers
            then ignored
            else unhandled,
      )
  unfolding handle
  handle-All r m q = ground (arith, pass-quiet m r.handlers q)

  pass-raise :
      (m : Msg) (before : List (Handler Msg)) (h : Handler Msg) (after : List (Handler Msg))
      → All (IsQuiet m) before
      → is_for m h ≡ true
      → raises_kind h.kind m ≡ true
      → pass m (before ++ h ∷ after) ≡ (map (served m) before ++ served m h ∷ after, true, true)
  unfolding pass
  pass-raise m [] h after q e x = ground arith
  pass-raise m (b ∷ before) h after q e x = ground (arith, pass-raise m before h after q.1 e x, q.0)

  -- The first handler that takes the message and raises ends the pass: those before it have been
  -- served, those behind it have not seen the message, and the exception is raised on.
  pub handle_raise :
      (r : HandlerRegistry Msg) (m : Msg) (before : List (Handler Msg)) (h : Handler Msg)
      (after : List (Handler Msg))
      → r.handlers ≡ before ++ h ∷ after
      → All (IsQuiet m) before
      → is_for m h ≡ true
      → raises_kind h.kind m ≡ true
      → handle r m ≡ (record r { handlers = map (served m) before ++ served m h ∷ after }, raised)
  unfolding handle
  handle_raise r m before h after split q e x =
      ground (arith, ap (pass m) split, pass-raise m before h after q e x)

  -- A future that has a result keeps it.
  abbrev pub Keeps : Kind Msg → Kind Msg → Type 0
  Keeps (future check_fn (some result)) k = k ≡ future check_fn (some result)
  Keeps _ k = Unit

  -- The same handlers in the same order, with their names, and with every result that was there.
  abbrev pub Follows : List (Handler Msg) → List (Handler Msg) → Type 0
  Follows [] [] = Unit
  Follows [] (k ∷ ks) = ⊥
  Follows (h ∷ hs) [] = ⊥
  Follows (h ∷ hs) (k ∷ ks) =
      (k.id ≡ h.id) × (k.name ≡ h.name) × Keeps h.kind k.kind × Follows hs ks

  Keeps-refl : (k : Kind Msg) → Keeps k k
  Keeps-refl (future check_fn (some result)) = refl
  Keeps-refl (future check_fn none) = tt
  Keeps-refl (persistent accept raises) = tt

  Keeps-trans : (a b c : Kind Msg) → Keeps a b → Keeps b c → Keeps a c
  Keeps-trans (future check_fn (some result)) b c h k = rw h at k
  Keeps-trans (future check_fn none) b c h k = tt
  Keeps-trans (persistent accept raises) b c h k = tt

  Follows-refl : (hs : List (Handler Msg)) → Follows hs hs
  Follows-refl [] = tt
  Follows-refl (h ∷ hs) = (refl, refl, Keeps-refl h.kind, Follows-refl hs)

  Follows-trans : (a b c : List (Handler Msg)) → Follows a b → Follows b c → Follows a c
  Follows-trans [] [] c h k = k
  Follows-trans [] (y ∷ b) c h k = absurd h
  Follows-trans (x ∷ a) [] c h k = absurd h
  Follows-trans (x ∷ a) (y ∷ b) [] h k = absurd k
  Follows-trans (x ∷ a) (y ∷ b) (z ∷ c) h k =
      (k.0 ∙ h.0, k.1 ∙ h.1, Keeps-trans x.kind y.kind z.kind h.2 k.2, Follows-trans a b c h.3 k.3)

  call-Keeps : (k : Kind Msg) (m : Msg) → can_handle_kind k m ≡ accepts → Keeps k (call_kind k m)
  call-Keeps (future check_fn (some result)) m e = cc
  call-Keeps (future check_fn none) m e = tt
  call-Keeps (persistent accept raises) m e = tt

  pass-Follows : (m : Msg) (hs : List (Handler Msg)) → Follows hs (pass m hs).0
  unfolding pass
  pass-Follows m [] = tt
  pass-Follows m (h ∷ hs) =
      ground (arith, pass-Follows m hs, Keeps-refl h.kind, Follows-refl hs, call-Keeps h.kind m)

  handle-Follows : (r : HandlerRegistry Msg) (m : Msg) → Follows r.handlers (handle r m).0.handlers
  unfolding handle
  handle-Follows r m = pass-Follows m r.handlers

  -- the messages that come in one after the other
  abbrev pub handle_each : HandlerRegistry Msg → List Msg → HandlerRegistry Msg
  handle_each r [] = r
  handle_each r (m ∷ ms) = handle_each (handle r m).0 ms

  -- Whatever messages come in, and whether or not callbacks raise, the registry holds the same
  -- handlers in the same order, and a future that had a result keeps that result: no future is
  -- completed twice.
  pub handle_each-Follows :
      (r : HandlerRegistry Msg) (ms : List Msg) → Follows r.handlers (handle_each r ms).handlers
  handle_each-Follows r [] = Follows-refl r.handlers
  handle_each-Follows r (m ∷ ms) =
      Follows-trans r.handlers (handle r m).0.handlers _ (handle-Follows r m)
        (handle_each-Follows (handle r m).0 ms)

  Follows-remove :
      (a c : List (Handler Msg)) (h : Handler Msg)
      → IsFresh h.id a
      → Follows (a ++ h ∷ []) c
      → Follows a (remove_id h.id c)
  unfolding remove_id
  Follows-remove [] [] h f w = absurd w
  Follows-remove [] (k ∷ []) h f w = ground arith
  Follows-remove [] (k ∷ l ∷ c) h f w = absurd w.3
  Follows-remove (x ∷ a) [] h f w = absurd w
  Follows-remove (x ∷ a) (k ∷ c) h f w = ground (arith, Follows-remove a c h f.1 w.3)

  -- A wait leaves nothing behind: after the future has been registered, any messages have come in
  -- and the future has been removed again, the registry holds the handlers of before, in order,
  -- with every result that was there.
  pub wait_leaves_nothing :
      (r : HandlerRegistry Msg) (h : Handler Msg) (ms : List Msg)
      → IsFresh h.id r.handlers
      → Follows r.handlers (end_wait (handle_each (begin_wait r h) ms) h).handlers
  unfolding begin_wait end_wait
  wait_leaves_nothing r h ms f =
      Follows-remove r.handlers (handle_each (begin_wait r h) ms).handlers h f
        (handle_each-Follows (begin_wait r h) ms)
