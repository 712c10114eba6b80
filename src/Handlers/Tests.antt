-- ===== src/Handlers/Tests.antt =====
-- Runs of the handler registry at concrete inputs, and its theorems at such inputs.
use pai.Prelude.{ℕ, ◌≡◌, refl, true, false, none, some, List, [], ◌∷◌, ◌++◌, map, arith, ◌==◌}
use pai.Handlers.{
  Handler, HandlerRegistry, future, persistent, handled, unhandled, raised, handle, begin_wait,
  end_wait, remove_by_name, remove_from,
}
use pai.Handlers.Removal.{without, remove_by_name-without, remove_by_name_skips}
use pai.Handlers.Delivery.{
  served, handle-All, handle_raise, handle_each, handle_each-Follows, Follows, wait_leaves_nothing,
}

-- messages are their command numbers here
abbrev waiting : ℕ → Handler ℕ
waiting i = record { id = i; name = "FutureHandler"; kind = future (some (λ m. m == 5)) none }

abbrev events : ℕ → Handler ℕ
events i = record {
  id = i;
  name = "EventMessageHandler";
  kind = persistent (λ m. m == 14) (λ m. false);
}

abbrev errors : ℕ → Handler ℕ
errors i = record {
  id = i;
  name = "ErrorMessageHandler";
  kind = persistent (λ m. m == 7) (λ m. true);
}

abbrev registry : HandlerRegistry ℕ
registry = record {
  handlers = events 1 ∷ errors 2 ∷ waiting 3 ∷ [];
  should_ignore_no_handlers = false;
}

abbrev twins : HandlerRegistry ℕ
twins = record {
  handlers = waiting 1 ∷ waiting 2 ∷ events 3 ∷ [];
  should_ignore_no_handlers = false;
}

-- only the first of the two goes
remove_twins : (remove_by_name twins "FutureHandler").handlers ≡ waiting 2 ∷ events 3 ∷ []
unfolding remove_by_name remove_from
remove_twins = refl

reply_completes : (handle registry 5).1 ≡ handled
unfolding handle
reply_completes = refl

nobody : (handle registry 1).1 ≡ unhandled
unfolding handle
nobody = refl

remove_by_name-without_example :
    (remove_by_name registry "FutureHandler").handlers ≡ events 1 ∷ errors 2 ∷ []
unfolding without
remove_by_name-without_example =
    remove_by_name-without registry "FutureHandler" (omega arith) ((λ e. cc), ((λ e. cc), tt))

remove_by_name_skips_example :
    (left : List (Handler ℕ)) × ((remove_by_name twins "FutureHandler").handlers ≡ waiting 2 ∷ left)
remove_by_name_skips_example =
    remove_by_name_skips twins "FutureHandler" [] (waiting 1) (waiting 2) (events 3 ∷ []) refl
      (omega arith) tt refl

handle-All_example :
    handle registry 5 ≡ (record registry { handlers = map (served 5) registry.handlers }, handled)
handle-All_example = handle-All registry 5 ((λ e. refl), ((λ e. cc), ((λ e. refl), tt)))

handle_raise_example : handle registry 7 ≡ (
  record registry {
    handlers = map (served 7) (events 1 ∷ []) ++ served 7 (errors 2) ∷ waiting 3 ∷ [];
  },
  raised,
)
handle_raise_example =
    handle_raise registry 7 (events 1 ∷ []) (errors 2) (waiting 3 ∷ []) refl ((λ e. refl), tt) refl
      refl

handle_each-Follows_example : Follows registry.handlers (handle_each registry (5 ∷ 7 ∷ [])).handlers
handle_each-Follows_example = handle_each-Follows registry (5 ∷ 7 ∷ [])

wait_leaves_nothing_example :
    Follows registry.handlers
      (end_wait (handle_each (begin_wait registry (waiting 4)) (5 ∷ [])) (waiting 4)).handlers
wait_leaves_nothing_example = wait_leaves_nothing registry (waiting 4) (5 ∷ []) (omega arith)
