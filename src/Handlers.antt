-- ===== src/Handlers.antt =====
-- paradox/lib/handlers.py: futures and persistent handlers, and the registry that hands messages
-- to them. A handler object is told apart by `id`, which is what Python's `==` compares here.
pub mod Removal
pub mod Delivery
mod Tests
use text.Mathlib.Text.{◌==◌ as str_eq}
use pai.Prelude.{
  ℕ, zero, suc, ◌+◌, String, Bool, true, false, not, ◌&&◌, ◌||◌, Option, none, some, List, [], ◌∷◌,
  ◌++◌, length, get_elem?, ◌==◌, if◌then◌else◌,
}

-- `FutureHandler` with its `_check_fn` and the result that it has been given, `PersistentHandler`
-- with its `can_handle` (which subclasses override) and whether its callback raises.
pub data Kind (Msg : Type 0) : Type 0 where
  future : Option (Msg → Bool) → Option Msg → Kind Msg
  persistent : (Msg → Bool) → (Msg → Bool) → Kind Msg

pub record Handler (Msg : Type 0) : Type 0 where
  pub id : ℕ
  pub name : String
  pub kind : Kind Msg

-- what `can_handle` says, or the `AlreadyHandledError` that it raises
pub data Verdict : Type 0 where
  accepts declines already_handled : Verdict

-- how a call of `HandlerRegistry.handle` ends; `unhandled` is a return too, with an error logged
pub data Outcome : Type 0 where
  handled unhandled ignored raised : Outcome

abbrev pub verdict : Bool → Verdict
verdict b = if b then accepts else declines

-- from what `handled` and the flag say at the end, and whether a callback raised
abbrev pub outcome : Bool → Bool → Bool → Outcome
outcome ignore handled? true = raised
outcome ignore true false = handled
outcome true false false = ignored
outcome false false false = unhandled

module _ {Msg : Type 0} where
  abbrev pub can_handle_kind : Kind Msg → Msg → Verdict
  can_handle_kind (future check_fn (some result)) m = already_handled
  can_handle_kind (future (some check_fn) none) m = verdict (check_fn m)
  can_handle_kind (future none none) m = accepts
  can_handle_kind (persistent accept raises) m = verdict (accept m)

  abbrev pub can_handle : Handler Msg → Msg → Verdict
  can_handle h m = can_handle_kind h.kind m

  -- `await handler(data)`: a future takes the message as its result
  abbrev pub call_kind : Kind Msg → Msg → Kind Msg
  call_kind (future check_fn result) m = future check_fn (some m)
  call_kind (persistent accept raises) m = persistent accept raises

  abbrev pub raises_kind : Kind Msg → Msg → Bool
  raises_kind (future check_fn result) m = false
  raises_kind (persistent accept raises) m = raises m

pub record HandlerRegistry (Msg : Type 0) : Type 0 where
  pub handlers : List (Handler Msg)
  pub should_ignore_no_handlers : Bool

module _ {Msg : Type 0} where
  unfoldable pub set_ignore_if_no_handlers : HandlerRegistry Msg → Bool → HandlerRegistry Msg
  set_ignore_if_no_handlers r value = record r { should_ignore_no_handlers = value }

  unfoldable pub append : HandlerRegistry Msg → Handler Msg → HandlerRegistry Msg
  append r h = record r { handlers = r.handlers ++ h ∷ [] }

  -- list.remove: the first handler that is this object; without one, the list as it is stands for
  -- the ValueError
  unfoldable pub remove_id : ℕ → List (Handler Msg) → List (Handler Msg)
  remove_id i [] = []
  remove_id i (h ∷ hs) = if h.id == i then hs else h ∷ remove_id i hs

  unfoldable pub remove : HandlerRegistry Msg → Handler Msg → HandlerRegistry Msg
  unfolding remove_id
  remove r h = record r { handlers = remove_id h.id r.handlers }

  -- The `for` loop over a lazy `filter` of the list that its body shortens: Python's list iterator
  -- keeps an index, which goes up by one whether or not an element was removed at it.
  -- The fuel is a bound on the rounds.
  unfoldable pub remove_from : ℕ → String → ℕ → List (Handler Msg) → List (Handler Msg)
  unfolding remove_id
  remove_from zero name i hs = hs
  remove_from (suc rounds) name i hs = elim (get_elem? hs i) [
    | none ↦ hs
    | some h ↦
        remove_from rounds name (suc i) (if str_eq h.name name then remove_id h.id hs else hs)
  ]

  unfoldable pub remove_by_name : HandlerRegistry Msg → String → HandlerRegistry Msg
  remove_by_name r name = record r {
    handlers = remove_from (suc (length r.handlers)) name 0 r.handlers;
  }

  -- One pass of `handle` over the handlers, while none of the callbacks changes the list: the
  -- handlers after it, whether one has handled the message, and whether one has raised, which ends
  -- the pass.
  unfoldable pub pass : Msg → List (Handler Msg) → List (Handler Msg) × Bool × Bool
  pass m [] = ([], false, false)
  pass m (h ∷ hs) =
      let rest = pass m hs in
      let after = record h { kind = call_kind h.kind m } in
      elim (can_handle h m) [
        | already_handled ↦ (h ∷ rest.0, rest.1, rest.2)
        | declines ↦ (h ∷ rest.0, rest.1, rest.2)
        | accepts ↦
            if raises_kind h.kind m
            then (after ∷ hs, true, true)
            else (after ∷ rest.0, true, rest.2)
      ]

  unfoldable pub handle : HandlerRegistry Msg → Msg → HandlerRegistry Msg × Outcome
  unfolding pass
  handle r m =
      let (hs, done, raised?) = pass m r.handlers in
      (record r { handlers = hs }, outcome r.should_ignore_no_handlers done raised?)

  -- `wait_until_complete` registers the future, other tasks run, and whether it was completed,
  -- timed out or cancelled, `finally` removes it.
  unfoldable pub begin_wait : HandlerRegistry Msg → Handler Msg → HandlerRegistry Msg
  unfolding append
  begin_wait = append

  unfoldable pub end_wait : HandlerRegistry Msg → Handler Msg → HandlerRegistry Msg
  unfolding remove
  end_wait = remove
