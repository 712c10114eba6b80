-- ===== src/Panel/Commands.antt =====
-- What the panels' methods for commands share: paradox/hardware/spectra_magellan/panel.py and
-- paradox/hardware/evo/panel.py. A method sends requests by `Paradox.send_wait`, one after the other.
pub mod Spectra
pub mod Evo
pub mod Sessions
mod Tests
use pai.Prelude.{ℕ, zero, suc, ◌≡◌, ◌≢◌, Bool, true, false, ◌&&◌, List, [], ◌∷◌, ◌++◌}
use pai.Session.Control.{PanelAnswer, accepted, timed_out, raised}
use pai.Session.Request.{Answer, reply, no_reply, timeout_error, connection_error, other_error}

-- Python's integers, as far as subtracting 1 from an element's number needs them
pub data ℤ : Type 0 where
  pos : ℕ → ℤ
  negsuc : ℕ → ℤ

abbrev pub pred : ℕ → ℤ
pred zero = negsuc 0
pred (suc n) = pos n

-- how a method ends, and the requests it has made, each with whether there was a reply to it
pub record Dialog (A : Type 0) : Type 0 where
  pub ending : PanelAnswer
  pub exchanges : List (A × Bool)

module _ {A : Type 0} where
  abbrev pub ends : PanelAnswer → Dialog A
  ends e = record { ending = e; exchanges = [] }

  -- a request, and the dialog after it
  abbrev pub after : A → Bool → Dialog A → Dialog A
  after a answered d = record { ending = d.ending; exchanges = (a, answered) ∷ d.exchanges }

  unfoldable pub all_answered : List (A × Bool) → Bool
  all_answered [] = true
  all_answered ((a, answered) ∷ es) = answered && all_answered es

  abbrev pub has_some : List (A × Bool) → Bool
  has_some [] = false
  has_some (e ∷ es) = true

  -- there are requests, and each has been answered
  abbrev pub is_answered : List (A × Bool) → Bool
  is_answered es = has_some es && all_answered es

  -- the requests, in order
  unfoldable pub requests : List (A × Bool) → List A
  requests [] = []
  requests ((a, answered) ∷ es) = a ∷ requests es

module _ {R : Type 0} where
  -- `reply is not None`, or the exception that `send_wait` raises
  abbrev pub is_reply : Answer R → PanelAnswer
  is_reply o = elim o [
    | reply r ↦ accepted true
    | no_reply ↦ accepted false
    | timeout_error ↦ timed_out
    | connection_error ↦ raised
    | other_error ↦ raised
  ]

  abbrev pub has_reply : Answer R → Bool
  has_reply o = elim o [ reply r ↦ true | _ ↦ false ]

module _ {A R : Type 0} where
  -- a method that makes one request
  abbrev pub ask : (A → Answer R) → A → Dialog A
  ask request a = after a (has_reply (request a)) (ends (is_reply (request a)))
