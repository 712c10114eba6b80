-- ===== src/Panel/Commands/Sessions.antt =====
-- Commands from the session to the panel: `control_zone`, .. of paradox/paradox.py, which call the
-- methods of the panel, which call `Paradox.send_wait`.
use pai.Prelude.{
  ℕ, ◌≤◌, ◌≡◌, ◌≢◌, String, Bool, true, false, not, ◌&&◌, Option, List, [], ◌∷◌, ◌++◌,
  if◌then◌else◌, arith, lookup, refl, ap, ◌∙◌, lower, length, map, string_eq,
}
use pai.Storage.Keys.{Key, number}
use pai.Storage.Container.{Container, Needle, select}
use pai.Session.Control.{
  PanelAnswer, accepted, not_implemented, timed_out, Control, control, returns, control-accepted,
}
use pai.Session.Request.{Answer, Exchange, send_wait, send_wait_answers, no_reply, timeout_error}
use pai.Panel.Commands.{requests, Dialog, ends, is_answered}
use pai.Panel.Commands.Spectra
use pai.Panel.Commands.Evo
use pai.Panel.Commands.Spectra.{Action, to_element, all_reply, answered, perform_each_timeout}
use pai.Panel.Commands.Evo.{Request, Sent, mapping_error, sent}

pub data Kind : Type 0 where
  zone partition output door : Kind

-- The interface between the session and a panel: a method for each kind of element, and a law that
-- `spectra_honest` and `evo_honest` show of both panels, that a command is accepted only if there
-- are requests for it and all have been answered.
pub record Commands (A : Type 0) : Type 0 where
  pub dialog : Kind → List Key → String → Dialog A
  pub honest :
      (kind : Kind) (ks : List Key) (command : String)
      → (dialog kind ks command).ending ≡ accepted true
      → is_answered (dialog kind ks command).exchanges ≡ true

-- `send_wait` for the requests of one call: what the attempts meet depends on the request
module _ {R : Type 0} (connected : Bool) (retries : ℕ) where
  abbrev pub spectra_request : (ℕ → Action → ℕ → Exchange R) → ℕ → Action → Answer R
  spectra_request exchange n a = (send_wait connected true (exchange n a) retries).0

  -- a request that cannot be built raises once the connection has been seen to
  abbrev pub evo_request : (Request → Bool) → (Request → ℕ → Exchange R) → Request → Sent R
  evo_request mappable exchange a =
      if connected && not (mappable a)
      then mapping_error
      else sent (send_wait connected true (exchange a) retries).0

module _ {R : Type 0} (request : ℕ → Action → Answer R) where
  abbrev pub spectra_dialog : Kind → List Key → String → Dialog Action
  spectra_dialog zone ks c = Spectra.control_zones request ks c
  spectra_dialog partition ks c = Spectra.control_partitions request ks c
  spectra_dialog output ks c = Spectra.control_outputs request ks c
  spectra_dialog door ks c = ends not_implemented

module _ {R : Type 0} (request : Request → Sent R) where
  abbrev pub evo_dialog : Kind → List Key → String → Dialog Request
  evo_dialog zone ks c = Evo.control_zones request ks c
  evo_dialog partition ks c = Evo.control_partitions request ks c
  evo_dialog output ks c = Evo.control_outputs request ks c
  evo_dialog door ks c = Evo.control_doors request ks c

pub spectra_honest :
    {R : Type 0} (request : ℕ → Action → Answer R)
    → ((n : ℕ) (a : Action) → request n a ≢ no_reply)
    → (kind : Kind) (ks : List Key) (command : String)
    → (spectra_dialog request kind ks command).ending ≡ accepted true
    → is_answered (spectra_dialog request kind ks command).exchanges ≡ true
spectra_honest request raises zone ks c h = Spectra.control_zones_answered request raises ks c h
spectra_honest request raises partition ks c h =
    Spectra.control_partitions_answered request raises ks c h
spectra_honest request raises output ks c h = Spectra.control_outputs_answered request raises ks c h
spectra_honest request raises door ks c h = ground arith

pub evo_honest :
    {R : Type 0} (request : Request → Sent R) (kind : Kind) (ks : List Key) (command : String)
    → (evo_dialog request kind ks command).ending ≡ accepted true
    → is_answered (evo_dialog request kind ks command).exchanges ≡ true
evo_honest request zone ks c h = Evo.control_zones_answered request ks c h
evo_honest request partition ks c h = Evo.control_partitions_answered request ks c h
evo_honest request output ks c h = Evo.control_outputs_answered request ks c h
evo_honest request door ks c h = Evo.control_doors_answered request ks c h

module _ {R : Type 0} (connected : Bool) (retries : ℕ) where
  unfoldable pub spectra : 1 ≤ retries → (ℕ → Action → ℕ → Exchange R) → Commands Action
  spectra r exchange = record {
    dialog = spectra_dialog (spectra_request connected retries exchange);
    honest =
        spectra_honest (spectra_request connected retries exchange)
          (λ n a. (send_wait_answers connected (exchange n a) retries r).0);
  }

  unfoldable pub evo : (Request → Bool) → (Request → ℕ → Exchange R) → Commands Request
  evo mappable exchange = record {
    dialog = evo_dialog (evo_request connected retries mappable exchange);
    honest = evo_honest (evo_request connected retries mappable exchange);
  }

-- The methods of the session, over any panel: what was selected, and the command in lower case, go
-- to the panel's method.
module _ {A : Type 0} (key_of : ℕ → Option Key) (same : ℕ → ℕ → Bool) (panel : Commands A) where
  abbrev pub asked : Container → Needle → Kind → String → Dialog A
  asked container needle kind command =
      panel.dialog kind (select key_of same container needle) (lower command)

  unfoldable pub control_element : Container → Needle → Kind → String → Control
  control_element container needle kind command =
      control (select key_of same container needle)
        (λ ks. (panel.dialog kind ks (lower command)).ending)

  control_element_honest :
      (container : Container) (needle : Needle) (kind : Kind) (command : String)
      → (control_element container needle kind command).answer ≡ returns true
      → (select key_of same container needle ≢ [])
        × (is_answered (asked container needle kind command).exchanges ≡ true)
        × ((control_element container needle kind command).refreshed ≡ true)
  unfolding control_element
  control_element_honest container needle kind command h =
      let c =
        control-accepted (select key_of same container needle)
          (λ ks. (panel.dialog kind ks (lower command)).ending) in
      (
        (c.0.0 h).0,
        panel.honest kind (select key_of same container needle) (lower command) (c.0.0 h).1,
        c.1 h,
      )

-- a panel of either kind, with what the attempts of its requests meet
pub data Panel (R : Type 0) : Type 0 where
  spectra_panel : (ℕ → Action → ℕ → Exchange R) → Panel R
  evo_panel : (Request → Bool) → (Request → ℕ → Exchange R) → Panel R

module _ {R : Type 0} where
  abbrev pub RequestOf : Panel R → Type 0
  RequestOf (spectra_panel exchange) = Action
  RequestOf (evo_panel mappable exchange) = Request

  abbrev pub commands_of :
      Bool → (retries : ℕ) → 1 ≤ retries → (p : Panel R) → Commands (RequestOf p)
  commands_of connected retries r (spectra_panel exchange) = spectra connected retries r exchange
  commands_of connected retries r (evo_panel mappable exchange) =
      evo connected retries mappable exchange

  -- On a Spectra and on an EVO panel, whatever its requests meet: a command that the session reports
  -- as accepted was for elements that are selected, the panel's method has made requests for it, all
  -- have been answered, and a status refresh was requested. `send_wait` makes one attempt at least.
  pub control_element_answered :
      (connected : Bool) (retries : ℕ) (r : 1 ≤ retries) (p : Panel R) (key_of : ℕ → Option Key)
      (same : ℕ → ℕ → Bool) (container : Container) (needle : Needle) (kind : Kind)
      (command : String)
      → let panel = commands_of connected retries r p in
        (control_element key_of same panel container needle kind command).answer ≡ returns true
        → let panel = commands_of connected retries r p in
          (select key_of same container needle ≢ [])
          × (is_answered (asked key_of same panel container needle kind command).exchanges ≡ true)
          × ((control_element key_of same panel container needle kind command).refreshed ≡ true)
  control_element_answered connected retries r p key_of same =
      control_element_honest key_of same (commands_of connected retries r p)

requests_answered :
    (action : ℕ) (before : List ℕ) (e : ℕ)
    → requests (map answered (map (to_element action) before) ++ (to_element action e, false) ∷ [])
      ≡ map (to_element action) (before ++ e ∷ [])
unfolding requests
requests_answered action [] e = refl
requests_answered action (b ∷ before) e =
    ap (◌∷◌ (to_element action b)) (requests_answered action before e)

control_timed_out :
    (zones : List Key) (panel : List Key → PanelAnswer)
    → panel zones ≡ timed_out
    → (control zones panel).answer ≡ returns false
unfolding control
control_timed_out [] panel h = refl
control_timed_out (z ∷ zones) panel h = ground (arith, h)

-- On a Spectra panel the zones before one that times out have been bypassed all the same, and
-- those after it are not requested, while the session reports the whole command as not accepted.
pub control_zones_partial :
    {R : Type 0} (request : ℕ → Action → Answer R) (before : List ℕ) (e : ℕ) (later : List Key)
    → all_reply request 16 0 before ≡ true
    → request (length before) (to_element 16 e) ≡ timeout_error
    → (requests
          (Spectra.control_zones request (map number before ++ number e ∷ later) "bypass").exchanges
        ≡ map (to_element 16) (before ++ e ∷ []))
      × ((control
            (map number before ++ number e ∷ later)
            (λ ks. (Spectra.control_zones request ks "bypass").ending)).answer
          ≡ returns false)
unfolding Spectra.control_zones lookup
control_zones_partial request before e later r t =
    let d = perform_each_timeout request 16 0 false before e later r (ground (arith, t)) in
    (
      ap (λ d. requests d.exchanges) d ∙ requests_answered 16 before e,
      control_timed_out (map number before ++ number e ∷ later)
          (λ ks. (Spectra.control_zones request ks "bypass").ending) (ap (λ d. d.ending) d),
    )
