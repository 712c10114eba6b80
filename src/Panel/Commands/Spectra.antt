-- ===== src/Panel/Commands/Spectra.antt =====
-- The commands of Spectra and Magellan panels: paradox/hardware/spectra_magellan/panel.py.
use pai.Prelude.{
  ℕ, suc, ◌+◌, ◌≡◌, ◌≢◌, String, Bool, true, false, ◌&&◌, Option, none, some, List, [], ◌∷◌,
  if◌then◌else◌, lookup, string_eq, arith, map, length, Option-cases, Bool-cases, inl, inr, ◌++◌,
}
use pai.Storage.Keys.{Key, number, text}
use pai.Session.Control.{accepted, timed_out, raised}
use pai.Session.Request.{Answer, reply, no_reply, timeout_error, connection_error, other_error}
use pai.Panel.Commands.{
  ℤ, pred, Dialog, ends, after, ask, all_answered, has_some, is_answered, requests, has_reply,
}

-- the fields of PerformAction that the methods set
pub record Action : Type 0 where
  pub action : ℕ
  pub argument : ℤ

abbrev pub partition_actions : List (String × ℕ)
partition_actions =
    ("arm", 4)
    ∷ ("disarm", 5)
    ∷ ("arm_stay", 1)
    ∷ ("arm_force", 2)
    ∷ ("arm_sleep", 3)
    ∷ ("arm_stay_stayd", 6)
    ∷ ("arm_sleep_stay", 7)
    ∷ ("disarm_all", 8)
    ∷ []

abbrev pub zone_actions : List (String × ℕ)
zone_actions = ("bypass", 16) ∷ ("clear_bypass", 16) ∷ []

abbrev pub pgm_actions : List (String × ℕ)
pgm_actions =
    ("on_override", 48) ∷ ("off_override", 49) ∷ ("on", 50) ∷ ("off", 51) ∷ ("pulse", 0) ∷ []

abbrev pub to_element : ℕ → ℕ → Action
to_element action element = record { action = action; argument = pred element }

abbrev pub answered : Action → Action × Bool
answered a = (a, true)

-- the numbers among the keys
abbrev pub elements : List Key → List ℕ
elements [] = []
elements (number e ∷ ks) = e ∷ elements ks
elements (text s ∷ ks) = elements ks

-- `request n a` is how the n-th `send_wait` of a call ends if it is for `a`; an action that the
-- message cannot hold ends it with an exception.
module _ {R : Type 0} (request : ℕ → Action → Answer R) where
  -- The `for` loop of `control_zones` and `control_partitions`; to subtract from a textual key
  -- raises a TypeError.
  unfoldable pub perform_each : ℕ → ℕ → Bool → List Key → Dialog Action
  perform_each action n so_far [] = ends (accepted so_far)
  perform_each action n so_far (text s ∷ ks) = ends raised
  perform_each action n so_far (number e ∷ ks) = elim (request n (to_element action e)) [
    | reply r ↦ after (to_element action e) true (perform_each action (suc n) true ks)
    | no_reply ↦ after (to_element action e) false (perform_each action (suc n) so_far ks)
    | timeout_error ↦ after (to_element action e) false (ends timed_out)
    | connection_error ↦ after (to_element action e) false (ends raised)
    | other_error ↦ after (to_element action e) false (ends raised)
  ]

  -- the `for` loop of `control_outputs` for "pulse": on, and off after a while
  unfoldable pub pulse_each : ℕ → Bool → List Key → Dialog Action
  pulse_each n so_far [] = ends (accepted so_far)
  pulse_each n so_far (text s ∷ ks) = ends raised
  pulse_each n so_far (number e ∷ ks) = elim (request n (to_element 50 e)) [
    | reply r ↦ after (to_element 50 e) true (elim (request (suc n) (to_element 51 e)) [
      | reply q ↦ after (to_element 51 e) true (pulse_each (suc (suc n)) true ks)
      | no_reply ↦ after (to_element 51 e) false (pulse_each (suc (suc n)) so_far ks)
      | timeout_error ↦ after (to_element 51 e) false (ends timed_out)
      | connection_error ↦ after (to_element 51 e) false (ends raised)
      | other_error ↦ after (to_element 51 e) false (ends raised)
    ])
    | no_reply ↦ after (to_element 50 e) false (pulse_each (suc n) so_far ks)
    | timeout_error ↦ after (to_element 50 e) false (ends timed_out)
    | connection_error ↦ after (to_element 50 e) false (ends raised)
    | other_error ↦ after (to_element 50 e) false (ends raised)
  ]

  -- Where no request is left without both a reply and an exception, as `send_wait` leaves none, the
  -- loop ends normally only after all of its requests, in the order of the elements, have been
  -- answered.
  pub perform_each_answered :
      ((n : ℕ) (a : Action) → request n a ≢ no_reply)
      → (action n : ℕ) (so_far b : Bool) (ks : List Key)
      → (perform_each action n so_far ks).ending ≡ accepted b
      → (all_answered (perform_each action n so_far ks).exchanges ≡ true)
        × (map number (elements ks) ≡ ks)
        × (requests (perform_each action n so_far ks).exchanges
            ≡ map (to_element action) (elements ks))
  unfolding perform_each all_answered requests
  perform_each_answered raises action n so_far b [] h = ground arith
  perform_each_answered raises action n so_far b (text s ∷ ks) h = ground arith
  perform_each_answered raises action n so_far b (number e ∷ ks) h =
      ground (
        arith,
        perform_each_answered raises action (suc n) true b ks,
        raises n (to_element action e),
      )

  pulse_each_answered :
      ((n : ℕ) (a : Action) → request n a ≢ no_reply)
      → (n : ℕ) (so_far b : Bool) (ks : List Key) → (pulse_each n so_far ks).ending ≡ accepted b
      → all_answered (pulse_each n so_far ks).exchanges ≡ true
  unfolding pulse_each all_answered
  pulse_each_answered raises n so_far b [] h = ground arith
  pulse_each_answered raises n so_far b (text s ∷ ks) h = ground arith
  pulse_each_answered raises n so_far b (number e ∷ ks) h = ground (
    arith,
    pulse_each_answered raises (suc (suc n)) true b ks,
    raises n (to_element 50 e),
    raises (suc n) (to_element 51 e),
  )

  perform_each_asks :
      (action n : ℕ) (ks : List Key)
      → (perform_each action n false ks).ending ≡ accepted true
      → has_some (perform_each action n false ks).exchanges ≡ true
  unfolding perform_each
  perform_each_asks action n [] h = ground arith
  perform_each_asks action n (text s ∷ ks) h = ground arith
  perform_each_asks action n (number e ∷ ks) h = ground arith

  pulse_each_asks :
      (n : ℕ) (ks : List Key)
      → (pulse_each n false ks).ending ≡ accepted true
      → has_some (pulse_each n false ks).exchanges ≡ true
  unfolding pulse_each
  pulse_each_asks n [] h = ground arith
  pulse_each_asks n (text s ∷ ks) h = ground arith
  pulse_each_asks n (number e ∷ ks) h = ground arith

  -- the requests for the elements, from the n-th on, are all answered
  abbrev pub all_reply : ℕ → ℕ → List ℕ → Bool
  all_reply action n [] = true
  all_reply action n (e ∷ es) =
      has_reply (request n (to_element action e)) && all_reply action (suc n) es

  -- What is answered before a timeout has been done, and what comes after it is not requested.
  pub perform_each_timeout :
      (action n : ℕ) (so_far : Bool) (before : List ℕ) (e : ℕ) (later : List Key)
      → all_reply action n before ≡ true
      → request (n + length before) (to_element action e) ≡ timeout_error
      → perform_each action n so_far (map number before ++ number e ∷ later) ≡ record {
        ending = timed_out;
        exchanges =
            map answered (map (to_element action) before) ++ (to_element action e, false) ∷ [];
      }
  unfolding perform_each
  perform_each_timeout action n so_far [] e later r t = ground arith
  perform_each_timeout action n so_far (x ∷ before) e later r t =
      ground (arith, perform_each_timeout action (suc n) true before e later)

  abbrev pub perform : Option ℕ → List Key → Dialog Action
  perform none ks = ends (accepted false)
  perform (some action) ks = perform_each action 0 false ks

  unfoldable pub control_zones : List Key → String → Dialog Action
  control_zones zones command = perform (lookup zone_actions command) zones

  unfoldable pub control_partitions : List Key → String → Dialog Action
  control_partitions partitions command = perform (lookup partition_actions command) partitions

  unfoldable pub control_outputs : List Key → String → Dialog Action
  control_outputs outputs command =
      if string_eq.same command "pulse"
      then pulse_each 0 false outputs
      else perform (lookup pgm_actions command) outputs

-- What is accepted has been answered in full, whatever the kind of the elements.
module _ {R : Type 0} (request : ℕ → Action → Answer R)
    (raises : (n : ℕ) (a : Action) → request n a ≢ no_reply) where
  pub control_zones_answered :
      (ks : List Key) (command : String)
      → (control_zones request ks command).ending ≡ accepted true
      → is_answered (control_zones request ks command).exchanges ≡ true
  unfolding control_zones all_answered
  control_zones_answered ks command h = elim (Option-cases (lookup zone_actions command)) [
    | inl n ↦ ground arith
    | inr (a, e) ↦ ground (
      arith,
      perform_each_answered request raises a 0 false true ks,
      perform_each_asks request a 0 ks,
    )
  ]

  pub control_partitions_answered :
      (ks : List Key) (command : String)
      → (control_partitions request ks command).ending ≡ accepted true
      → is_answered (control_partitions request ks command).exchanges ≡ true
  unfolding control_partitions all_answered
  control_partitions_answered ks command h =
      elim (Option-cases (lookup partition_actions command)) [
        | inl n ↦ ground arith
        | inr (a, e) ↦ ground (
          arith,
          perform_each_answered request raises a 0 false true ks,
          perform_each_asks request a 0 ks,
        )
      ]

  pub control_outputs_answered :
      (ks : List Key) (command : String)
      → (control_outputs request ks command).ending ≡ accepted true
      → is_answered (control_outputs request ks command).exchanges ≡ true
  unfolding control_outputs all_answered
  control_outputs_answered ks command h = elim (Bool-cases (string_eq.same command "pulse")) [
    | inl t ↦
        ground
          (arith, pulse_each_answered request raises 0 false true ks, pulse_each_asks request 0 ks)
    | inr f ↦ elim (Option-cases (lookup pgm_actions command)) [
      | inl n ↦ ground arith
      | inr (a, e) ↦ ground (
        arith,
        perform_each_answered request raises a 0 false true ks,
        perform_each_asks request a 0 ks,
      )
    ]
  ]

-- `send_panic`
pub record Panic : Type 0 where
  pub partitions : List ℕ
  pub panic_type : String
  pub user_id : ℕ

unfoldable pub send_panic : {R : Type 0} → (Panic → Answer R) → List ℕ → String → ℕ → Dialog Panic
send_panic request partitions panic_type user_id =
    ask request (record { partitions = partitions; panic_type = panic_type; user_id = user_id })
