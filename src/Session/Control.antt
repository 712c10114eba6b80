-- ===== src/Session/Control.antt =====
-- `control_zone`, `control_partition`, `control_output`, `control_door` and `send_panic` of
-- paradox/paradox.py.
use pai.Prelude.{ℕ, ◌≡◌, ◌≢◌, ◌↔◌, ◌⊎◌, Bool, true, false, Option, none, some, List, [], ◌∷◌, arith}
use pai.Storage.Keys.{Key}
use pai.Storage.Container.{Container, Needle, select, get}

-- how the call to the panel ends: it says whether the command was accepted, or raises
-- NotImplementedError, CancelledError, TimeoutError or something else
pub data PanelAnswer : Type 0 where
  accepted : Bool → PanelAnswer
  not_implemented cancelled timed_out raised : PanelAnswer

-- what the caller gets, `refreshed` with whether a status refresh was requested
pub data Answer : Type 0 where
  returns : Bool → Answer
  panel_error type_error : Answer

pub record Control : Type 0 where
  pub answer : Answer
  pub refreshed : Bool

-- the `try` statement: three exceptions are logged and leave `accepted` at False
abbrev pub catch : PanelAnswer → Answer
catch a = elim a [ accepted b ↦ returns b | raised ↦ panel_error | _ ↦ returns false ]

-- an exception that is not caught skips the refresh
abbrev pub is_caught : PanelAnswer → Bool
is_caught a = elim a [ raised ↦ false | _ ↦ true ]

-- the body that the four methods share: `panel` is the panel's method for the kind of element,
-- applied to the command
unfoldable pub control : List Key → (List Key → PanelAnswer) → Control
control [] panel = record { answer = returns false; refreshed = false }
control (k ∷ ks) panel = record {
  answer = catch (panel (k ∷ ks));
  refreshed = is_caught (panel (k ∷ ks));
}

-- command.lower() is the panel's business here: the command is in `panel`
module _ (key_of : ℕ → Option Key) (same : ℕ → ℕ → Bool) where
  abbrev pub control_zone : Container → Needle → (List Key → PanelAnswer) → Control
  control_zone zones zone panel = control (select key_of same zones zone) panel

  abbrev pub control_partition : Container → Needle → (List Key → PanelAnswer) → Control
  control_partition partitions partition panel =
      control (select key_of same partitions partition) panel

  abbrev pub control_output : Container → Needle → (List Key → PanelAnswer) → Control
  control_output pgms output panel = control (select key_of same pgms output) panel

  abbrev pub control_door : Container → Needle → (List Key → PanelAnswer) → Control
  control_door doors door panel = control (select key_of same doors door) panel

-- `send_panic`: element ids are under "id"; subscripting None raises a TypeError, which none of
-- the handlers takes
unfoldable pub send_panic :
    (ℕ → ℕ) → Container → Container → Key → Key → (ℕ → ℕ → PanelAnswer) → Answer
send_panic id_of partitions users partition_id user_id panel = elim (get partitions partition_id) [
  | none ↦ type_error
  | some partition ↦ elim (get users user_id) [
    | none ↦ type_error
    | some user ↦ catch (panel (id_of partition) (id_of user))
  ]
]

-- A command is reported as accepted exactly when something was selected and the panel accepted it,
-- for all that was selected at once; whenever it is, a status refresh has been requested.
pub control-accepted :
    (selected : List Key) (panel : List Key → PanelAnswer)
    → (((control selected panel).answer ≡ returns true)
        ↔ ((selected ≢ []) × (panel selected ≡ accepted true)))
      × ((control selected panel).answer ≡ returns true → (control selected panel).refreshed ≡ true)
unfolding control
control-accepted [] panel = ground arith
control-accepted (k ∷ ks) panel = ground arith

-- `send_panic` for a partition or a user that is not stored raises a TypeError instead of returning
-- False.
pub send_panic_missing :
    (id_of : ℕ → ℕ) (partitions users : Container) (partition_id user_id : Key)
    (panel : ℕ → ℕ → PanelAnswer)
    → ((get partitions partition_id ≡ none) ⊎ (get users user_id ≡ none))
    → send_panic id_of partitions users partition_id user_id panel ≡ type_error
unfolding send_panic
send_panic_missing id_of partitions users partition_id user_id panel h = ground arith
