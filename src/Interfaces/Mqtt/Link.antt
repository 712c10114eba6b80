-- ===== src/Interfaces/Mqtt/Link.antt =====
-- The connection to the broker: `MQTTConnection` of paradox/interfaces/mqtt/core.py.
use pai.Prelude.{
  ℕ, ◌≡◌, ◌⊎◌, inr, String, Bool, true, false, Option, none, some, List, [], ◌∷◌, ◌++◌, ◌==◌,
  if◌then◌else◌, string_eq, arith, refl, ap, subst, ◌∙◌, is_in,
}

-- `ConnectionState`; the constructors' names are in the source's order
pub data ConnectionState : Type 0 where
  new connecting connected disconnecting : ConnectionState

-- Interfaces are numbers. `looping` is whether the client's thread runs; `published` are the
-- messages of the status topic and of the availability topic, newest first.
pub record Link : Type 0 where
  pub state : ConnectionState
  pub last_pai_status : String
  pub registrars : List ℕ
  pub looping : Bool
  pub published : List (String × String)

abbrev pub availability : String → String
availability status = if is_in status ("online" ∷ "paused" ∷ []) then "online" else "offline"

-- `_report_pai_status`
unfoldable pub report : String → Link → Link
report status l = record l {
  last_pai_status = status;
  published = (status, availability status) ∷ l.published;
}

-- `start`; `resolves` is whether connect_async finds the host, a socket.gaierror is caught
unfoldable pub start : Bool → Link → Link
start resolves l = elim (l.state) [
  | new ↦ record l { state = if resolves then connecting else new; looping = true }
  | _ ↦ l
]

-- `stop`, with `disconnect`
unfoldable pub stop : Link → Link
stop l = elim (l.state) [
  | connecting ↦ record (report "offline" (record l { state = disconnecting })) { looping = false }
  | connected ↦ record (report "offline" (record l { state = disconnecting })) { looping = false }
  | new ↦ l
  | disconnecting ↦ l
]

-- `register`
unfoldable pub register : Bool → ℕ → Link → Link
register resolves r l = start resolves (record l { registrars = l.registrars ++ r ∷ [] })

-- list.remove; none is its ValueError
abbrev pub remove : List ℕ → ℕ → Option (List ℕ)
remove [] r = none
remove (x ∷ xs) r =
    let rest = remove xs r in
    if x == r then some xs else (elim rest [ none ↦ none | some ys ↦ some (x ∷ ys) ])

-- what `unregister` does with the interfaces that are left
abbrev pub leave : List ℕ → Link → Link
leave [] l = stop (record l { registrars = [] })
leave (x ∷ xs) l = record l { registrars = x ∷ xs }

-- `unregister`
unfoldable pub unregister : ℕ → Link → Option Link
unregister r l = elim (remove l.registrars r) [ none ↦ none | some rs ↦ some (leave rs l) ]

-- `_on_connect_cb`, for whether the result is a success
unfoldable pub on_connect_cb : Bool → Link → Link
on_connect_cb success l =
    if success then report l.last_pai_status (record l { state = connected }) else l

-- `_on_disconnect_cb`, whatever the result code
unfoldable pub on_disconnect_cb : Link → Link
on_disconnect_cb l = record l { state = new }

-- `RUN_STATE_2_PAYLOAD` is applied by the caller of `on_run_state_change`, which reports.
-- What happens to a connection: the client's callbacks come while its thread runs.
pub data Step : Link → Link → Type 0 where
  registers : (resolves : Bool) (r : ℕ) (l : Link) → Step l (register resolves r l)
  unregisters : (r : ℕ) (l m : Link) → unregister r l ≡ some m → Step l m
  connects : (success : Bool) (l : Link) → l.looping ≡ true → Step l (on_connect_cb success l)
  disconnects : (l : Link) → Step l (on_disconnect_cb l)
  reports : (status : String) (l : Link) → Step l (report status l)

pub data Steps : Link → Link → Type 0 where
  nothing : (l : Link) → Steps l l
  more : (l m n : Link) → Steps l m → Step m n → Steps l n

abbrev pub is_live : ConnectionState → Bool
is_live s = elim s [ connecting ↦ true | connected ↦ true | new ↦ false | disconnecting ↦ false ]

-- whether the last publications are the status and its availability
abbrev pub head : List (String × String) → Option (String × String)
head [] = none
head (p ∷ ps) = some p

abbrev pub Tells : String → List (String × String) → Type 0
Tells status ps = (head ps ≡ none) ⊎ (head ps ≡ some (status, availability status))

-- A connection that is being made, or is made, has a running thread, and what the broker keeps is
-- the last status with its availability.
abbrev pub IsSound : Link → Type 0
IsSound l = (is_live l.state ≡ true → l.looping ≡ true) × Tells l.last_pai_status l.published

start-IsSound : (l : Link) (resolves : Bool) → IsSound l → IsSound (start resolves l)
unfolding start
start-IsSound l resolves s = (ground (arith, s), ground (arith, s))

stop-IsSound : (l : Link) → IsSound l → IsSound (stop l)
unfolding stop report
stop-IsSound l s = (ground (arith, s), ground (arith, s))

leave-IsSound : (rs : List ℕ) (l : Link) → IsSound l → IsSound (leave rs l)
leave-IsSound [] l s = stop-IsSound (record l { registrars = [] }) s
leave-IsSound (x ∷ xs) l s = s

unregister-IsSound :
    (rs : Option (List ℕ)) (l m : Link)
    → (elim rs [ none ↦ none | some xs ↦ some (leave xs l) ]) ≡ some m
    → IsSound l
    → IsSound m
unregister-IsSound none l m h s = ground (arith, h)
unregister-IsSound (some xs) l m h s =
    let e : leave xs l ≡ m = cc h in subst IsSound e (leave-IsSound xs l s)

Step-IsSound : {l m : Link} → Step l m → IsSound l → IsSound m
unfolding register unregister on_connect_cb on_disconnect_cb report
Step-IsSound (registers resolves r l) s =
    start-IsSound (record l { registrars = l.registrars ++ r ∷ [] }) resolves s
Step-IsSound (unregisters r l m h) s = unregister-IsSound (remove l.registrars r) l m h s
Step-IsSound (connects true l h) s = (λ _. h, inr refl)
Step-IsSound (connects false l h) s = s
Step-IsSound (disconnects l) s = (λ h. ground (arith, h), s.1)
Step-IsSound (reports status l) s = (s.0, inr refl)

-- Whatever interfaces and callbacks do, a connection that counts as being made, or made, has a
-- running thread, and what has been published last is the last status with its availability.
pub Steps-IsSound : {l m : Link} → Steps l m → IsSound l → IsSound m
Steps-IsSound (nothing l) s = s
Steps-IsSound (more l m n r st) s = Step-IsSound st (Steps-IsSound r s)

remove_only : (r : ℕ) → remove (r ∷ []) r ≡ some []
remove_only r = ground arith

-- When the broker's connection is lost and the only interface unregisters after that, the thread is
-- left running with no interface, and its next success connects the link again.
pub unregister_lost :
    (l : Link) (r : ℕ)
    → l.registrars ≡ r ∷ []
    → l.looping ≡ true
    → (m : Link) × (unregister r (on_disconnect_cb l) ≡ some m)
      × (m.registrars ≡ [])
      × (m.looping ≡ true)
      × ((on_connect_cb true m).state ≡ connected)
unfolding unregister on_disconnect_cb on_connect_cb stop report
unregister_lost l r e h =
    let m : Link = record l { state = new; registrars = [] } in
    let emptied = ap (λ rs. remove rs r) e ∙ remove_only r in
    (
      m,
      ap (λ o. elim o [ none ↦ none | some xs ↦ some (leave xs (on_disconnect_cb l)) ]) emptied,
      refl,
      h,
      refl,
    )
