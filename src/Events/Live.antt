-- ===== src/Events/Live.antt =====
-- Events from the panel: `LiveEvent` of paradox/event.py, which takes its texts and tags from the
-- table of the panel.
use pai.Prelude.{
  ℕ, ◌≡◌, String, Bool, true, false, not, Option, none, some, List, [], ◌∷◌, ◌++◌, ◌==◌,
  if◌then◌else◌, lookup, upsert, string_eq, Eq, concat, arith, ==_iff,
}

-- the numbers of events, as keys
abbrev pub same_number : ℕ → ℕ → Bool
same_number a b = a == b

pub same_number_sound : (a b : ℕ) → same_number a b ≡ true → a ≡ b
same_number_sound a b h = (==_iff a b).0 h

pub same_number_refl : (a : ℕ) → same_number a a ≡ true
same_number_refl a = ground arith

instance abbrev pub number_eq : Eq ℕ
number_eq = record {
  same = same_number;
  same_sound = same_number_sound;
  same_refl = same_number_refl;
}

-- A value of a table: a text, a list of texts, a dictionary of changes, a number, or a function,
-- which is a number. V are the values of properties.
pub data Datum (V : Type 0) : Type 0 where
  text : String → Datum V
  texts : List String → Datum V
  changes : List (String × V) → Datum V
  number : ℕ → Datum V
  callable : ℕ → Datum V

-- a detail that the minor code selects: a text is its message
pub data Sub (V : Type 0) : Type 0 where
  message : String → Sub V
  fields : List (String × Datum V) → Sub V

-- the entry of a major code, its "sub" apart
pub record Template (V : Type 0) : Type 0 where
  pub entries : List (String × Datum V)
  pub sub : Option (List (ℕ × Sub V))

-- what the constructor reads of a message
pub record Raw : Type 0 where
  pub command : ℕ
  pub major : ℕ
  pub minor : ℕ
  pub partition : ℕ
  pub label : String

module _ {V : Type 0} (show : Datum V → String) where
  -- "{}: {}".format(..), for values as `format` shows them
  abbrev pub joined : Option (Datum V) → Datum V → Datum V
  joined none v = v
  joined (some old) v = text (concat (show old) (concat ": " (show v)))

  -- a list behind what is there; none is the TypeError of adding to what is no list
  abbrev pub extended : Option (Datum V) → List String → Option (Datum V)
  extended none ts = some (texts ts)
  extended (some (texts old)) ts = some (texts (old ++ ts))
  extended (some (text s)) ts = none
  extended (some (changes c)) ts = none
  extended (some (number n)) ts = none
  extended (some (callable f)) ts = none

  abbrev pub detail : Option (Datum V) → String → Datum V → Option (Datum V)
  detail old k v = if string_eq.same k "message" then some (joined old v) else elim v [
    | texts ts ↦ extended old ts
    | text s ↦ some (text s)
    | changes c ↦ some (changes c)
    | number n ↦ some (number n)
    | callable f ↦ some (callable f)
  ]

  -- the loop over the detail
  unfoldable pub add_details :
      List (String × Datum V) → List (String × Datum V) → Option (List (String × Datum V))
  add_details m [] = some m
  add_details m ((k, v) ∷ sub) = elim (detail (lookup m k) k v) [
    | none ↦ none
    | some w ↦ add_details (upsert m k w) sub
  ]

  abbrev pub fields_of : Sub V → List (String × Datum V)
  fields_of (message s) = ("message", text s) ∷ []
  fields_of (fields d) = d

  abbrev pub details : List (String × Datum V) → Option (Sub V) → Option (List (String × Datum V))
  details m none = some m
  details m (some s) = add_details m (fields_of s)

  abbrev pub with_details : Template V → ℕ → Option (List (String × Datum V))
  with_details t minor = elim (t.sub) [
    | none ↦ some t.entries
    | some subs ↦ details t.entries (lookup subs minor)
  ]

-- the functions of the table, but for "hook_fn", are called
abbrev pub resolved : {V : Type 0} → (ℕ → Datum V) → String → Datum V → Datum V
resolved run k v = if string_eq.same k "hook_fn" then v else elim v [
  | callable f ↦ run f
  | text s ↦ text s
  | texts ts ↦ texts ts
  | changes c ↦ changes c
  | number n ↦ number n
]

unfoldable pub resolve_all :
    {V : Type 0} → (ℕ → Datum V) → List (String × Datum V) → List (String × Datum V)
resolve_all run [] = []
resolve_all run ((k, v) ∷ m) = (k, resolved run k v) ∷ resolve_all run m

pub record LiveEvent (V : Type 0) : Type 0 where
  pub major : ℕ
  pub minor : ℕ
  pub id : Option ℕ
  pub entries : List (String × Datum V)
  pub label : String

abbrev pub is_partition : {V : Type 0} → Option (Datum V) → Bool
is_partition none = false
is_partition (some (text s)) = string_eq.same s "partition"
is_partition (some (texts ts)) = false
is_partition (some (changes c)) = false
is_partition (some (number n)) = false
is_partition (some (callable f)) = false

-- how the constructor ends: AssertionError, another exception, or an event
pub data Created (V : Type 0) : Type 0 where
  assertion_error raised : Created V
  created : LiveEvent V → Created V

-- the number of the element is the minor code where no detail hangs on it
abbrev pub id_of : {V : Type 0} → Template V → Raw → Option ℕ
id_of t raw = elim (t.sub) [ none ↦ some raw.minor | some subs ↦ none ]

module _ {V : Type 0} (label_provider : String → ℕ → String) where
  -- the partition's event has its label and its number
  abbrev pub placed : Raw → Option ℕ → List (String × Datum V) → LiveEvent V
  placed raw id m =
      if is_partition (lookup m "type")
      then record {
        major = raw.major;
        minor = raw.minor;
        id = some raw.partition;
        entries = m;
        label = label_provider "partition" raw.partition;
      }
      else record { major = raw.major; minor = raw.minor; id = id; entries = m; label = raw.label }

  -- `LiveEvent.__init__`, for a table of templates; `show` is `format` of a value, `run` calls the
  -- functions of the table
  unfoldable pub live_event :
      (Datum V → String) → List (ℕ × Template V) → (ℕ → Datum V) → Raw → Created V
  live_event show event_map run raw =
      if not (raw.command == 14) then assertion_error else elim (lookup event_map raw.major) [
        | none ↦ assertion_error
        | some t ↦ elim (with_details show t raw.minor) [
          | none ↦ raised
          | some m ↦ created (placed raw (id_of t raw) (resolve_all run m))
        ]
      ]
