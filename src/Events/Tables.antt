-- ===== src/Events/Tables.antt =====
-- The words in which the tables of events and properties are written, for
-- paradox/hardware/{evo,spectra_magellan}/event.py and property.py.
pub mod Spectra
pub mod Evo
pub mod Checks
pub mod Announced
pub mod States
mod Tests
use pai.Prelude.{ℕ, String, Bool, true, false, Option, none, some, List, [], ◌∷◌}
use pai.Events.Live.{Datum, text, texts, changes, number, callable, Sub, Template, fields, message}
use pai.Events.Change.{PropertyEntry, MessageTemplate, by_value}

-- the value of a property in a change: a constant or one of the providers
pub data PropertyValue : Type 0 where
  flag : Bool → PropertyValue
  word : String → PropertyValue
  toggled stamped : PropertyValue

abbrev pub Field : Type 0
Field = String × Datum PropertyValue

abbrev pub Entry : Type 0
Entry = ℕ × Template PropertyValue

abbrev pub Detail : Type 0
Detail = ℕ × Sub PropertyValue

-- EventLevel of paradox/data/enums.py
abbrev pub debug : ℕ
debug = 10

abbrev pub info : ℕ
info = 20

abbrev pub warn : ℕ
warn = 30

abbrev pub error : ℕ
error = 40

abbrev pub critical : ℕ
critical = 50

abbrev pub at : ℕ → Field
at n = ("level", number n)

abbrev pub says : String → Field
says s = ("message", text s)

abbrev pub of_type : String → Field
of_type s = ("type", text s)

abbrev pub tagged : List String → Field
tagged ts = ("tags", texts ts)

abbrev pub changing : List (String × PropertyValue) → Field
changing c = ("change", changes c)

abbrev pub yes : String → String × PropertyValue
yes p = (p, flag true)

abbrev pub no : String → String × PropertyValue
no p = (p, flag false)

-- the functions of the tables
abbrev pub minor2_provider : Datum PropertyValue
minor2_provider = callable 0

abbrev pub zone_generated_alarm : Datum PropertyValue
zone_generated_alarm = callable 1

abbrev pub request_status_refresh : Datum PropertyValue
request_status_refresh = callable 2

-- an entry whose minor code is the number of an element
abbrev pub by_element : ℕ → List Field → Entry
by_element major fs = (major, record { entries = fs; sub = none })

-- an entry with details
abbrev pub by_minor : ℕ → List Field → List Detail → Entry
by_minor major fs subs = (major, record { entries = fs; sub = some subs })

abbrev pub on : ℕ → List Field → Detail
on minor fs = (minor, fields fs)

abbrev pub on_text : ℕ → String → Detail
on_text minor s = (minor, message s)

abbrev pub property : String → ℕ → Option (List String) → MessageTemplate → String × PropertyEntry
property name n ts w = (name, record { level = some n; tags = ts; message = some w })

abbrev pub yes_no : String → String → MessageTemplate
yes_no y n = by_value (("True", y) ∷ ("False", n) ∷ [])
