-- ===== src/Events.antt =====
-- Which events an interface lets through: paradox/lib/event_filter.py. How events are made is in the
-- child modules.
pub mod Live
pub mod Details
pub mod Numbers
pub mod Change
pub mod Tables
pub mod Matching
mod Tests
use text.Mathlib.Text.{◌==◌ as str_eq}
use pai.Prelude.{
  ℕ, String, Bool, true, false, not, ◌&&◌, ◌||◌, Option, none, some, List, [], ◌∷◌, ◌++◌, leb, ltb,
  ◌==◌, if◌then◌else◌, lookup, string_eq,
}

-- the class of an event
pub data Kind : Type 0 where
  live change plain : Kind

-- A value of a property, as far as filters compare it: Python's True equals 1 and False 0.
pub data Value : Type 0 where
  str : String → Value
  bool : Bool → Value
  number : ℕ → Value

abbrev pub as_number : Bool → ℕ
as_number b = if b then 1 else 0

abbrev pub same_value : Value → Value → Bool
same_value (str a) (str b) = str_eq a b
same_value (str a) (bool b) = false
same_value (str a) (number b) = false
same_value (bool a) (str b) = false
same_value (bool a) (bool b) = as_number a == as_number b
same_value (bool a) (number b) = as_number a == b
same_value (number a) (str b) = false
same_value (number a) (bool b) = a == as_number b
same_value (number a) (number b) = a == b

-- the fields of an event that the filters read; `major`, `minor` and `key` those of a live event
pub record Event : Type 0 where
  pub level : ℕ
  pub kind : Kind
  pub type : String
  pub tags : List String
  pub name : String
  pub label : String
  pub changes : List (String × Value)
  pub major : ℕ
  pub minor : ℕ
  pub key : String

-- `EventFilter.match`
abbrev pub level_match : ℕ → Event → Bool
level_match min_level event = leb min_level event.level

abbrev pub is_live : Kind → Bool
is_live k = elim k [ live ↦ true | _ ↦ false ]

-- `LiveEventFilter.match`
abbrev pub live_match : ℕ → Event → Bool
live_match min_level event = level_match min_level event && is_live event.kind

-- `TagQuery`; none as a value stands for any value
pub record TagQuery : Type 0 where
  pub include : List String
  pub exclude : List String
  pub changes_include : List (String × Option Value)
  pub changes_exclude : List (String × Option Value)

abbrev pub kind_tags : Kind → List String
kind_tags k = elim k [ live ↦ "live" ∷ [] | change ↦ "change" ∷ [] | plain ↦ [] ]

-- the list `tags` of `match`
abbrev pub tags_of : Event → List String
tags_of e =
    e.type ∷ kind_tags e.kind ++ e.tags ++ (if is_live e.kind then e.name ∷ e.label ∷ [] else [])

unfoldable pub contains : List String → String → Bool
contains [] t = false
contains (s ∷ ss) t = str_eq s t || contains ss t

-- all(i in tags for i in include), and all(e not in tags for e in exclude)
unfoldable pub has_all : List String → List String → Bool
has_all tags [] = true
has_all tags (i ∷ is) = contains tags i && has_all tags is

unfoldable pub has_none : List String → List String → Bool
has_none tags [] = true
has_none tags (e ∷ es) = not (contains tags e) && has_none tags es

-- the property has changed, to the value where one is asked for
abbrev pub changed_to : Option Value → Option Value → Bool
changed_to wanted none = false
changed_to none (some v) = true
changed_to (some w) (some v) = same_value v w

unfoldable pub changes_all : List (String × Value) → List (String × Option Value) → Bool
changes_all changes [] = true
changes_all changes ((k, w) ∷ cs) = changed_to w (lookup changes k) && changes_all changes cs

-- ce.key not in event.change or (ce.value is not None and event.change.get(ce.key) != ce.value)
abbrev pub changed_else : Option Value → Option Value → Bool
changed_else wanted none = true
changed_else none (some v) = false
changed_else (some w) (some v) = not (same_value v w)

unfoldable pub changes_none : List (String × Value) → List (String × Option Value) → Bool
changes_none changes [] = true
changes_none changes ((k, w) ∷ cs) = changed_else w (lookup changes k) && changes_none changes cs

unfoldable pub query_match : Event → TagQuery → Bool
query_match e q =
    has_all (tags_of e) q.include
    && has_none (tags_of e) q.exclude
    && changes_all e.changes q.changes_include
    && changes_none e.changes q.changes_exclude

unfoldable pub any_query : Event → List TagQuery → Bool
any_query e [] = false
any_query e (q ∷ qs) = query_match e q || any_query e qs

-- `EventTagFilter.match`
unfoldable pub tag_match : ℕ → List TagQuery → Event → Bool
tag_match min_level queries e = level_match min_level e && any_query e queries

-- an entry of the lists of `LiveEventRegexpFilter`: a pair of codes (none stands for -1, any minor
-- code), or a regular expression
pub data Pattern : Type 0 where
  codes : ℕ → Option ℕ → Pattern
  regexp : String → Pattern

-- `re.match`, with the compiled expressions of the library
module _ (re_match : String → String → Bool) where
  abbrev pub minor_fits : Option ℕ → ℕ → Bool
  minor_fits none minor = true
  minor_fits (some m) minor = minor == m

  abbrev pub fits : Event → Pattern → Bool
  fits e (codes major minor) = e.major == major && minor_fits minor e.minor
  fits e (regexp r) = re_match r e.key

  -- a `for` loop that sets the flag at the first entry that fits, and breaks
  unfoldable pub scan : Event → Bool → Bool → List Pattern → Bool
  scan e value allow [] = allow
  scan e value allow (p ∷ ps) = let rest = scan e value allow ps in if fits e p then value else rest

  unfoldable pub regexp_match : ℕ → List Pattern → List Pattern → Event → Bool
  regexp_match min_level events_allow events_ignore e =
      if live_match min_level e
      then scan e false (scan e true false events_allow) events_ignore
      else false
