-- ===== src/Events/Tests.antt =====
-- The filters at concrete events.
use pai.Prelude.{
  ℕ, ◌≤◌, ◌↔◌, List, upsert, concat, string_eq, String, ◌≡◌, refl, Bool, true, false, ◌||◌, none,
  some, [], ◌∷◌, ◌++◌, lookup,
}
use pai.Events.{
  Event, TagQuery, bool, live, codes, regexp, tag_match, any_query, query_match, has_all, has_none,
  contains, changes_all, changes_none, regexp_match, scan,
}
use pai.Events.Live.{
  Datum, text, texts, changes, fields, Template, Raw, LiveEvent, live_event, add_details,
  resolve_all, number_eq,
}
use pai.Events.Details.{add_details-lookup, Combines}
use pai.Events.Numbers.{live_event-id_of, IsNumbered}
use pai.Events.Matching.{tag_match-exclude, tag_match-append, regexp_match-FitsAny, FitsAny}

abbrev opened : Event
opened = record {
  level = 20;
  kind = live;
  type = "zone";
  tags = "zone" ∷ "open" ∷ [];
  name = "Kitchen";
  label = "Kitchen";
  changes = ("open", bool true) ∷ [];
  major = 1;
  minor = 7;
  key = "zone,Kitchen,open=True";
}

-- the queries `zone+open=true-"Hall"` and `-Kitchen`
abbrev openings : TagQuery
openings = record {
  include = "zone" ∷ [];
  exclude = "Hall" ∷ [];
  changes_include = ("open", some (bool true)) ∷ [];
  changes_exclude = [];
}

abbrev elsewhere : TagQuery
elsewhere = record {
  include = [];
  exclude = "Kitchen" ∷ [];
  changes_include = [];
  changes_exclude = [];
}

kitchen_opens : tag_match 20 (openings ∷ []) opened ≡ true
unfolding tag_match any_query query_match has_all has_none contains changes_all changes_none lookup
kitchen_opens = refl

tag_match-exclude_example : tag_match 20 (elsewhere ∷ []) opened ≡ false
unfolding contains
tag_match-exclude_example = tag_match-exclude 20 (elsewhere ∷ []) opened "Kitchen" refl refl

tag_match-append_example :
    tag_match 20 ((elsewhere ∷ []) ++ (openings ∷ [])) opened
    ≡ tag_match 20 (elsewhere ∷ []) opened || tag_match 20 (openings ∷ []) opened
tag_match-append_example = tag_match-append 20 (elsewhere ∷ []) (openings ∷ []) opened

abbrev never : String → String → Bool
never r key = false

-- all of major code 1 is let through, but for minor code 7
regexp_match-FitsAny_example :
    (regexp_match never 20 (codes 1 none ∷ []) (regexp "x" ∷ codes 1 (some 7) ∷ []) opened ≡ true)
    ↔ ((20 ≤ opened.level)
        × (opened.kind ≡ live)
        × FitsAny never opened (codes 1 none ∷ [])
        × ¬ FitsAny never opened (regexp "x" ∷ codes 1 (some 7) ∷ []))
regexp_match-FitsAny_example =
    regexp_match-FitsAny never 20 (codes 1 none ∷ []) (regexp "x" ∷ codes 1 (some 7) ∷ []) opened

kept_back :
    regexp_match never 20 (codes 1 none ∷ []) (regexp "x" ∷ codes 1 (some 7) ∷ []) opened ≡ false
unfolding regexp_match scan
kept_back = refl

-- two of a panel's entries: zones that open, and alarms with a detail for each minor code
abbrev zone_opens : Template Bool
zone_opens = record {
  entries =
      ("type", text "zone") ∷ ("message", text "Zone open") ∷ ("tags", texts ("zone" ∷ [])) ∷ [];
  sub = none;
}

abbrev fire : List (String × Datum Bool)
fire =
    ("message", text "Fire")
    ∷ ("tags", texts ("fire" ∷ []))
    ∷ ("change", changes (("fire", true) ∷ []))
    ∷ []

abbrev alarms : Template Bool
alarms = record {
  entries =
      ("type", text "partition") ∷ ("message", text "Alarm") ∷ ("tags", texts ("alarm" ∷ [])) ∷ [];
  sub = some ((4, fields fire) ∷ []);
}

abbrev shown : Datum Bool → String
shown d = elim d [ text s ↦ s | _ ↦ "?" ]

abbrev name_of : String → ℕ → String
name_of type n = "Home"

abbrev call : ℕ → Datum Bool
call f = text "called"

abbrev burning : Raw
burning = record { command = 14; major = 36; minor = 4; partition = 1; label = "Kitchen" }

abbrev fire_alarm : List (String × Datum Bool)
fire_alarm =
    ("type", text "partition")
    ∷ ("message", text "Alarm: Fire")
    ∷ ("tags", texts ("alarm" ∷ "fire" ∷ []))
    ∷ ("change", changes (("fire", true) ∷ []))
    ∷ []

abbrev fire_event : LiveEvent Bool
fire_event = record { major = 36; minor = 4; id = some 1; entries = fire_alarm; label = "Home" }

live_event-id_of_example :
    (t : Template Bool) × (burning.command ≡ 14)
    × (lookup ((1, zone_opens) ∷ (36, alarms) ∷ []) burning.major ≡ some t)
    × IsNumbered t burning fire_event
unfolding live_event add_details resolve_all lookup upsert concat
live_event-id_of_example =
    live_event-id_of shown name_of ((1, zone_opens) ∷ (36, alarms) ∷ []) call burning fire_event
      refl

add_details-lookup_example :
    (w : Datum Bool) × (lookup fire_alarm "tags" ≡ some w)
    × Combines shown "tags" (lookup alarms.entries "tags") (texts ("fire" ∷ [])) w
unfolding add_details lookup upsert concat
add_details-lookup_example =
    add_details-lookup shown alarms.entries fire fire_alarm "tags" (texts ("fire" ∷ [])) refl refl
      refl
