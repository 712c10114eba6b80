-- ===== src/Events/Tables/Announced.antt =====
-- The changes that the events of a panel make are in its table of properties: `event_map` and
-- `property_map` of paradox/hardware/{evo,spectra_magellan}/panel.py.
use pai.Prelude.{
  ℕ, ◌≡◌, String, Bool, true, false, not, ◌&&◌, ◌||◌, Option, none, some, List, [], ◌∷◌, is_in,
  lookup, upsert, string_eq, arith, refl, Option-cases, Bool-cases, inl, inr, sym, ap, ◌∙◌, subst,
}
use pai.Events.Live.{
  Datum, Template, changes, text, texts, number, callable, Raw, LiveEvent, created, live_event,
  add_details, number_eq,
}
use pai.Storage.{Change}
use pai.Session.Changes.{on_property_change}
use pai.Events.Change.{PropertyEntry, ChangeEvent, change_event, event_from, message_for, initial}
use pai.Events.Details.{lookup-resolve_all, resolved_at}
use pai.Events.Tables.{PropertyValue, flag, word, toggled, stamped, Entry, Field}
use pai.Events.Tables.Spectra.{spectra_event_map, spectra_property_map}
use pai.Events.Tables.Evo.{evo_event_map, evo_property_map}
use pai.Events.Tables.Checks.{every_entry, every_detail, live_event-holds, live_event-every_entry}

pub data Hardware : Type 0 where
  evo spectra_magellan : Hardware

abbrev pub event_map : Hardware → List Entry
event_map evo = evo_event_map
event_map spectra_magellan = spectra_event_map

abbrev pub property_map : Hardware → List (String × PropertyEntry)
property_map evo = evo_property_map
property_map spectra_magellan = spectra_property_map

-- `str` of a constant
abbrev pub str : PropertyValue → String
str (flag true) = "True"
str (flag false) = "False"
str (word w) = w
str toggled = ""
str stamped = ""

abbrev pub is_constant : PropertyValue → Bool
is_constant (flag b) = true
is_constant (word w) = true
is_constant toggled = false
is_constant stamped = false

-- the properties that events change and the table of properties lacks
abbrev pub unannounced : Hardware → List String
unannounced evo = "fire_loop_trouble" ∷ "shutdown" ∷ []
unannounced spectra_magellan =
    "button_b" ∷ "button_c" ∷ "button_d" ∷ "button_e" ∷ "button_5" ∷ "button_6" ∷ "fire_alarm" ∷ []

abbrev spoken : PropertyValue → Option PropertyEntry → Bool
spoken v none = false
spoken v (some q) = not (is_constant v) || not (string_eq.same (message_for q.message (str v)) "")

unfoldable all_announced : Hardware → List (String × PropertyValue) → Bool
all_announced h [] = true
all_announced h ((p, v) ∷ c) =
    (is_in p (unannounced h) || spoken v (lookup (property_map h) p)) && all_announced h c

abbrev change_announced : Hardware → Option (Datum PropertyValue) → Bool
change_announced h none = true
change_announced h (some (changes c)) = all_announced h c
change_announced h (some (text s)) = false
change_announced h (some (texts ts)) = false
change_announced h (some (number n)) = false
change_announced h (some (callable f)) = false

abbrev announces : Hardware → List Field → Bool
announces h m = change_announced h (lookup m "change")

event_map-announces :
    (show : Datum PropertyValue → String) (h : Hardware)
    → every_entry show (announces h) (event_map h) ≡ true
unfolding every_entry every_detail add_details lookup upsert all_announced is_in
event_map-announces show evo = refl
event_map-announces show spectra_magellan = refl

or_holds : (a b c : Bool) → (a || b) && c ≡ true → a ≡ false → b ≡ true
or_holds a b c h n = ground (arith, h, n)

and_right : (a b : Bool) → a && b ≡ true → b ≡ true
and_right a b h = ground (arith, h)

all_announced-lookup :
    (h : Hardware) (c : List (String × PropertyValue)) (p : String) (v : PropertyValue)
    → all_announced h c ≡ true
    → lookup c p ≡ some v
    → is_in p (unannounced h) ≡ false
    → spoken v (lookup (property_map h) p) ≡ true
unfolding all_announced lookup
all_announced-lookup h [] p v a l n = ground (arith, l)
all_announced-lookup h ((q, w) ∷ c) p v a l n = elim (Bool-cases (string_eq.same q p)) [
  | inr e ↦
      all_announced-lookup h c p v
        (and_right (is_in q (unannounced h) || spoken w (lookup (property_map h) q))
          (all_announced h c) a)
        (ground (arith, l, e)) n
  | inl e ↦
      let s : q ≡ p = string_eq.same_sound q p e in
      let x : w ≡ v = ground (arith, l, e) in
      let m : is_in q (unannounced h) ≡ false = ap (λ z. is_in z (unannounced h)) s ∙ n in
      let y : spoken w (lookup (property_map h) q) ≡ true =
        or_holds (is_in q (unannounced h)) (spoken w (lookup (property_map h) q))
          (all_announced h c) a m in
      subst (λ z. spoken z (lookup (property_map h) p) ≡ true) x
        (subst (λ z. spoken w (lookup (property_map h) z) ≡ true) s y)
]

resolved_at-change :
    (run : ℕ → Datum PropertyValue) (h : Hardware) (o : Option (Datum PropertyValue))
    (c : List (String × PropertyValue))
    → change_announced h o ≡ true
    → resolved_at run "change" o ≡ some (changes c)
    → all_announced h c ≡ true
resolved_at-change run h none c a r = ground (arith, r)
resolved_at-change run h (some (changes d)) c a r = ground (arith, a, r)
resolved_at-change run h (some (text s)) c a r = ground (arith, a)
resolved_at-change run h (some (texts s)) c a r = ground (arith, a)
resolved_at-change run h (some (number s)) c a r = ground (arith, a)
resolved_at-change run h (some (callable s)) c a r = ground (arith, a)

spoken-message :
    (h : Hardware) (type key : String) (x : Change PropertyValue)
    → initial x ≡ false
    → is_constant x.new_value ≡ true
    → spoken x.new_value (lookup (property_map h) x.property) ≡ true
    → (q : ChangeEvent PropertyValue) × (on_property_change str (property_map h) type key x
        ≡ q ∷ [])
      × (string_eq.same q.message "" ≡ false)
unfolding on_property_change change_event
spoken-message h type key x i k s = elim (Option-cases (lookup (property_map h) x.property)) [
  | inl n ↦ ground (arith, s, n)
  | inr (p, n) ↦ (event_from str type key x p, ground (arith, i, n), ground (arith, s, n, k))
]

-- Where a live event of an EVO or a Spectra panel changes a property to a constant, the change of
-- that property to that value makes one event, with a message: if the property had a value before
-- and is not one of `unannounced`, two on EVO and seven on Spectra panels.
pub live_event-on_property_change :
    (h : Hardware) (show : Datum PropertyValue → String) (label_provider : String → ℕ → String)
    (run : ℕ → Datum PropertyValue) (raw : Raw) (e : LiveEvent PropertyValue)
    (c : List (String × PropertyValue)) (type key : String) (x : Change PropertyValue)
    → live_event label_provider show (event_map h) run raw ≡ created e
    → lookup e.entries "change" ≡ some (changes c)
    → lookup c x.property ≡ some x.new_value
    → is_constant x.new_value ≡ true
    → is_in x.property (unannounced h) ≡ false
    → initial x ≡ false
    → (q : ChangeEvent PropertyValue) × (on_property_change str (property_map h) type key x
        ≡ q ∷ [])
      × (string_eq.same q.message "" ≡ false)
live_event-on_property_change h show label_provider run raw e c type key x s l v k u i =
    let (m, same, a) =
      live_event-holds show (announces h) label_provider (event_map h) run raw e
        (event_map-announces show h) s in
    let r : resolved_at run "change" (lookup m "change") ≡ some (changes c) =
      sym (lookup-resolve_all run m "change") ∙ ap (λ z. lookup z "change") (sym same) ∙ l in
    spoken-message h type key x i k (
      all_announced-lookup h c x.property x.new_value
        (resolved_at-change run h (lookup m "change") c a r) v u)

-- A live event message of an EVO or a Spectra panel whose major code is in the panel's table always
-- becomes an event: joining the details of its minor code raises nothing.
pub live_event-event_map :
    (h : Hardware) (show : Datum PropertyValue → String) (label_provider : String → ℕ → String)
    (run : ℕ → Datum PropertyValue) (raw : Raw) (t : Template PropertyValue)
    → raw.command ≡ 14
    → lookup (event_map h) raw.major ≡ some t
    → (e : LiveEvent PropertyValue) × (live_event label_provider show (event_map h) run raw
        ≡ created e)
live_event-event_map h show label_provider run raw t c l =
    live_event-every_entry show (announces h) label_provider (event_map h) run raw t
      (event_map-announces show h) c l
