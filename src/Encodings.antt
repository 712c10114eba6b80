-- ===== src/Encodings.antt =====
-- The character encodings of the labels: paradox/lib/encodings. A codec is that of the standard
-- library's `charmap_decode` over a charmap, with errors "strict"; nothing in PAI encodes with it.
pub mod Charmaps
pub mod RoundTrip
mod Tests
use Prim.Native.Char.{Char, code}
use Prim.Native.String.{[] as empty, ◌∷◌ as ◌then◌}
use pai.Prelude.{
  ℕ, zero, suc, String, Bool, true, false, ◌&&◌, ◌||◌, Option, none, some, List, [], ◌∷◌, ◌==◌, leb,
  if◌then◌else◌, concat, lower, is_in, string_eq,
}
use pai.Encodings.Charmaps.{
  ar_low, ar_high, de_low, de_high, el_low, el_high, en_low, en_high, et_low, et_high, he_low,
  he_high, hu_low, hu_high, pl_low, pl_high, pt_low, pt_high, ro_low, ro_high, ru_low, ru_high,
  tr_low, tr_high,
}

-- the modules of the charmaps
pub data Language : Type 0 where
  ar de el en et he hu pl pt ro ru tr : Language

abbrev pub charmap : Language → String
charmap ar = concat ar_low ar_high
charmap de = concat de_low de_high
charmap el = concat el_low el_high
charmap en = concat en_low en_high
charmap et = concat et_low et_high
charmap he = concat he_low he_high
charmap hu = concat hu_low hu_high
charmap pl = concat pl_low pl_high
charmap pt = concat pt_low pt_high
charmap ro = concat ro_low ro_high
charmap ru = concat ru_low ru_high
charmap tr = concat tr_low tr_high

-- the character of a byte
unfoldable pub char_at : String → ℕ → Option Char
char_at empty i = none
char_at (c then s) zero = some c
char_at (c then s) (suc i) = char_at s i

-- `charmap_decode`; none is a UnicodeDecodeError
unfoldable pub decode : String → List ℕ → Option String
decode table [] = some empty
decode table (b ∷ bs) = elim (char_at table b) [
  | none ↦ none
  | some c ↦ elim (decode table bs) [ none ↦ none | some s ↦ some (c then s) ]
]

-- the names of the modules; another one is an ImportError
abbrev pub language_of : String → Option Language
language_of enc =
    if string_eq.same enc "ar"
    then some ar
    else if string_eq.same enc "de"
    then some de
    else if string_eq.same enc "el"
    then some el
    else if string_eq.same enc "en"
    then some en
    else if string_eq.same enc "et"
    then some et
    else if string_eq.same enc "he"
    then some he
    else if string_eq.same enc "hu"
    then some hu
    else if string_eq.same enc "pl"
    then some pl
    else if string_eq.same enc "pt"
    then some pt
    else if string_eq.same enc "ro"
    then some ro
    else if string_eq.same enc "ru"
    then some ru
    else if string_eq.same enc "tr"
    then some tr
    else none

abbrev is_small : Char → Bool
is_small c = leb 97 (code c) && leb (code c) 122

-- what `$` stands at: the end, or a newline there
abbrev is_end : String → Bool
is_end empty = true
is_end (c then empty) = code c == 10
is_end (c then d then s) = false

-- `[-_]([a-z]{2})$`
abbrev language_match : String → Option String
language_match (s then c then d then rest) =
    if (code s == 45 || code s == 95) && is_small c && is_small d && is_end rest
    then some (c then d then empty)
    else none
language_match s = none

abbrev after : String → String → Option String
after empty s = some s
after (p then ps) empty = none
after (p then ps) (c then s) = let rest = after ps s in if code p == code c then rest else none

-- `re.match("^paradox[-_]([a-z]{2})$", name)` and its group
unfoldable pub name_match : String → Option String
name_match name = elim (after "paradox" name) [ none ↦ none | some rest ↦ language_match rest ]

-- what `paradox_codec_search` returns, and the cache after it
pub record Search : Type 0 where
  pub codec : Option Language
  pub codec_cache : List (String × Language)

abbrev pub cached : List (String × Language) → String → Option Language
cached [] enc = none
cached ((e, l) ∷ cache) enc = if string_eq.same e enc then some l else cached cache enc

abbrev pub load : List (String × Language) → String → Search
load cache enc = elim (language_of enc) [
  | none ↦ record { codec = none; codec_cache = cache }
  | some l ↦ record { codec = some l; codec_cache = (enc, l) ∷ cache }
]

abbrev pub search_for : List (String × Language) → String → Search
search_for cache enc = elim (cached cache enc) [
  | some l ↦ record { codec = some l; codec_cache = cache }
  | none ↦ load cache enc
]

unfoldable pub paradox_codec_search : List (String × Language) → String → Search
paradox_codec_search cache name = elim (name_match (lower name)) [
  | none ↦ record { codec = none; codec_cache = cache }
  | some enc ↦ search_for cache enc
]
