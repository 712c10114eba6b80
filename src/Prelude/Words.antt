-- ===== src/Prelude/Words.antt =====
-- Python's methods on texts that the program uses: `split`, `startswith`, `lower`, `strip` and `in`.
-- `lower` and `strip` are those of ASCII texts.
use Prim.Native.Nat.{ℕ, zero, suc, ◌-◌}
use Prim.Native.Char.{Char, code}
use Prim.Native.String.{String, [], ◌∷◌}
use mathlib.Core.Bool.{Bool, true, false, ◌&&◌, ◌||◌}
use mathlib.Core.List.{List, [] as nil, ◌∷◌ as ◌then◌}
use pai.Prelude.Tests.{◌==◌, leb, if◌then◌else◌}
use pai.Prelude.Strings.{string_eq}

-- c in front of the first piece
abbrev pub push : Char → List String → List String
push c nil = (c ∷ []) then nil
push c (s then ss) = (c ∷ s) then ss

-- s.split(sep), for a separator of one character, given by its code
unfoldable pub split : ℕ → String → List String
split sep [] = [] then nil
split sep (c ∷ s) = let rest = split sep s in if code c == sep then [] then rest else push c rest

-- s.startswith(prefix)
unfoldable pub starts_with : String → String → Bool
starts_with s [] = true
starts_with [] (p ∷ ps) = false
starts_with (c ∷ s) (p ∷ ps) = (code c == code p) && starts_with s ps

-- the number of characters
unfoldable pub letters : String → ℕ
letters [] = 0
letters (c ∷ s) = suc (letters s)

-- s.split(sep), for a text that is not empty; the ℕ is how many characters of sep are still to come
unfoldable pub split_text : String → ℕ → String → List String
split_text sep skip [] = [] then nil
split_text sep (suc skip) (c ∷ s) = split_text sep skip s
split_text sep zero (c ∷ s) =
    let later = split_text sep (letters sep - 1) s in
    let rest = split_text sep zero s in
    if starts_with (c ∷ s) sep then [] then later else push c rest

-- sep in s, for a text that is not empty
unfoldable pub occurs : String → String → Bool
occurs sep [] = false
occurs sep (c ∷ s) = starts_with (c ∷ s) sep || occurs sep s

-- s + t
unfoldable pub concat : String → String → String
concat [] t = t
concat (c ∷ s) t = c ∷ concat s t

-- sep.join(ss)
unfoldable pub join : String → List String → String
join sep nil = []
join sep (s then nil) = s
join sep (s then t then ss) = concat s (concat sep (join sep (t then ss)))

unfoldable pub is_in : String → List String → Bool
is_in s nil = false
is_in s (t then ts) = string_eq.same t s || is_in s ts

-- the character that stands where c does in the other alphabet
abbrev pick : Char → String → String → Char
pick c [] to = c
pick c (f ∷ from) [] = c
pick c (f ∷ from) (t ∷ to) = let rest = pick c from to in if code f == code c then t else rest

abbrev lower_char : Char → Char
lower_char c = pick c "ABCDEFGHIJKLMNOPQRSTUVWXYZ" "abcdefghijklmnopqrstuvwxyz"

unfoldable pub lower : String → String
lower [] = []
lower (c ∷ s) = lower_char c ∷ lower s

-- blanks: the space, and 9 to 13 and 28 to 31
abbrev is_space : Char → Bool
is_space c =
    (code c == 32) || (leb 9 (code c) && leb (code c) 13) || (leb 28 (code c) && leb (code c) 31)

abbrev strip_left : String → String
strip_left [] = []
strip_left (c ∷ s) = let rest = strip_left s in if is_space c then rest else c ∷ s

abbrev strip_cons : Char → String → String
strip_cons c [] = if is_space c then [] else c ∷ []
strip_cons c (d ∷ s) = c ∷ d ∷ s

abbrev strip_right : String → String
strip_right [] = []
strip_right (c ∷ s) = strip_cons c (strip_right s)

unfoldable pub strip : String → String
strip s = strip_right (strip_left s)
