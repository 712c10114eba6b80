-- ===== src/Encodings/RoundTrip.antt =====
-- Decoding labels, and the search of a codec.
use Prim.Native.Char.{Char, code}
use Prim.Native.String.{[] as empty, ◌∷◌ as ◌then◌}
use text.Mathlib.TextEquality.{Char-path}
use pai.Prelude.{
  ℕ, zero, suc, String, Bool, true, false, not, ◌&&◌, ◌||◌, leb, Option, none, some, List, [], ◌∷◌,
  ◌==◌, ◌≡◌, ◌<◌, refl, ap, sym, ◌∙◌, subst, length, arith, All, IsBytes, all_below, all_below-elim,
  Option-cases, inl, inr, letters, concat, ==_iff,
}
use pai.Encodings.{
  Language, ar, de, el, en, et, he, hu, pl, pt, ro, ru, tr, charmap, char_at, decode, language_of,
}

letters-charmap : (l : Language) → letters (charmap l) ≡ 256
unfolding letters concat
letters-charmap ar = refl
letters-charmap de = refl
letters-charmap el = refl
letters-charmap en = refl
letters-charmap et = refl
letters-charmap he = refl
letters-charmap hu = refl
letters-charmap pl = refl
letters-charmap pt = refl
letters-charmap ro = refl
letters-charmap ru = refl
letters-charmap tr = refl

char_at-letters :
    (table : String) (i : ℕ) → i < letters table → (c : Char) × (char_at table i ≡ some c)
unfolding char_at letters
char_at-letters empty i h = ground (arith, h)
char_at-letters (c then s) zero h = (c, refl)
char_at-letters (c then s) (suc i) h = char_at-letters s i (omega (arith, h))

-- In each language every string of bytes decodes, one character for a byte.
pub decode-charmap :
    (l : Language) (bs : List ℕ)
    → IsBytes bs
    → (s : String) × (decode (charmap l) bs ≡ some s) × (letters s ≡ length bs)
unfolding decode letters
decode-charmap l [] h = (empty, refl, refl)
decode-charmap l (b ∷ bs) (h, hs) =
    let (c, e) = char_at-letters (charmap l) b (subst (λ n. b < n) (sym (letters-charmap l)) h) in
    let (s, d, n) = decode-charmap l bs hs in (c then s, ground (arith, e, d), ap suc n)

-- each entry of the cache is the codec of its name
abbrev pub IsFaithful : List (String × Language) → Type 0
IsFaithful = All (λ entry. language_of (entry.0) ≡ some (entry.1))

-- the codec that a name means
abbrev pub named : Option String → Option Language
named none = none
named (some enc) = language_of enc

-- the codes of characters between the blank and the tilde for which a charmap has another one
abbrev pub other_codes : Language → List ℕ
other_codes ar = 63 ∷ 64 ∷ 91 ∷ 92 ∷ 93 ∷ 94 ∷ 95 ∷ 96 ∷ 123 ∷ 124 ∷ 125 ∷ 126 ∷ []
other_codes he = 63 ∷ 64 ∷ 91 ∷ 92 ∷ 93 ∷ 94 ∷ 95 ∷ 96 ∷ 123 ∷ 124 ∷ 125 ∷ 126 ∷ []
other_codes ru =
    65 ∷ 66 ∷ 67 ∷ 69 ∷ 72 ∷ 75 ∷ 77 ∷ 79 ∷ 80 ∷ 84 ∷ 88 ∷ 97 ∷ 98 ∷ 99 ∷ 101 ∷ 111 ∷ 112 ∷ 120
    ∷ 121 ∷ []
other_codes l = []

unfoldable pub is_one_of : ℕ → List ℕ → Bool
is_one_of n [] = false
is_one_of n (m ∷ ms) = (n == m) || is_one_of n ms

-- the character is one of ASCII's, and the charmap has it at its code
abbrev pub is_kept : Language → ℕ → Bool
is_kept l n = leb 32 n && leb n 126 && not (is_one_of n (other_codes l))

unfoldable pub all_kept : Language → String → Bool
all_kept l empty = true
all_kept l (c then s) = is_kept l (code c) && all_kept l s

-- the text in ASCII
unfoldable pub codes : String → List ℕ
codes empty = []
codes (c then s) = code c ∷ codes s

abbrev has_code : Option Char → ℕ → Bool
has_code none n = false
has_code (some c) n = code c == n

abbrev agrees : Language → ℕ → Bool
agrees l n = not (is_kept l n) || has_code (char_at (charmap l) n) n

agrees_table : (l : Language) → all_below 127 (agrees l) ≡ true
unfolding all_below char_at concat is_one_of
agrees_table ar = refl
agrees_table de = refl
agrees_table el = refl
agrees_table en = refl
agrees_table et = refl
agrees_table he = refl
agrees_table hu = refl
agrees_table pl = refl
agrees_table pt = refl
agrees_table ro = refl
agrees_table ru = refl
agrees_table tr = refl

agrees_kept : (l : Language) (n : ℕ) → is_kept l n ≡ true → agrees l n ≡ true
agrees_kept l n k = all_below-elim 127 (agrees l) n (agrees_table l) (ground (arith, k))

char_at_kept :
    (l : Language) (c : Char) → is_kept l (code c) ≡ true → char_at (charmap l) (code c) ≡ some c
char_at_kept l c k = elim (Option-cases (char_at (charmap l) (code c))) [
  | inl n ↦ ground (arith, k, n, agrees_kept l (code c) k)
  | inr (d, e) ↦
      let same : (code d == code c) ≡ true = ground (arith, k, e, agrees_kept l (code c) k) in
      e ∙ ap some (Char-path d c ((==_iff (code d) (code c)).0 same))
]

-- A label in ASCII reads the same in each of the encodings, but for the characters that Arabic,
-- Hebrew and Russian panels do not have at their codes.
pub decode-codes :
    (l : Language) (s : String) → all_kept l s ≡ true → decode (charmap l) (codes s) ≡ some s
unfolding decode all_kept codes
decode-codes l empty h = refl
decode-codes l (c then s) h =
    ground (arith, char_at_kept l c (ground (arith, h)), decode-codes l s (ground (arith, h)))
