-- ===== src/Storage/Keys.antt =====
-- The keys of a container: numbers and texts, and the texts of digits that stand for numbers.
use Prim.Native.Char.{Char, code}
use Prim.Native.String.{String, [], ◌∷◌}
use pai.Prelude.{
  ℕ, ◌+◌, ◌-◌, ◌*◌, ◌≡◌, ap, Bool, true, false, ◌&&◌, leb, ◌==◌, arith, Eq, string_eq,
  if◌then◌else◌, ==_iff,
}

pub data Key : Type 0 where
  number : ℕ → Key
  text : String → Key

-- str.isdigit on ASCII texts
abbrev pub is_digit : Char → Bool
is_digit c = leb 48 (code c) && leb (code c) 57

abbrev pub all_digits : String → Bool
all_digits [] = true
all_digits (c ∷ s) = is_digit c && all_digits s

abbrev pub is_digits : String → Bool
is_digits [] = false
is_digits (c ∷ s) = all_digits (c ∷ s)

-- int() of such a text, from the value of the digits before
abbrev pub int_from : ℕ → String → ℕ
int_from n [] = n
int_from n (c ∷ s) = int_from (n * 10 + (code c - 48)) s

-- `__keytransform__`
unfoldable pub keytransform : Key → Key
keytransform (number n) = number n
keytransform (text s) = if is_digits s then number (int_from 0 s) else text s

abbrev pub same_key : Key → Key → Bool
same_key (number m) (number n) = m == n
same_key (number m) (text t) = false
same_key (text s) (number n) = false
same_key (text s) (text t) = string_eq.same s t

pub same_key_sound : (a b : Key) → same_key a b ≡ true → a ≡ b
same_key_sound (number m) (number n) h = ap number ((==_iff m n).0 h)
same_key_sound (number m) (text t) h = ground (arith, h)
same_key_sound (text s) (number n) h = ground (arith, h)
same_key_sound (text s) (text t) h = ap text (string_eq.same_sound s t h)

pub same_key_refl : (a : Key) → same_key a a ≡ true
same_key_refl (number m) = ground arith
same_key_refl (text s) = string_eq.same_refl s

instance abbrev pub key_eq : Eq Key
key_eq = record { same = same_key; same_sound = same_key_sound; same_refl = same_key_refl }
