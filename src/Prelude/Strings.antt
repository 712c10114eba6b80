-- ===== src/Prelude/Strings.antt =====
-- The equality of Python's strings, as an instance for dictionaries.
use Prim.Native.String.{String}
use text.Mathlib.Text.{◌==◌ as str_eq}
use text.Mathlib.TextEquality.{eq_iff}
use mathlib.Core.Path.{refl}
use pai.Prelude.Dict.{Eq}

instance abbrev pub string_eq : Eq String
string_eq = record {
  same = str_eq;
  same_sound = λ a b h. (eq_iff a b).0 h;
  same_refl = λ a. (eq_iff a a).1 refl;
}
