-- ===== src/Prelude/Splitting.antt =====
-- What splitting a text gives back: the pieces that were joined.
use Prim.Native.Nat.{ℕ}
use Prim.Native.Char.{Char, code}
use Prim.Native.String.{String, [], ◌∷◌}
use mathlib.Core.Path.{◌≡◌, refl, ap, sym, ◌∙◌}
use mathlib.Core.Logic.{◌≢◌, inl, inr}
use mathlib.Core.Bool.{Bool, true, false, not, ◌&&◌}
use mathlib.Core.List.{[] as nil, ◌∷◌ as ◌then◌, List}
use text.Mathlib.TextEquality.{Char-path}
use native.Mathlib.Omega.{arith}
use pai.Prelude.Tests.{◌==◌, Bool-cases, ==_iff}
use pai.Prelude.Words.{push, split, split_text, starts_with, occurs, letters, concat, join}

-- no character of s has this code
abbrev pub lacks : ℕ → String → Bool
lacks sep [] = true
lacks sep (c ∷ s) = not (code c == sep) && lacks sep s

starts_with-concat : (s t : String) → starts_with (concat s t) s ≡ true
unfolding starts_with concat
starts_with-concat [] [] = refl
starts_with-concat [] (c ∷ t) = refl
starts_with-concat (c ∷ s) t = ground (arith, starts_with-concat s t)

split_text_skip : (sep s t : String) → split_text sep (letters s) (concat s t) ≡ split_text sep 0 t
unfolding split_text letters concat
split_text_skip sep [] t = refl
split_text_skip sep (c ∷ s) t = split_text_skip sep s t

split_text_none : (sep s : String) → occurs sep s ≡ false → split_text sep 0 s ≡ s then nil
unfolding split_text occurs
split_text_none sep [] h = refl
split_text_none sep (c ∷ s) h = ground (arith, split_text_none sep s)

-- A text that starts with the separator and has it nowhere else falls into nothing and the rest.
pub split_text-concat :
    (sep s : String)
    → sep ≢ []
    → occurs sep s ≡ false
    → split_text sep 0 (concat sep s) ≡ [] then s then nil
unfolding split_text concat letters
split_text-concat [] s n h = elim (n refl) [ ]
split_text-concat (c ∷ sep) s n h = ground (
  arith,
  starts_with-concat (c ∷ sep) s,
  split_text_skip (c ∷ sep) sep s,
  split_text_none (c ∷ sep) s,
)

-- A text without the separator is one piece.
pub split_none : (sep : ℕ) (s : String) → lacks sep s ≡ true → split sep s ≡ s then nil
unfolding split
split_none sep [] h = refl
split_none sep (c ∷ s) h = ground (arith, split_none sep s)

-- What stands in front of the first separator is the first piece.
pub split-concat :
    (c : Char) (s t : String)
    → lacks (code c) s ≡ true
    → split (code c) (concat s (c ∷ t)) ≡ s then split (code c) t
unfolding split concat
split-concat c [] t h = ground arith
split-concat c (d ∷ s) t h = ground (arith, split-concat c s t)

pub concat_assoc : (s t u : String) → concat (concat s t) u ≡ concat s (concat t u)
unfolding concat
concat_assoc [] t u = refl
concat_assoc (c ∷ s) t u = ap (◌∷◌ c) (concat_assoc s t u)

split_some : (sep : ℕ) (x : String) → (s : String) × (ss : List String) × (split sep x ≡ s then ss)
unfolding split
split_some sep [] = ([], nil, refl)
split_some sep (c ∷ x) = elim (Bool-cases (code c == sep)) [
  | inl e ↦ ([], split sep x, ground (arith, e))
  | inr e ↦ let r = split_some sep x in (c ∷ r.0, r.1, ground (arith, e, r.2))
]

join-push :
    (sep s : String) (ss : List String) (d : Char)
    → join sep (push d (s then ss)) ≡ d ∷ join sep (s then ss)
unfolding join concat
join-push sep s nil d = refl
join-push sep s (t then ss) d = refl

join_empty :
    (sep : Char) (s : String) (ss : List String)
    → join (sep ∷ []) ([] then s then ss) ≡ sep ∷ join (sep ∷ []) (s then ss)
unfolding join concat
join_empty sep s ss = refl

-- The pieces joined by the separator are the text.
pub join-split : (sep : Char) (s : String) → join (sep ∷ []) (split (code sep) s) ≡ s
unfolding split join
join-split sep [] = refl
join-split sep (c ∷ s) =
    let r = split_some (code sep) s in
    let same = ap (join (sep ∷ [])) (sym r.2) ∙ join-split sep s in
    elim (Bool-cases (code c == code sep)) [
      | inl e ↦
          let cs = Char-path c sep ((==_iff (code c) (code sep)).0 e) in
          let cut : split (code sep) (c ∷ s) ≡ ([] then r.0 then r.1) = ground (arith, e, r.2) in
          ap (join (sep ∷ [])) cut
          ∙ join_empty sep r.0 r.1
          ∙ ap (◌∷◌ sep) same
          ∙ ap (λ d. d ∷ s) (sym cs)
      | inr e ↦
          let grown : split (code sep) (c ∷ s) ≡ push c (r.0 then r.1) = ground (arith, e, r.2) in
          ap (join (sep ∷ [])) grown ∙ join-push (sep ∷ []) r.0 r.1 c ∙ ap (◌∷◌ c) same
    ]
