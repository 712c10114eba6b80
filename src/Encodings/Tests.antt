-- ===== src/Encodings/Tests.antt =====
-- The codecs at labels.
use pai.Prelude.{
  ℕ, String, none, some, List, [], ◌∷◌, ◌≡◌, refl, letters, concat, lower, IsBytes, arith,
}
use pai.Encodings.{Language, en, ru, charmap, decode, char_at, paradox_codec_search, name_match}
use pai.Encodings.RoundTrip.{decode-charmap, decode-codes, codes, all_kept, is_one_of}

-- "Hall 1"
abbrev hall : List ℕ
hall = 72 ∷ 97 ∷ 108 ∷ 108 ∷ 32 ∷ 49 ∷ []

hall_decodes : decode (charmap en) hall ≡ some "Hall 1"
unfolding decode char_at concat
hall_decodes = refl

-- Latin letters that look like Cyrillic ones are these
letter_decodes : decode (charmap ru) (65 ∷ []) ≡ some "А"
unfolding decode char_at concat
letter_decodes = refl

decode-codes_example : decode (charmap en) (codes "Hall 1") ≡ some "Hall 1"
unfolding all_kept is_one_of
decode-codes_example = decode-codes en "Hall 1" refl

hall-IsBytes : IsBytes hall
hall-IsBytes =
    (omega arith, (omega arith, (omega arith, (omega arith, (omega arith, (omega arith, tt))))))

decode-charmap_example : (s : String) × (decode (charmap ru) hall ≡ some s) × (letters s ≡ 6)
decode-charmap_example = decode-charmap ru hall hall-IsBytes

abbrev searched : List (String × Language)
searched = ("en", en) ∷ []

other_name : (paradox_codec_search searched "paradox-eng").codec ≡ none
unfolding paradox_codec_search name_match lower
other_name = refl
