-- ===== src/Encodings/Charmaps.antt =====
-- The tables of paradox/lib/encodings/charmaps, in halves: the character of each byte.
use pai.Prelude.{String, concat}

-- ar.py
abbrev pub ar_low : String
ar_low =
    concat "\0                                !\"#$%&'()*+,-./0123456789:;<=> "
      " ABCDEFGHIJKLMNOPQRSTUVWXYZ      abcdefghijklmnopqrstuvwxyz     "

abbrev pub ar_high : String
ar_high =
    concat
      "\u{628}\u{62a}\u{62b}\u{62c}\u{62d}\u{62e}\u{633}\u{634}\u{635}\u{636}\u{637}\u{638}\u{639}\u{63a}\u{641}\u{642}\u{643}\u{644}\u{645}\u{646}\u{64a} \u{627}\u{62f}\u{630}\u{631}\u{632}\u{647}\u{648} \u{644}\u{629}\u{649}\u{628}\u{62a}\u{62b}\u{62c}\u{62d}\u{62e}\u{633}\u{634}\u{635}\u{636}\u{637}\u{638}\u{639}\u{63a}\u{641}\u{642}\u{643}\u{644}\u{645}\u{646}\u{64a} \u{628}\u{62a}\u{62b}\u{62c}\u{62d}\u{62e}\u{633}\u{634}\u{635}"
      "\u{636}\u{637}\u{638}\u{639}\u{63a}\u{641}\u{642}\u{643}\u{644}\u{645}\u{646}\u{64a} \u{628}\u{62a}\u{62b}\u{62c}\u{62d}\u{62e}\u{633}\u{634}\u{635}\u{636}\u{637}\u{638}\u{639}\u{63a}\u{641}\u{642}\u{643}\u{644}\u{645}\u{646}\u{64a}\u{626}\u{627}\u{62f}\u{630}\u{631}\u{632}\u{647}\u{648}         \u{623}\u{623}\u{625}\u{625}\u{624}\u{624}       "

-- de.py
abbrev pub de_low : String
de_low =
    concat "\0ü                               !\"#$%&'()*+,-./0123456789:;<=>?"
      "@ABCDEFGHIJKLMNOPQRSTUVWXYZ[\\]^_`abcdefghijklmnopqrstuvwxyz{|}~\u{7f}"

abbrev pub de_high : String
de_high =
    concat "ÛÙÚÜûùúÔÒÓ°ôòóö¿ÊÈÉËêèéëÅÄåâàáäªªîìíï¡ÑñÑ      Æ§±    \u{83}£    ¶½ ¼"
      "ø Ðßç®  µøÿÃ¢ãÕõ·¨° ´~÷«» \\×®©                                  "

-- el.py
abbrev pub el_low : String
el_low =
    concat "\0Δφ             °                !\"#$%&'()*+,-./0123456789:;<=>?"
      "@ABCDEFGHIJKLMNOPQRSTUVWXYZ[\\]^_`abcdefghijklmnopqrstuvwxyz{|}~Δ"

abbrev pub el_high : String
el_high =
    concat "                                                  °        «»   "
      "                    Γ ΘΛΞΠΣΤΦΨΩαβγδεζηθικλμνξπρστυχψω           "

-- en.py
abbrev pub en_low : String
en_low =
    concat "\0                                !\"#$%&'()*+,-./0123456789:;<=>?"
      "@ABCDEFGHIJKLMNOPQRSTUVWXYZ[\\]^_`abcdefghijklmnopqrstuvwxyz{|}~\u{7f}"

abbrev pub en_high : String
en_high =
    concat "ÛÙÚÜûùúÔÒÓ°ôòóö¿ÊÈÉËêèéëÅÄåâàáäªªîìíï¡ÑñÑ      Æ§±    \u{83}£    ¶½ ¼"
      "ø Ðßç®  µøÿÃ¢ãÕõ·¨° ´~÷«» \\×®©                                  "

-- et.py
abbrev pub et_low : String
et_low =
    concat "\0ü                               !\"#$%&'()*+,-./0123456789:;<=>?"
      "@ABCDEFGHIJKLMNOPQRSTUVWXYZ[\\]^_`abcdefghijklmnopqrstuvwxyz{|}~\u{7f}"

abbrev pub et_high : String
et_high =
    concat "ÛÙÚÜûùúÔÒÓ°ôòóö¿ÊÈÉËêèéëÅÄåâàáäªªîìíï¡ÑñÑ      Æ§±    \u{83}£    ¶½ ¼"
      "ø Ðßç®  µøÿÃ¢ãÕõ·¨° ´~÷«» \\×®©                                  "

-- he.py
abbrev pub he_low : String
he_low =
    concat "\0                                !\"#$%&'()*+,-./0123456789:;<=> "
      " ABCDEFGHIJKLMNOPQRSTUVWXYZ      abcdefghijklmnopqrstuvwxyz     "

abbrev pub he_high : String
he_high =
    concat
      "                                \u{5d0}\u{5d1}\u{5d2}\u{5d3}\u{5d4}\u{5d5}\u{5d6}\u{5d7}\u{5d8}\u{5d9}\u{5da}\u{5db}\u{5dc}\u{5dd}\u{5de}\u{5df}\u{5e0}\u{5e1}\u{5e2}\u{5e3}\u{5e4}\u{5e5}\u{5e6}\u{5e7}\u{5e8}\u{5e9}\u{5ea}     "
      "                                                                "

-- hu.py
abbrev pub hu_low : String
hu_low =
    concat "\0ÁŰŐő                            !\"#$%&'()*+,-./0123456789:;<=>?"
      "@ABCDEFGHIJKLMNOPQRSTUVWXYZ[\\]^_`abcdefghijklmnopqrstuvwxyz{|}~\u{7f}"

abbrev pub hu_high : String
hu_high =
    concat "ÛÙÚÜûùúÔÒÓ°ôòóö¿ÊÈÉËêèéëÅÄåâàáäªªîìíï¡ÑñÑ      Æ§±    \u{83}£    ¶½ ¼"
      "ø Ðßç®  µøÿÃ¢ãÕõ·¨° ´~÷«» \\×®©                                  "

-- pl.py
abbrev pub pl_low : String
pl_low =
    concat "\0żćąęźłś                         !\"#$%&'()*+,-./0123456789:;<=>?"
      "@ABCDEFGHIJKLMNOPQRSTUVWXYZ[\\]^_`abcdefghijklmnopqrstuvwxyz{|}~\u{7f}"

abbrev pub pl_high : String
pl_high =
    concat "ÛÙÚÜûùúÔÒÓ°ôòóö¿ÊÈÉËêèéëÅÄåâàáäªªîìíï¡ÑñÑ      Æ§±    \u{83}£    ¶½ ¼"
      "ø Ðßç®  µøÿÃ¢ãÕõ·¨° ´~÷«» \\×®©                                  "

-- pt.py
abbrev pub pt_low : String
pt_low =
    concat "\0ã                               !\"#$%&'()*+,-./0123456789:;<=>?"
      "@ABCDEFGHIJKLMNOPQRSTUVWXYZ[\\]^_`abcdefghijklmnopqrstuvwxyz{|}~\u{7f}"

abbrev pub pt_high : String
pt_high =
    concat "ÛÙÚÜûùúÔÒÓ°ôòóö¿ÊÈÉËêèéëÅÄåâàáäªªîìíï¡ÑñÑ      Æ§±    \u{83}£    ¶½ ¼"
      "ø Ðßç®  µøÿÃ¢ãÕõ·¨° ´~÷«» \\×®©                                  "

-- ro.py
abbrev pub ro_low : String
ro_low =
    concat "\0ășț                             !\"#$%&'()*+,-./0123456789:;<=>?"
      "@ABCDEFGHIJKLMNOPQRSTUVWXYZ[\\]^_`abcdefghijklmnopqrstuvwxyz{|}~\u{7f}"

abbrev pub ro_high : String
ro_high =
    concat "ÛÙÚÜûùúÔÒÓ°ôòóö¿ÊÈÉËêèéëÅÄåâàáäªªîìíï¡ÑñÑ      Æ§±    \u{83}£    ¶½ ¼"
      "ø Ðßç®  µøÿÃ¢ãÕõ·¨° ´~÷«» \\×®©                                  "

-- ru.py
abbrev pub ru_low : String
ru_low =
    concat "\0                                !\"#$%&'()*+,-./0123456789:;<=>?"
      "@АВСDЕFGНIJКLМNОРQRSТUVWХYZ[\\]^_`аЬсdеfghijklmnорqrstuvwхуz{|}~\u{7f}"

abbrev pub ru_high : String
ru_high =
    concat "°№                              БГЁЖЗИЙЛПУФЧШЪЫЭЮЯбвгёжзийклмнпт"
      "чшъыьэюя                        ДЦЩдфцщ                         "

-- tr.py
abbrev pub tr_low : String
tr_low =
    concat "\0üı                              !\"#$%&'()*+,-./0123456789:;<=>?"
      "@ABCDEFGHIJKLMNOPQRSTUVWXYZ[\\]^_`abcdefghijklmnopqrstuvwxyz{|}~\u{7f}"

abbrev pub tr_high : String
tr_high =
    concat "ÛÙÚÜûùúÔÒÓ°ôòóö¿ÊÈÉËêèéëÅÄåâàáäªªîìíï¡ÑñÑ      Æ§±    \u{83}£    ¶½ ¼"
      "ø Ðßç®  µøÿÃ¢ãÕõ·¨° ´~÷«» \\×®©                                  "
