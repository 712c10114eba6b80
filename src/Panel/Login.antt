-- ===== src/Panel/Login.antt =====
-- The login of the installer: `encode_password` of paradox/hardware/panel.py, and
-- `initialize_communication` of the two kinds of panels.
use Prim.Native.Char.{code}
use Prim.Native.String.{[] as end, ◌∷◌ as ◌then◌}
use pai.Prelude.{
  ℕ, zero, suc, ◌+◌, ◌*◌, ◌/◌, ◌%◌, ◌<◌, ◌-◌, ◌≡◌, ◌↔◌, String, Bytes, Bool, true, false, ◌&&◌,
  Option, none, some, List, [], ◌∷◌, ◌++◌, length, replicate, leb, ◌==◌, if◌then◌else◌, arith,
  all_below, all_below-elim, refl, sym, ap, ◌∙◌, Option-cases, inl, inr,
}
use pai.Panel.Parsing.{Format, start_communication_response}
use pai.Panel.Parsing.Handling.{Fields, fields_of}
use pai.Session.Request.{Answer, reply, no_reply, timeout_error, connection_error, other_error}

-- `password`: None, an int or a str
pub data Password : Type 0 where
  absent : Password
  number : ℕ → Password
  letters : String → Password

-- the decimal digits, as characters, in front of those that are there; the fuel is the number itself
abbrev pub digits_from : ℕ → ℕ → List ℕ → List ℕ
digits_from zero n ds = ds
digits_from (suc fuel) n ds =
    let rest = digits_from fuel (n / 10) ((48 + n % 10) ∷ ds) in
    if n / 10 == 0 then (48 + n % 10) ∷ ds else rest

-- str(n)
abbrev pub decimal : ℕ → List ℕ
decimal n = digits_from (suc n) n []

abbrev pub codes : String → List ℕ
codes end = []
codes (c then s) = code c ∷ codes s

-- zfill(4), for a text without a sign; one with a sign is no hexadecimal number anyway
abbrev pub zfill : List ℕ → List ℕ
zfill s = replicate (4 - length s) 48 ++ s

-- the value of a hexadecimal digit
abbrev pub hex_digit : ℕ → Option ℕ
hex_digit c =
    if leb 48 c && leb c 57
    then some (c - 48)
    else if leb 97 c && leb c 102
    then some (c - 87)
    else if leb 65 c && leb c 70
    then some (c - 55)
    else none

abbrev pub byte_of : Option ℕ → Option ℕ → Option Bytes → Option Bytes
byte_of (some a) (some b) (some bs) = some ((a * 16 + b) ∷ bs)
byte_of (some a) (some b) none = none
byte_of (some a) none bs = none
byte_of none b bs = none

-- binascii.a2b_hex; none is its exception, for an odd number of digits too
abbrev pub a2b_hex : List ℕ → Option Bytes
a2b_hex [] = some []
a2b_hex (a ∷ []) = none
a2b_hex (a ∷ b ∷ s) = byte_of (hex_digit a) (hex_digit b) (a2b_hex s)

abbrev pub shown : Password → List ℕ
shown absent = decimal 0
shown (number n) = decimal n
shown (letters s) = codes s

unfoldable pub encode_password : Password → Option Bytes
encode_password p = a2b_hex (zfill (shown p))

-- how `initialize_communication` ends: with True, False or None, with AuthenticationFailed, with
-- the exception of `encode_password`, or with one of `send_wait`
pub data Login : Type 0 where
  success failure nothing authentication_failed bad_password timed_out lost raised : Login

-- for the command of a reply
abbrev pub evo_reply : ℕ → Login
evo_reply c = if c == 0 then authentication_failed else if c == 1 then success else failure

abbrev pub spectra_reply : ℕ → Login
spectra_reply c =
    if c == 16
    then success
    else if c == 112
    then authentication_failed
    else if c == 0
    then authentication_failed
    else nothing

abbrev pub on_answer : (ℕ → Login) → Answer ℕ → Login
on_answer f o = elim o [
  | reply c ↦ f c
  | no_reply ↦ failure
  | timeout_error ↦ timed_out
  | connection_error ↦ lost
  | other_error ↦ raised
]

-- `request p` is how `send_wait` ends for the encoded password p
module _ (request : Bytes → Answer ℕ) where
  abbrev pub login : (ℕ → Login) → Password → Login
  login f password = elim (encode_password password) [
    | none ↦ bad_password
    | some p ↦ on_answer f (request p)
  ]

  unfoldable pub evo_initialize_communication : Password → Login
  evo_initialize_communication password = login evo_reply password

  unfoldable pub spectra_initialize_communication : Password → Login
  spectra_initialize_communication password = login spectra_reply password

-- a password of up to four digits, two digits to a byte
abbrev pub packed : ℕ → Bytes
packed n = ((n / 1000) * 16 + (n / 100) % 10) ∷ (((n / 10) % 10) * 16 + n % 10) ∷ []

abbrev is_packed : Option Bytes → Bytes → Bool
is_packed none bs = false
is_packed (some []) bs = false
is_packed (some (x ∷ [])) bs = false
is_packed (some (x ∷ y ∷ [])) [] = false
is_packed (some (x ∷ y ∷ [])) (a ∷ []) = false
is_packed (some (x ∷ y ∷ [])) (a ∷ b ∷ bs) = (x == a) && (y == b)
is_packed (some (x ∷ y ∷ z ∷ zs)) bs = false

packed_table : all_below 10000 (λ n. is_packed (encode_password (number n)) (packed n)) ≡ true
unfolding encode_password all_below
packed_table = refl

is_packed_sound :
    (o : Option Bytes) (a b : ℕ) → is_packed o (a ∷ b ∷ []) ≡ true → o ≡ some (a ∷ b ∷ [])
is_packed_sound none a b h = ground (arith, h)
is_packed_sound (some []) a b h = ground (arith, h)
is_packed_sound (some (x ∷ [])) a b h = ground (arith, h)
is_packed_sound (some (x ∷ y ∷ [])) a b h = ground (arith, h)
is_packed_sound (some (x ∷ y ∷ z ∷ zs)) a b h = ground (arith, h)

-- A number below 10000 is sent as its four decimal digits, two to a byte, with zeros in front.
pub encode_password-packed : (n : ℕ) → n < 10000 → encode_password (number n) ≡ some (packed n)
encode_password-packed n h =
    is_packed_sound (encode_password (number n)) ((n / 1000) * 16 + (n / 100) % 10)
      (((n / 10) % 10) * 16 + n % 10)
      (all_below-elim 10000 (λ k. is_packed (encode_password (number k)) (packed k)) n packed_table
        h)

packed_injective :
    (m n : ℕ)
    → m < 10000
    → n < 10000
    → (m / 1000) * 16 + (m / 100) % 10 ≡ (n / 1000) * 16 + (n / 100) % 10
    → ((m / 10) % 10) * 16 + m % 10 ≡ ((n / 10) % 10) * 16 + n % 10
    → m ≡ n
packed_injective m n h k a b = omega (arith, h, k, a, b)

-- Different numbers below 10000 are sent as different passwords.
pub encode_password_injective :
    (m n : ℕ)
    → m < 10000
    → n < 10000
    → encode_password (number m) ≡ encode_password (number n)
    → m ≡ n
encode_password_injective m n h k e =
    let p = sym (encode_password-packed m h) ∙ e ∙ encode_password-packed n k in
    packed_injective m n h k (ground (arith, p)) (ground (arith, p))

answered_with :
    (f : ℕ → Login) (good : ℕ)
    → ((c : ℕ) → f c ≡ success → c ≡ good)
    → (o : Answer ℕ) → on_answer f o ≡ success
    → o ≡ reply good
answered_with f good only (reply c) h = ap reply (only c h)
answered_with f good only no_reply h = ground (arith, h)
answered_with f good only timeout_error h = ground (arith, h)
answered_with f good only connection_error h = ground (arith, h)
answered_with f good only other_error h = ground (arith, h)

module _ (request : Bytes → Answer ℕ) (f : ℕ → Login) (good : ℕ) where
  login_succeeds :
      ((c : ℕ) → f c ≡ success → c ≡ good)
      → (password : Password) → login request f password ≡ success
      → (p : Bytes) × (encode_password password ≡ some p) × (request p ≡ reply good)
  login_succeeds only password h = elim (Option-cases (encode_password password)) [
    | inl n ↦ ground (arith, h, n)
    | inr (p, e) ↦ (p, e, answered_with f good only (request p) (ground (arith, h, e)))
  ]

  login_answered :
      f good ≡ success
      → (password : Password)
      → ((p : Bytes) × (encode_password password ≡ some p) × (request p ≡ reply good))
      → login request f password ≡ success
  login_answered g password h = ground (arith, g, h.1, h.2)

-- A login succeeds exactly when the password could be encoded and the panel has replied with the
-- command of success.
pub login_success :
    (request : Bytes → Answer ℕ) (password : Password)
    → ((evo_initialize_communication request password ≡ success)
        ↔ ((p : Bytes) × (encode_password password ≡ some p) × (request p ≡ reply 1)))
      × ((spectra_initialize_communication request password ≡ success)
          ↔ ((p : Bytes) × (encode_password password ≡ some p) × (request p ≡ reply 16)))
unfolding evo_initialize_communication spectra_initialize_communication
login_success request password = (
  (
    login_succeeds request evo_reply 1 (λ c h. ground (arith, h)) password,
    login_answered request evo_reply 1 refl password,
  ),
  (
    login_succeeds request spectra_reply 16 (λ c h. ground (arith, h)) password,
    login_answered request spectra_reply 16 refl password,
  ),
)

-- Of all the formats of responses, only StartCommunicationResponse has a command for which the login
-- to a Spectra panel fails with AuthenticationFailed.
pub spectra_login_refused :
    (f : Format) (x : Fields)
    → fields_of f ≡ some x
    → spectra_reply x.command ≡ authentication_failed
    → f ≡ start_communication_response
spectra_login_refused f x e r = ground (arith, e, r)
