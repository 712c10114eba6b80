-- ===== src/Interfaces/Mqtt/Challenge.antt =====
-- Authentication of commands by a challenge and its response: `_refresh_challenge` and
-- `_validate_command_with_challenge` of paradox/interfaces/mqtt/basic.py.
use pai.Prelude.{
  ℕ, ◌≡◌, ◌≢◌, inl, inr, String, Option, none, some, List, [], ◌∷◌, if◌then◌else◌, lookup,
  string_eq, split, strip, concat, arith, refl, Option-cases, Bool, subst, sym,
}

-- MQTT_CHALLENGE_SECRET, when it is not None: a dictionary from users to secrets, a text, or a value
-- of another type
pub data Secret : Type 0 where
  per_user : List (String × String) → Secret
  shared : String → Secret
  unsupported : Secret

-- The attribute `challenge`: it is missing until the first refresh, since `__init__` sets
-- `challenges`; `absent` is None.
pub data Challenge : Type 0 where
  missing absent : Challenge
  issued : String → Challenge

-- what the method reports under the topic of the command status
pub data Report : Type 0 where
  success failed : Option String → Report

-- how the method ends: with a command and its user, with (None, None), or with an exception, an
-- AttributeError or an UnboundLocalError
pub data Verdict : Type 0 where
  passed : String → Option String → Verdict
  refused attribute_error unbound : Verdict

pub record Validated : Type 0 where
  pub verdict : Verdict
  pub challenge : Challenge
  pub reports : List Report

abbrev pub without_report : Verdict → Challenge → Validated
without_report v c = record { verdict = v; challenge = c; reports = [] }

-- the tokens: a command and two more, of which the last may be missing
pub data Tokens : Type 0 where
  pair : String → String → Tokens
  triple : String → String → String → Tokens

abbrev pub tokens : List String → Option Tokens
tokens [] = none
tokens (a ∷ []) = none
tokens (a ∷ b ∷ []) = some (pair a b)
tokens (a ∷ b ∷ c ∷ []) = some (triple a b c)
tokens (a ∷ b ∷ c ∷ d ∷ ts) = none

-- `digest n s` is the hexadecimal digest of the SHA1 that was updated n times with s
module _ (digest : ℕ → String → String) (rounds : ℕ) where
  -- the comparison, once secret, user and response are known
  abbrev pub compare_with :
      String → String → String → String → Option String → Challenge → Validated
  compare_with challenge secret response command user next =
      if string_eq.same response (digest rounds (concat challenge secret))
      then record { verdict = passed command user; challenge = next; reports = success user ∷ [] }
      else record { verdict = refused; challenge = next; reports = failed user ∷ [] }

  abbrev pub by_user : List (String × String) → String → Tokens → Challenge → Validated
  by_user secrets challenge (pair a b) next = without_report unbound next
  by_user secrets challenge (triple a b c) next = elim (lookup secrets b) [
    | none ↦ without_report unbound next
    | some secret ↦ compare_with challenge secret c a (some b) next
  ]

  abbrev pub first : Tokens → String
  first (pair a b) = a
  first (triple a b c) = a

  abbrev pub second : Tokens → String
  second (pair a b) = b
  second (triple a b c) = b

  abbrev pub check : Secret → String → Tokens → Challenge → Validated
  check (per_user secrets) challenge ts next = by_user secrets challenge ts next
  check (shared secret) challenge ts next =
      compare_with challenge secret (second ts) (first ts) none next
  check unsupported challenge ts next = without_report refused next

  -- `nonce` is what the refresh makes of 16 random bytes
  unfoldable pub validate : Secret → Challenge → String → String → Validated
  validate secret missing nonce command = without_report attribute_error missing
  validate secret absent nonce command = without_report refused (issued nonce)
  validate secret (issued challenge) nonce command = elim (tokens (split 32 (strip command))) [
    | none ↦ without_report refused (issued nonce)
    | some ts ↦ check secret challenge ts (issued nonce)
  ]

-- The tokens of a command that may pass against a challenge: the command, the name of a user and the
-- digest of the challenge with this user's secret behind it; or, with a secret that all share, the
-- command, the digest and no more than one token behind.
pub data Shows (digest : String → String) (challenge : String)
    : Secret → List String → String → Option String → Type 0 where
  as_user :
      (secrets : List (String × String)) (command user secret : String)
      → lookup secrets user ≡ some secret
      → Shows digest challenge
          (per_user secrets)
          (command ∷ user ∷ digest (concat challenge secret) ∷ [])
          command
          (some user)
  with_secret :
      (secret command : String)
      → Shows digest challenge
          (shared secret)
          (command ∷ digest (concat challenge secret) ∷ [])
          command
          none
  with_more :
      (secret command more : String)
      → Shows digest challenge
          (shared secret)
          (command ∷ digest (concat challenge secret) ∷ more ∷ [])
          command
          none

-- the secret of a user, and the one that all share
abbrev pub secret_of : Secret → Option String → Option String
secret_of (per_user secrets) none = none
secret_of (per_user secrets) (some user) = lookup secrets user
secret_of (shared secret) none = some secret
secret_of (shared secret) (some user) = none
secret_of unsupported user = none

abbrev pub texts : Tokens → List String
texts (pair a b) = a ∷ b ∷ []
texts (triple a b c) = a ∷ b ∷ c ∷ []

texts-tokens : (ts : List String) (k : Tokens) → tokens ts ≡ some k → ts ≡ texts k
texts-tokens [] k h = ground (arith, h)
texts-tokens (a ∷ []) k h = ground (arith, h)
texts-tokens (a ∷ b ∷ []) k h = ground (arith, h)
texts-tokens (a ∷ b ∷ c ∷ []) k h = ground (arith, h)
texts-tokens (a ∷ b ∷ c ∷ d ∷ ts) k h = ground (arith, h)

module _ (digest : ℕ → String → String) (rounds : ℕ) where
  compare_with_passed :
      (challenge secret response command : String) (user : Option String) (next : Challenge)
      (c : String) (u : Option String)
      → (compare_with digest rounds challenge secret response command user next).verdict
        ≡ passed c u
      → (digest rounds (concat challenge secret) ≡ response)
        × (command ≡ c)
        × (user ≡ u)
        × ((compare_with digest rounds challenge secret response command user next).reports
            ≡ success u ∷ [])
  compare_with_passed challenge secret response command user next c u h =
      ground (arith, h, string_eq.same_sound response (digest rounds (concat challenge secret)))

  check_passed :
      (secret : Secret) (challenge : String) (ts : Tokens) (next : Challenge) (c : String)
      (user : Option String)
      → (check digest rounds secret challenge ts next).verdict ≡ passed c user
      → Shows (digest rounds) challenge secret (texts ts) c user
        × ((check digest rounds secret challenge ts next).reports ≡ success user ∷ [])
  check_passed (per_user secrets) challenge (pair a b) next c user h = ground (arith, h)
  check_passed (per_user secrets) challenge (triple a b r) next c user h =
      elim (Option-cases (lookup secrets b)) [
        | inl n ↦ ground (arith, h, n)
        | inr (s, e) ↦
            let p =
              compare_with_passed challenge s r a (some b) next c user (ground (arith, h, e)) in
            let shown : Shows (digest rounds) challenge (per_user secrets) (a ∷ b ∷ r ∷ []) a
                (some b) =
              subst
                (λ x.
                  Shows (digest rounds) challenge (per_user secrets) (a ∷ b ∷ x ∷ []) a (some b))
                p.0 (as_user secrets a b s e) in
            (
              subst
                  (λ x. Shows (digest rounds) challenge (per_user secrets) (a ∷ b ∷ r ∷ []) x user)
                  p.1
                  (subst
                    (λ x. Shows (digest rounds) challenge (per_user secrets) (a ∷ b ∷ r ∷ []) a x)
                    p.2 shown),
              ground (arith, p.3, e),
            )
      ]
  check_passed (shared s) challenge (pair a b) next c user h =
      let p = compare_with_passed challenge s b a none next c user h in
      (
        subst (λ x. Shows (digest rounds) challenge (shared s) (a ∷ b ∷ []) x user) p.1
            (subst (λ x. Shows (digest rounds) challenge (shared s) (a ∷ b ∷ []) a x) p.2
              (subst (λ x. Shows (digest rounds) challenge (shared s) (a ∷ x ∷ []) a none) p.0
                (with_secret s a))),
        p.3,
      )
  check_passed (shared s) challenge (triple a b r) next c user h =
      let p = compare_with_passed challenge s b a none next c user h in
      (
        subst (λ x. Shows (digest rounds) challenge (shared s) (a ∷ b ∷ r ∷ []) x user) p.1
            (subst (λ x. Shows (digest rounds) challenge (shared s) (a ∷ b ∷ r ∷ []) a x) p.2
              (subst (λ x. Shows (digest rounds) challenge (shared s) (a ∷ x ∷ r ∷ []) a none) p.0
                (with_more s a r))),
        p.3,
      )
  check_passed unsupported challenge ts next c user h = ground (arith, h)

  check_renews :
      (secret : Secret) (challenge nonce : String) (ts : Tokens)
      → (check digest rounds secret challenge ts (issued nonce)).challenge ≡ issued nonce
  check_renews (per_user secrets) challenge nonce (pair a b) = refl
  check_renews (per_user secrets) challenge nonce (triple a b r) = ground arith
  check_renews (shared s) challenge nonce ts = ground arith
  check_renews unsupported challenge nonce ts = refl

  -- A command passes only against a challenge that has been issued, as the user whose name and whose
  -- secret it shows, and this is reported.
  pub validate_passed :
      (secret : Secret) (challenge : Challenge) (nonce command c : String) (user : Option String)
      → (validate digest rounds secret challenge nonce command).verdict ≡ passed c user
      → (old : String) × (challenge ≡ issued old)
        × Shows (digest rounds) old secret (split 32 (strip command)) c user
        × ((validate digest rounds secret challenge nonce command).reports ≡ success user ∷ [])
  unfolding validate
  validate_passed secret missing nonce command c user h = ground (arith, h)
  validate_passed secret absent nonce command c user h = ground (arith, h)
  validate_passed secret (issued old) nonce command c user h =
      elim (Option-cases (tokens (split 32 (strip command)))) [
        | inl n ↦ ground (arith, h, n)
        | inr (ts, e) ↦
            let p = check_passed secret old ts (issued nonce) c user (ground (arith, h, e)) in
            (
              old,
              refl,
              subst (λ x. Shows (digest rounds) old secret x c user)
                  (sym (texts-tokens (split 32 (strip command)) ts e)) p.0,
              ground (arith, e, p.1),
            )
      ]

  -- Whatever becomes of a command, the challenge is another one afterwards, unless there was none.
  pub validate_renews :
      (secret : Secret) (challenge : Challenge) (nonce command : String)
      → (challenge ≢ missing)
      → (validate digest rounds secret challenge nonce command).challenge ≡ issued nonce
  unfolding validate
  validate_renews secret missing nonce command h = ground (arith, h)
  validate_renews secret absent nonce command h = refl
  validate_renews secret (issued old) nonce command h =
      ground (arith, check_renews secret old nonce)

  -- what becomes of a command that has passed before, by whether the digests are the same
  abbrev pub repeated : Bool → String → Option String → Verdict
  repeated same c user = if same then passed c user else refused

  check_again :
      (secret : Secret) (old nonce : String) (ts : Tokens) (n m : Challenge) (c : String)
      (user : Option String) (s : String)
      → (check digest rounds secret old ts n).verdict ≡ passed c user
      → secret_of secret user ≡ some s
      → (check digest rounds secret nonce ts m).verdict
        ≡ repeated
            (string_eq.same (digest rounds (concat old s)) (digest rounds (concat nonce s)))
            c
            user
  check_again (per_user secrets) old nonce (pair a b) n m c user s h k = ground (arith, h)
  check_again (per_user secrets) old nonce (triple a b r) n m c user s h k =
      elim (Option-cases (lookup secrets b)) [
        | inl e ↦ ground (arith, h, e)
        | inr (z, e) ↦
            let p = compare_with_passed old z r a (some b) n c user (ground (arith, h, e)) in
            let same : z ≡ s = ground (arith, k, e, p.2) in ground (arith, e, p.0, p.1, p.2, same)
      ]
  check_again (shared z) old nonce (pair a b) n m c user s h k =
      let p = compare_with_passed old z b a none n c user h in
      let same : z ≡ s = ground (arith, k, p.2) in ground (arith, p.0, p.1, p.2, same)
  check_again (shared z) old nonce (triple a b r) n m c user s h k =
      let p = compare_with_passed old z b a none n c user h in
      let same : z ≡ s = ground (arith, k, p.2) in ground (arith, p.0, p.1, p.2, same)
  check_again unsupported old nonce ts n m c user s h k = ground (arith, h)

  -- A command that has passed, and that is sent again, is refused, whatever the next nonce, unless
  -- the digest of the new challenge with the user's secret behind it is that of the old challenge
  -- with this secret; in that case it passes as it did before.
  pub validate_replay :
      (secret : Secret) (old nonce later command c s : String) (user : Option String)
      → (validate digest rounds secret (issued old) nonce command).verdict ≡ passed c user
      → secret_of secret user ≡ some s
      → (validate digest rounds secret
          (validate digest rounds secret (issued old) nonce command).challenge
          later
          command).verdict
        ≡ (if string_eq.same (digest rounds (concat old s)) (digest rounds (concat nonce s))
            then passed c user
            else refused)
  unfolding validate
  validate_replay secret old nonce later command c s user h k =
      elim (Option-cases (tokens (split 32 (strip command)))) [
        | inl n ↦ ground (arith, h, n)
        | inr (ts, e) ↦ ground (
          arith,
          e,
          check_renews secret old nonce ts,
          check_again secret old nonce ts (issued nonce) (issued later) c user s
              (ground (arith, h, e)) k,
        )
      ]
