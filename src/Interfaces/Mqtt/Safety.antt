-- ===== src/Interfaces/Mqtt/Safety.antt =====
-- What a command by MQTT must have shown before the alarm is called.
use pai.Prelude.{
  ℕ, ◌≡◌, ◌≢◌, ◌⊎◌, inl, inr, String, Bool, Option, some, List, [], ◌∷◌, ◌++◌, string_eq, arith, ap,
  ◌∙◌, split, strip, refl,
}
use pai.Session.Control.{Answer, returns, panel_error, type_error}
use pai.Panel.Commands.Sessions.{Kind, partition}
use pai.Interfaces.Text.{get_or}
use pai.Interfaces.Mqtt.Challenge.{
  Secret, Challenge, missing, issued, Verdict, passed, refused, attribute_error, unbound, Validated,
  Shows, success, validate_passed, validate_renews,
}
use pai.Interfaces.Mqtt.Toggle.{Resolution, proceed, ignore, fails, resolve}
use pai.Interfaces.Mqtt.Control.{
  Config, Handled, Status, announced, ended, Order, Panic, authentications, identify, act,
  handle_with, handle_control, handle_partition_control, handle_send_panic,
}

Verdict-cases :
    (x : Verdict)
    → ((c : String) × (u : Option String) × (x ≡ passed c u))
      ⊎ ((x ≡ refused) ⊎ ((x ≡ attribute_error) ⊎ (x ≡ unbound)))
Verdict-cases (passed c u) = inl (c, u, refl)
Verdict-cases refused = inr (inl refl)
Verdict-cases attribute_error = inr (inr (inl refl))
Verdict-cases unbound = inr (inr (inr refl))

-- what is published behind the announcement of a call
abbrev pub ended_as : {C : Type 0} → Answer → C → Option String → List (Status C)
ended_as a o user = elim a [ returns b ↦ ended b o user ∷ [] | panel_error ↦ [] | type_error ↦ [] ]

module _ {C : Type 0} (alarm : C → Answer) (call : String → C) where
  act_calls :
      (v : Validated) (user : Option String) (r : Resolution) (o : C) (more : List C)
      → (act alarm call v user r).calls ≡ o ∷ more
      → (meaning : String) × (r ≡ proceed meaning) × (o ≡ call meaning) × (more ≡ [])
  act_calls v user (proceed m) o more h = (m, refl, ground (arith, h), ground (arith, h))
  act_calls v user ignore o more h = ground (arith, h)
  act_calls v user fails o more h = ground (arith, h)

  -- A call is made only for a command that has passed, and for what is made of it.
  pub handle_with_calls :
      (meant : String → Resolution) (v : Validated) (o : C) (more : List C)
      → (handle_with meant alarm call v).calls ≡ o ∷ more
      → (command : String) × (user : Option String) × (meaning : String) × (v.verdict
          ≡ passed command user)
        × (meant command ≡ proceed meaning)
        × (o ≡ call meaning)
        × (more ≡ [])
  handle_with_calls meant v o more h = elim (Verdict-cases v.verdict) [
    | inl (c, u, e) ↦
        let a = act_calls v u (meant c) o more (ground (arith, h, e)) in
        (c, u, a.0, e, a.1, a.2, a.3)
    | inr n ↦ ground (arith, n, h)
  ]

  -- What is published for a call: what the authentication has reported, that the call is about to be
  -- made, and how the alarm has taken it, unless it raises.
  pub handle_with_statuses :
      (meant : String → Resolution) (v : Validated) (o : C) (more : List C) (command : String)
      (user : Option String)
      → (handle_with meant alarm call v).calls ≡ o ∷ more
      → v.verdict ≡ passed command user
      → (handle_with meant alarm call v).statuses
        ≡ authentications v.reports ++ announced o user ∷ ended_as (alarm o) o user
  handle_with_statuses meant v o more c u h e =
      let m = act_calls v u (meant c) o more (ground (arith, h, e)) in ground (arith, e, m.1, m.2)

module _ (digest : ℕ → String → String) (config : Config) (challenge : Challenge)
    (nonce : String) where
  -- The handler has made its call for a content that shows a user's name and the digest of the
  -- challenge that was issued last with this user's secret, and has published the user.
  abbrev pub IsAuthentic :
      {C : Type 0}
      → (C → Answer)
      → Secret
      → String
      → String
      → Option String
      → C
      → Handled C
      → Type 0
  IsAuthentic alarm secret content command user o handled =
      (old : String) × (challenge ≡ issued old)
      × Shows (digest config.rounds) old secret (split 32 (strip content)) command user
      × (handled.statuses
          ≡ authentications (success user ∷ []) ++ announced o user ∷ ended_as (alarm o) o user)

  identify_renews :
      (secret : Secret) (content : String)
      → config.secret ≡ some secret
      → challenge ≢ missing
      → (identify digest config challenge nonce content).challenge ≡ issued nonce
  unfolding identify
  identify_renews secret content s h =
      ground (arith, s, validate_renews digest config.rounds secret challenge nonce content h)

  module _ {C : Type 0} where
    -- Where a secret is set, a handler calls the alarm at most once, and only for a content that
    -- answers the challenge.
    authenticated :
        (meant : String → Resolution) (alarm : C → Answer) (call : String → C) (secret : Secret)
        (content : String) (o : C) (more : List C)
        → config.secret ≡ some secret
        → (handle_with meant alarm call (identify digest config challenge nonce content)).calls
          ≡ o ∷ more
        → (more ≡ [])
          × (command : String) × (user : Option String) × (meaning : String) × (meant command
              ≡ proceed meaning)
          × (o ≡ call meaning)
          × IsAuthentic alarm secret content command user o
              (handle_with meant alarm call (identify digest config challenge nonce content))
    unfolding identify
    authenticated meant alarm call secret content o more s h =
        let v = identify digest config challenge nonce content in
        let p = handle_with_calls alarm call meant v o more h in
        let q =
          validate_passed digest config.rounds secret challenge nonce content p.0 p.1
            (ground (arith, s, p.3)) in
        let r : v.reports ≡ success p.1 ∷ [] = ground (arith, s, q.3) in
        (
          p.6,
          p.0,
          p.1,
          p.2,
          p.4,
          p.5,
          (
            q.0,
            q.1,
            q.2,
            handle_with_statuses alarm call meant v o more p.0 p.1 h p.3
                ∙ ap (λ x. authentications x ++ announced o p.1 ∷ ended_as (alarm o) o p.1) r,
          ),
        )

  pub handle_control_authenticated :
      (alarm : Order → Answer) (kind : Kind) (element : Option String) (secret : Secret)
      (content : String) (o : Order) (more : List Order)
      → config.secret ≡ some secret
      → (handle_control digest config challenge nonce alarm kind element content).calls ≡ o ∷ more
      → (more ≡ [])
        × (command : String) × (user : Option String) × (o ≡ (kind, element, command))
        × IsAuthentic alarm secret content command user o
            (handle_control digest config challenge nonce alarm kind element content)
  unfolding handle_control
  handle_control_authenticated alarm kind element secret content o more s h =
      let p =
        authenticated proceed alarm (λ command. (kind, element, command)) secret content o more s
          h in
      (p.0, p.1, p.2, ground (arith, p.4, p.5), p.6)

  pub handle_send_panic_authenticated :
      (alarm : Panic → Answer) (panic_type : String) (element : Option String) (secret : Secret)
      (content : String) (o : Panic) (more : List Panic)
      → config.secret ≡ some secret
      → (handle_send_panic digest config challenge nonce alarm panic_type element content).calls
        ≡ o ∷ more
      → (more ≡ [])
        × (user_id : String) × (user : Option String) × (o ≡ (element, panic_type, user_id))
        × IsAuthentic alarm secret content user_id user o
            (handle_send_panic digest config challenge nonce alarm panic_type element content)
  unfolding handle_send_panic
  handle_send_panic_authenticated alarm panic_type element secret content o more s h =
      let p =
        authenticated proceed alarm (λ user_id. (element, panic_type, user_id)) secret content o
          more s h in
      (p.0, p.1, p.2, ground (arith, p.4, p.5), p.6)

  -- Where a secret is set, a partition command calls the alarm once at most, and only if its content
  -- holds a command, the name of a user and the digest of the challenge that was issued last with
  -- the secret of this user, or, with a secret that all share, a command and the digest with it. The
  -- call is for what the alias and the toggle codes make of this command, and what is published
  -- names this user.
  pub handle_partition_control_authenticated :
      {V : Type 0} (truthy : V → Bool) (partitions : List (String × List (String × V)))
      (alarm : Order → Answer) (element : Option String) (secret : Secret) (content : String)
      (o : Order) (more : List Order)
      → config.secret ≡ some secret
      → (handle_partition_control digest config challenge nonce truthy partitions alarm element
          content).calls
        ≡ o ∷ more
      → (more ≡ [])
        × (command : String) × (user : Option String) × (meaning : String) × (resolve truthy
              config.codes partitions element
              (get_or config.aliases command)
            ≡ proceed meaning)
        × (o ≡ (partition, element, meaning))
        × IsAuthentic alarm secret content command user o (
            handle_partition_control digest config challenge nonce truthy partitions alarm element
              content)
  unfolding handle_partition_control
  handle_partition_control_authenticated truthy partitions alarm element secret content o more =
      authenticated
        (λ command. resolve truthy config.codes partitions element (get_or config.aliases command))
        alarm (λ command. (partition, element, command)) secret content o more
