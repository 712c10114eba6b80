-- ===== src/Events/Tables/Checks.antt =====
-- What holds of every entry of a table, with every detail, holds of the events made with the table.
use pai.Prelude.{
  ℕ, ◌≡◌, String, Bool, true, false, ◌&&◌, Option, none, some, List, [], ◌∷◌, ◌==◌, lookup, arith,
  Option-cases, Bool-cases, inl, inr, sym, ap, ◌∙◌, ==_iff,
}
use pai.Events.Live.{
  Datum, Template, Sub, Raw, LiveEvent, add_details, details, fields_of, with_details, resolve_all,
  created, placed, id_of, live_event, number_eq,
}

module _ {V : Type 0} (show : Datum V → String) (holds : List (String × Datum V) → Bool) where
  abbrev pub passes : Option (List (String × Datum V)) → Bool
  passes none = false
  passes (some m) = holds m

  unfoldable pub every_detail : List (String × Datum V) → List (ℕ × Sub V) → Bool
  every_detail m [] = true
  every_detail m ((k, s) ∷ subs) =
      passes (add_details show m (fields_of show s)) && every_detail m subs

  abbrev pub entry_passes : Template V → Bool
  entry_passes t =
      holds t.entries && elim (t.sub) [ none ↦ true | some subs ↦ every_detail t.entries subs ]

  unfoldable pub every_entry : List (ℕ × Template V) → Bool
  every_entry [] = true
  every_entry ((k, t) ∷ table) = entry_passes t && every_entry table

  every_entry-lookup :
      (table : List (ℕ × Template V)) (major : ℕ) (t : Template V)
      → every_entry table ≡ true
      → lookup table major ≡ some t
      → entry_passes t ≡ true
  unfolding every_entry lookup
  every_entry-lookup [] major t h l = ground (arith, l)
  every_entry-lookup ((k, u) ∷ table) major t h l = elim (Bool-cases (k == major)) [
    | inl e ↦
        let same : u ≡ t = ground (arith, l, e) in ap entry_passes (sym same) ∙ ground (arith, h)
    | inr e ↦ every_entry-lookup table major t (ground (arith, h)) (ground (arith, l, e))
  ]

  every_detail-lookup :
      (m : List (String × Datum V)) (subs : List (ℕ × Sub V)) (minor : ℕ)
      → every_detail m subs ≡ true
      → holds m ≡ true
      → passes (details show m (lookup subs minor)) ≡ true
  unfolding every_detail lookup
  every_detail-lookup m [] minor h e = e
  every_detail-lookup m ((k, s) ∷ subs) minor h e = elim (Bool-cases (k == minor)) [
    | inl q ↦ ground (arith, h, q)
    | inr q ↦ ground (arith, q, every_detail-lookup m subs minor (ground (arith, h)) e)
  ]

  entry_passes-with_details :
      (t : Template V) (minor : ℕ)
      → entry_passes t ≡ true
      → passes (with_details show t minor) ≡ true
  entry_passes-with_details t minor h = elim (Option-cases (t.sub)) [
    | inl n ↦ ground (arith, h, n)
    | inr (subs, n) ↦ ground (
      arith,
      n,
      every_detail-lookup t.entries subs minor (ground (arith, h, n)) (ground (arith, h)),
    )
  ]

  -- A message of the command 14 whose major code the table has becomes an event.
  pub live_event-every_entry :
      (label_provider : String → ℕ → String) (event_map : List (ℕ × Template V)) (run : ℕ → Datum V)
      (raw : Raw) (t : Template V)
      → every_entry event_map ≡ true
      → raw.command ≡ 14
      → lookup event_map raw.major ≡ some t
      → (e : LiveEvent V) × (live_event label_provider show event_map run raw ≡ created e)
  unfolding live_event
  live_event-every_entry label_provider event_map run raw t h c l =
      elim (Option-cases (with_details show t raw.minor)) [
        | inl n ↦ ground (
          arith,
          n,
          entry_passes-with_details t raw.minor (every_entry-lookup event_map raw.major t h l),
        )
        | inr (m, n) ↦
            let k : (raw.command == 14) ≡ true = (==_iff raw.command 14).1 c in
            (placed label_provider raw (id_of t raw) (resolve_all run m), ground (arith, k, l, n))
      ]

  placed-entries :
      (label_provider : String → ℕ → String) (raw : Raw) (id : Option ℕ)
      (m : List (String × Datum V))
      → (placed label_provider raw id m).entries ≡ m
  placed-entries label_provider raw id m = ground arith

  -- An event has the entries of its major code and details, with the functions called, and what is
  -- checked of the table holds of them.
  pub live_event-holds :
      (label_provider : String → ℕ → String) (event_map : List (ℕ × Template V)) (run : ℕ → Datum V)
      (raw : Raw) (e : LiveEvent V)
      → every_entry event_map ≡ true
      → live_event label_provider show event_map run raw ≡ created e
      → (m : List (String × Datum V)) × (e.entries ≡ resolve_all run m) × (holds m ≡ true)
  unfolding live_event
  live_event-holds label_provider event_map run raw e h s = elim (Bool-cases (raw.command == 14)) [
    | inr c ↦ ground (arith, s, c)
    | inl c ↦ elim (Option-cases (lookup event_map raw.major)) [
      | inl n ↦ ground (arith, s, c, n)
      | inr (t, l) ↦ elim (Option-cases (with_details show t raw.minor)) [
        | inl n ↦ ground (arith, s, c, l, n)
        | inr (m, d) ↦
            let same : placed label_provider raw (id_of t raw) (resolve_all run m) ≡ e =
              ground (arith, s, c, l, d) in
            (
              m,
              ap (λ x. x.entries) (sym same)
                  ∙ placed-entries label_provider raw (id_of t raw) (resolve_all run m),
              ap passes (sym d)
                  ∙ entry_passes-with_details t raw.minor
                      (every_entry-lookup event_map raw.major t h l),
            )
      ]
    ]
  ]
