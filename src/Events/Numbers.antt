-- ===== src/Events/Numbers.antt =====
-- Which messages make events, and the numbers of these: `LiveEvent.__init__` of paradox/event.py.
use pai.Prelude.{
  ℕ, ◌≡◌, String, true, false, Option, none, some, List, ◌==◌, if◌then◌else◌, lookup, string_eq,
  arith, ==_iff, Option-cases, Bool-cases, inl, inr, ◌≢◌, ap, subst,
}
use pai.Events.Live.{
  text, texts, changes, number, callable, Sub, Datum, Template, Raw, with_details, resolve_all,
  LiveEvent, is_partition, created, placed, id_of, live_event, number_eq,
}

placed_id :
    {V : Type 0} (label_provider : String → ℕ → String) (raw : Raw) (id : Option ℕ)
    (m : List (String × Datum V))
    → (placed label_provider raw id m).id ≡ (
        if is_partition (lookup (placed label_provider raw id m).entries "type")
        then some raw.partition
        else id)
placed_id label_provider raw id m = ground arith

is_partition-text :
    {V : Type 0} (o : Option (Datum V)) → is_partition o ≡ true → o ≡ some (text "partition")
is_partition-text none h = ground (arith, h)
is_partition-text (some (text s)) h = ap (λ x. some (text x)) (string_eq.same_sound s "partition" h)
is_partition-text (some (texts ts)) h = ground (arith, h)
is_partition-text (some (changes c)) h = ground (arith, h)
is_partition-text (some (number n)) h = ground (arith, h)
is_partition-text (some (callable f)) h = ground (arith, h)

is_partition_other :
    {V : Type 0} (o : Option (Datum V)) → is_partition o ≡ false → o ≢ some (text "partition")
is_partition_other o h e = let t : is_partition o ≡ true = ap is_partition e in ground (arith, h, t)

-- The number of an event: of a partition, it is that of the partition; otherwise it is the minor
-- code, or missing where the entry tells details by the minor code.
pub data IsNumbered {V : Type 0} (t : Template V) (raw : Raw) (e : LiveEvent V) : Type 0 where
  of_partition :
      lookup e.entries "type" ≡ some (text "partition")
      → e.id ≡ some raw.partition
      → IsNumbered t raw e
  by_minor :
      lookup e.entries "type" ≢ some (text "partition")
      → t.sub ≡ none
      → e.id ≡ some raw.minor
      → IsNumbered t raw e
  without_number :
      lookup e.entries "type" ≢ some (text "partition")
      → (subs : List (ℕ × Sub V)) → t.sub ≡ some subs
      → e.id ≡ none
      → IsNumbered t raw e

placed-IsNumbered :
    {V : Type 0} (label_provider : String → ℕ → String) (t : Template V) (raw : Raw)
    (m : List (String × Datum V))
    → IsNumbered t raw (placed label_provider raw (id_of t raw) m)
placed-IsNumbered label_provider t raw m =
    let e = placed label_provider raw (id_of t raw) m in
    let i = placed_id label_provider raw (id_of t raw) m in
    elim (Bool-cases (is_partition (lookup e.entries "type"))) [
      | inl p ↦ of_partition (is_partition-text (lookup e.entries "type") p) (ground (arith, i, p))
      | inr p ↦ elim (Option-cases (t.sub)) [
        | inl n ↦
            by_minor (is_partition_other (lookup e.entries "type") p) n (ground (arith, i, p, n))
        | inr (subs, n) ↦
            without_number (is_partition_other (lookup e.entries "type") p) subs n
              (ground (arith, i, p, n))
      ]
    ]

-- An event is made only of a message of the command 14 whose major code the table has, and it has
-- the number of the partition, the minor code or none, by its type and by whether the entry of the
-- major code tells details.
pub live_event-id_of :
    {V : Type 0} (show : Datum V → String) (label_provider : String → ℕ → String)
    (event_map : List (ℕ × Template V)) (run : ℕ → Datum V) (raw : Raw) (e : LiveEvent V)
    → live_event label_provider show event_map run raw ≡ created e
    → (t : Template V) × (raw.command ≡ 14)
      × (lookup event_map raw.major ≡ some t)
      × IsNumbered t raw e
unfolding live_event
live_event-id_of show label_provider event_map run raw e h = elim (Bool-cases (raw.command == 14)) [
  | inr c ↦ ground (arith, h, c)
  | inl c ↦ elim (Option-cases (lookup event_map raw.major)) [
    | inl n ↦ ground (arith, h, c, n)
    | inr (t, l) ↦ elim (Option-cases (with_details show t raw.minor)) [
      | inl n ↦ ground (arith, h, c, l, n)
      | inr (m, d) ↦
          let p : placed label_provider raw (id_of t raw) (resolve_all run m) ≡ e =
            ground (arith, h, c, l, d) in
          (
            t,
            (==_iff raw.command 14).0 c,
            l,
            subst (λ x. IsNumbered t raw x) p
                (placed-IsNumbered label_provider t raw (resolve_all run m)),
          )
    ]
  ]
]
