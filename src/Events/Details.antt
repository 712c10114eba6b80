-- ===== src/Events/Details.antt =====
-- What a detail changes in the entry of a major code.
use pai.Prelude.{
  ℕ, ◌≡◌, String, Bool, true, false, ◌&&◌, Option, none, some, List, [], ◌∷◌, if◌then◌else◌, lookup,
  upsert, string_eq, arith, refl, lookup-upsert, lookup-upsert_other, Option-cases, Bool-cases, inl,
  inr, concat, ◌++◌, ◌≢◌, ◌∙◌, ap, sym, subst,
}
use pai.Events.Live.{
  text, texts, changes, number, callable, joined, extended, Datum, detail, add_details, resolved,
  resolve_all, number_eq,
}

-- What a key has after a detail: k is the key, then come the value in the entry, if any, the one in
-- the detail, and the one that results. `show` is `format` of a value.
pub data Combines {V : Type 0} (show : Datum V → String)
    : String → Option (Datum V) → Datum V → Datum V → Type 0 where
  first_message : (k : String) (v : Datum V) → k ≡ "message" → Combines show k none v v
  message_behind :
      (k : String) (old v : Datum V)
      → k ≡ "message"
      → Combines show k (some old) v (text (concat (show old) (concat ": " (show v))))
  first_list :
      (k : String) (ts : List String) → k ≢ "message" → Combines show k none (texts ts) (texts ts)
  list_behind :
      (k : String) (old ts : List String)
      → k ≢ "message"
      → Combines show k (some (texts old)) (texts ts) (texts (old ++ ts))
  replaced :
      (k : String) (o : Option (Datum V)) (v : Datum V)
      → k ≢ "message"
      → ((ts : List String) → v ≢ texts ts)
      → Combines show k o v v

distinct_from : (k j : String) → string_eq.same k j ≡ false → k ≢ j
distinct_from k j s e =
    let t : string_eq.same k j ≡ true =
      subst (λ x. string_eq.same k x ≡ true) e (string_eq.same_refl k) in
    ground (arith, s, t)

module _ {V : Type 0} where
  abbrev pub is_absent : List (String × Datum V) → String → Bool
  is_absent [] k = true
  is_absent ((j, v) ∷ d) k = if string_eq.same j k then false else is_absent d k

  abbrev pub is_distinct : List (String × Datum V) → Bool
  is_distinct [] = true
  is_distinct ((j, v) ∷ d) = is_absent d j && is_distinct d

  abbrev pub resolved_at : (ℕ → Datum V) → String → Option (Datum V) → Option (Datum V)
  resolved_at run k none = none
  resolved_at run k (some v) = some (resolved run k v)

  -- The functions of an entry are called in their places.
  pub lookup-resolve_all :
      (run : ℕ → Datum V) (m : List (String × Datum V)) (k : String)
      → lookup (resolve_all run m) k ≡ resolved_at run k (lookup m k)
  unfolding lookup resolve_all
  lookup-resolve_all run [] k = refl
  lookup-resolve_all run ((j, v) ∷ m) k = elim (Bool-cases (string_eq.same j k)) [
    | inl e ↦
        subst
          (λ x. lookup (resolve_all run ((j, v) ∷ m)) x ≡ resolved_at run x (lookup ((j, v) ∷ m) x))
          (string_eq.same_sound j k e) (ground (arith, string_eq.same_refl j))
    | inr e ↦ ground (arith, e, lookup-resolve_all run m k)
  ]

  module _ (show : Datum V → String) where
    -- a key that the detail lacks keeps its value
    add_details_other :
        (m sub r : List (String × Datum V)) (k : String)
        → add_details show m sub ≡ some r
        → is_absent sub k ≡ true
        → lookup r k ≡ lookup m k
    unfolding add_details
    add_details_other m [] r k e a = ground (arith, e)
    add_details_other m ((j, v) ∷ sub) r k e a =
        elim (Option-cases (detail show (lookup m j) j v)) [
          | inl n ↦ ground (arith, e, n)
          | inr (w, n) ↦ ground (
            arith,
            e,
            n,
            a,
            add_details_other (upsert m j w) sub r k,
            lookup-upsert_other m j k w,
          )
        ]

    add_details-detail :
        (m sub r : List (String × Datum V)) (k : String) (v : Datum V)
        → add_details show m sub ≡ some r
        → is_distinct sub ≡ true
        → lookup sub k ≡ some v
        → lookup r k ≡ detail show (lookup m k) k v
    unfolding add_details lookup
    add_details-detail m [] r k v e d l = ground (arith, l)
    add_details-detail m ((j, u) ∷ sub) r k v e d l =
        elim (Option-cases (detail show (lookup m j) j u)) [
          | inl n ↦ ground (arith, e, n)
          | inr (w, n) ↦ elim (Bool-cases (string_eq.same j k)) [
            | inl s ↦
                let head : lookup r j ≡ detail show (lookup m j) j u =
                  add_details_other (upsert m j w) sub r j (ground (arith, e, n))
                    (ground (arith, d))
                  ∙ lookup-upsert m j w
                  ∙ sym n in
                let same : u ≡ v = ground (arith, l, s) in
                subst (λ x. lookup r x ≡ detail show (lookup m x) x v) (string_eq.same_sound j k s)
                  (subst (λ y. lookup r j ≡ detail show (lookup m j) j y) same head)
            | inr s ↦
                add_details-detail (upsert m j w) sub r k v (ground (arith, e, n))
                  (ground (arith, d)) (ground (arith, l, s))
                ∙ ap (λ o. detail show o k v) (lookup-upsert_other m j k w s)
          ]
        ]

    add_details-some :
        (m sub r : List (String × Datum V)) (k : String) (v : Datum V)
        → add_details show m sub ≡ some r
        → is_distinct sub ≡ true
        → lookup sub k ≡ some v
        → (w : Datum V) × (detail show (lookup m k) k v ≡ some w)
    unfolding add_details lookup
    add_details-some m [] r k v e d l = ground (arith, l)
    add_details-some m ((j, u) ∷ sub) r k v e d l =
        elim (Option-cases (detail show (lookup m j) j u)) [
          | inl n ↦ ground (arith, e, n)
          | inr (w, n) ↦ elim (Bool-cases (string_eq.same j k)) [
            | inl s ↦
                let same : u ≡ v = ground (arith, l, s) in
                subst (λ x. (w : Datum V) × (detail show (lookup m x) x v ≡ some w))
                  (string_eq.same_sound j k s)
                  (subst (λ y. (w : Datum V) × (detail show (lookup m j) j y ≡ some w)) same (w, n))
            | inr s ↦
                let later =
                  add_details-some (upsert m j w) sub r k v (ground (arith, e, n))
                    (ground (arith, d)) (ground (arith, l, s)) in
                (
                  later.0,
                  ap (λ o. detail show o k v) (sym (lookup-upsert_other m j k w s)) ∙ later.1,
                )
          ]
        ]

    joined-Combines :
        (o : Option (Datum V)) (k : String) (v w : Datum V)
        → k ≡ "message"
        → joined show o v ≡ w
        → Combines show k o v w
    joined-Combines none k v w e h = subst (λ x. Combines show k none v x) h (first_message k v e)
    joined-Combines (some old) k v w e h =
        subst (λ x. Combines show k (some old) v x) h (message_behind k old v e)

    extended-Combines :
        (o : Option (Datum V)) (k : String) (ts : List String) (w : Datum V)
        → k ≢ "message"
        → extended show o ts ≡ some w
        → Combines show k o (texts ts) w
    extended-Combines none k ts w n h =
        let e : texts ts ≡ w = ground (arith, h) in
        subst (λ x. Combines show k none (texts ts) x) e (first_list k ts n)
    extended-Combines (some (texts old)) k ts w n h =
        let e : texts (old ++ ts) ≡ w = ground (arith, h) in
        subst (λ x. Combines show k (some (texts old)) (texts ts) x) e (list_behind k old ts n)
    extended-Combines (some (text s)) k ts w n h = ground (arith, h)
    extended-Combines (some (changes c)) k ts w n h = ground (arith, h)
    extended-Combines (some (number x)) k ts w n h = ground (arith, h)
    extended-Combines (some (callable f)) k ts w n h = ground (arith, h)

    replaced-Combines :
        (o : Option (Datum V)) (k : String) (v w : Datum V)
        → k ≢ "message"
        → ((ts : List String) → v ≢ texts ts)
        → v ≡ w
        → Combines show k o v w
    replaced-Combines o k v w n t h = subst (λ x. Combines show k o v x) h (replaced k o v n t)

    other_detail :
        (o : Option (Datum V)) (k : String) (v w : Datum V)
        → string_eq.same k "message" ≡ false
        → k ≢ "message"
        → detail show o k v ≡ some w
        → Combines show k o v w
    other_detail o k (texts ts) w s n h = extended-Combines o k ts w n (ground (arith, h, s))
    other_detail o k (text x) w s n h =
        replaced-Combines o k (text x) w n (λ ts. ground arith) (ground (arith, h, s))
    other_detail o k (changes c) w s n h =
        replaced-Combines o k (changes c) w n (λ ts. ground arith) (ground (arith, h, s))
    other_detail o k (number x) w s n h =
        replaced-Combines o k (number x) w n (λ ts. ground arith) (ground (arith, h, s))
    other_detail o k (callable f) w s n h =
        replaced-Combines o k (callable f) w n (λ ts. ground arith) (ground (arith, h, s))

    detail-Combines :
        (o : Option (Datum V)) (k : String) (v w : Datum V)
        → detail show o k v ≡ some w
        → Combines show k o v w
    detail-Combines o k v w h = elim (Bool-cases (string_eq.same k "message")) [
      | inl s ↦ joined-Combines o k v w (string_eq.same_sound k "message" s) (ground (arith, h, s))
      | inr s ↦ other_detail o k v w s (distinct_from k "message" s) h
    ]

    -- Where adding a detail, whose keys are distinct as those of a dictionary are, raises nothing,
    -- each of its keys has the value of the detail, but that a message goes behind the message of
    -- the entry, with ": " between, and a list behind the list of the entry.
    pub add_details-lookup :
        (m sub r : List (String × Datum V)) (k : String) (v : Datum V)
        → add_details show m sub ≡ some r
        → is_distinct sub ≡ true
        → lookup sub k ≡ some v
        → (w : Datum V) × (lookup r k ≡ some w) × Combines show k (lookup m k) v w
    add_details-lookup m sub r k v e d l =
        let (w, p) = add_details-some m sub r k v e d l in
        (w, add_details-detail m sub r k v e d l ∙ p, detail-Combines (lookup m k) k v w p)
