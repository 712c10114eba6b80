-- ===== src/Handlers/Removal.antt =====
-- `remove_by_name` removes elements of the list that it goes through.
use text.Mathlib.Text.{◌==◌ as str_eq}
use pai.Prelude.{
  ℕ, zero, suc, ◌<◌, ◌≡◌, ◌≢◌, refl, sym, ap, ◌∙◌, String, true, false, none, some, List, [], ◌∷◌,
  ◌++◌, append-nil, append_assoc, arith, length, length-append, get_elem?, if◌then◌else◌, All,
  All-append, Bool-cases, inl, inr,
}
use pai.Handlers.{Handler, HandlerRegistry, remove_id, remove_from, remove_by_name}

module _ {Msg : Type 0} where
  -- no other handler of the list is the same object
  abbrev pub IsFresh : ℕ → List (Handler Msg) → Type 0
  IsFresh i = All (λ h. h.id ≢ i)

  abbrev pub AreDistinct : List (Handler Msg) → Type 0
  AreDistinct [] = Unit
  AreDistinct (h ∷ hs) = IsFresh h.id hs × AreDistinct hs

  remove_id-append :
      (kept : List (Handler Msg)) (h : Handler Msg) (rest : List (Handler Msg))
      → IsFresh h.id kept
      → remove_id h.id (kept ++ h ∷ rest) ≡ kept ++ rest
  unfolding remove_id
  remove_id-append [] h rest f = ground arith
  remove_id-append (k ∷ kept) h rest f = ground (arith, remove_id-append kept h rest f.1)

  get_elem?-length :
      (kept : List (Handler Msg)) (h : Handler Msg) (rest : List (Handler Msg))
      → get_elem? (kept ++ h ∷ rest) (length kept) ≡ some h
  get_elem?-length [] h rest = refl
  get_elem?-length (k ∷ kept) h rest = get_elem?-length kept h rest

  get_elem?-end :
      (kept : List (Handler Msg)) (i : ℕ) → length kept < suc i → get_elem? kept i ≡ none
  get_elem?-end [] i h = refl
  get_elem?-end (k ∷ kept) zero h = absurd (omega arith)
  get_elem?-end (k ∷ kept) (suc i) h = get_elem?-end kept i (omega arith)

  -- What the loop leaves of the part of the list that it has not seen: behind a handler that it
  -- removes, the next one is passed over.
  unfoldable pub sweep : String → List (Handler Msg) → List (Handler Msg)
  sweep name [] = []
  sweep name (h ∷ []) = if str_eq h.name name then [] else h ∷ []
  sweep name (h ∷ k ∷ r) =
      let passed = k ∷ sweep name r in
      let seen = h ∷ sweep name (k ∷ r) in if str_eq h.name name then passed else seen

  AreFresh : List (Handler Msg) → List (Handler Msg) → Type 0
  AreFresh kept = All (λ h. IsFresh h.id kept)

  AreFresh-nil : (rest : List (Handler Msg)) → AreFresh [] rest
  unfolding AreFresh
  AreFresh-nil [] = tt
  AreFresh-nil (x ∷ rest) = (tt, AreFresh-nil rest)

  AreFresh-snoc :
      (kept : List (Handler Msg)) (k : Handler Msg) (rest : List (Handler Msg))
      → AreFresh kept rest
      → IsFresh k.id rest
      → AreFresh (kept ++ k ∷ []) rest
  unfolding AreFresh
  AreFresh-snoc kept k [] h f = tt
  AreFresh-snoc kept k (x ∷ rest) h f =
      (All-append _ kept (k ∷ []) h.0 ((λ e. f.0 (sym e)), tt), AreFresh-snoc kept k rest h.1 f.1)

  remove_from_step :
      (f : ℕ) (name : String) (kept : List (Handler Msg)) (h : Handler Msg)
      (rest : List (Handler Msg))
      → IsFresh h.id kept
      → remove_from (suc f) name (length kept) (kept ++ h ∷ rest)
        ≡ remove_from f name
            (suc (length kept))
            (if str_eq h.name name then kept ++ rest else kept ++ h ∷ rest)
  unfolding remove_from
  remove_from_step f name kept h rest fresh =
      rw (get_elem?-length kept h rest, remove_from) (rw (remove_id-append kept h rest fresh) refl)

  remove_from_end :
      (f : ℕ) (name : String) (kept : List (Handler Msg)) (i : ℕ)
      → length kept < suc i
      → remove_from f name i kept ≡ kept
  unfolding remove_from
  remove_from_end zero name kept i h = refl
  remove_from_end (suc f) name kept i h = rw (get_elem?-end kept i h, remove_from) refl

  remove_from_shift :
      (f : ℕ) (name : String) (kept : List (Handler Msg)) (x : Handler Msg) (r : List (Handler Msg))
      → remove_from f name (suc (length kept)) (kept ++ x ∷ r)
        ≡ remove_from f name (length (kept ++ x ∷ [])) ((kept ++ x ∷ []) ++ r)
  remove_from_shift f name kept x r =
      let longer : length (kept ++ x ∷ []) ≡ suc (length kept) =
        omega (arith, length-append kept (x ∷ [])) in
      rw (append_assoc kept (x ∷ []) r) (rw longer refl)

  remove_from-sweep :
      (f : ℕ) (name : String) (kept rest : List (Handler Msg))
      → length rest < f
      → AreFresh kept rest
      → AreDistinct rest
      → remove_from f name (length kept) (kept ++ rest) ≡ kept ++ sweep name rest
  unfolding sweep AreFresh
  remove_from-sweep zero name kept rest h fr d = elim h [ ]
  remove_from-sweep (suc f) name kept [] h fr d =
      rw append-nil (remove_from_end (suc f) name kept (length kept) (omega arith))
  remove_from-sweep (suc f) name kept (x ∷ []) h fr d =
      remove_from_step f name kept x [] fr.0 ∙ elim (Bool-cases (str_eq x.name name)) [
        | inl e ↦ rw e (
            remove_from_end f name (kept ++ []) (suc (length kept))
              (omega (arith, length-append kept [])))
        | inr e ↦ rw e (
            remove_from_end f name (kept ++ x ∷ []) (suc (length kept))
              (omega (arith, length-append kept (x ∷ []))))
      ]
  remove_from-sweep (suc f) name kept (x ∷ k ∷ r) h fr d =
      remove_from_step f name kept x (k ∷ r) fr.0 ∙ elim (Bool-cases (str_eq x.name name)) [
        | inl e ↦ rw e (
            remove_from_shift f name kept k r
            ∙ remove_from-sweep f name (kept ++ k ∷ []) r (omega arith)
                (AreFresh-snoc kept k r fr.1.1 d.1.0) d.1.1
            ∙ append_assoc kept (k ∷ []) (sweep name r))
        | inr e ↦ rw e (
            remove_from_shift f name kept x (k ∷ r)
            ∙ remove_from-sweep f name (kept ++ x ∷ []) (k ∷ r) (omega arith)
                (AreFresh-snoc kept x (k ∷ r) fr.1 d.0) d.1
            ∙ append_assoc kept (x ∷ []) (sweep name (k ∷ r)))
      ]

  -- Of distinct handler objects, the ones that bear the name are removed, except that each handler
  -- behind a removed one stays, whatever its name.
  remove_by_name-sweep :
      (r : HandlerRegistry Msg) (name : String)
      → AreDistinct r.handlers
      → (remove_by_name r name).handlers ≡ sweep name r.handlers
  unfolding remove_by_name
  remove_by_name-sweep r name d =
      remove_from-sweep (suc (length r.handlers)) name [] r.handlers (omega arith)
        (AreFresh-nil r.handlers) d

  -- the handlers that do not bear the name
  unfoldable pub without : String → List (Handler Msg) → List (Handler Msg)
  without name [] = []
  without name (h ∷ hs) =
      let rest = without name hs in if str_eq h.name name then rest else h ∷ rest

  -- no two handlers that follow one another bear the name
  abbrev pub NoNeighbours : String → List (Handler Msg) → Type 0
  NoNeighbours name [] = Unit
  NoNeighbours name (h ∷ []) = Unit
  NoNeighbours name (h ∷ k ∷ r) =
      (str_eq h.name name ≡ true → str_eq k.name name ≡ false) × NoNeighbours name (k ∷ r)

  NoNeighbours-tail :
      (name : String) (h : Handler Msg) (r : List (Handler Msg))
      → NoNeighbours name (h ∷ r)
      → NoNeighbours name r
  NoNeighbours-tail name h [] n = tt
  NoNeighbours-tail name h (k ∷ r) n = n.1

  sweep-without :
      (name : String) (hs : List (Handler Msg))
      → NoNeighbours name hs
      → sweep name hs ≡ without name hs
  unfolding sweep without
  sweep-without name [] n = refl
  sweep-without name (h ∷ []) n = refl
  sweep-without name (h ∷ k ∷ r) n = ground (
    arith,
    n.0,
    sweep-without name r (NoNeighbours-tail name k r n.1),
    sweep-without name (k ∷ r) n.1,
  )

  -- Of distinct handler objects, no two neighbours of which bear the name, exactly those that
  -- bear it are removed, and the others stay in order.
  pub remove_by_name-without :
      (r : HandlerRegistry Msg) (name : String)
      → AreDistinct r.handlers
      → NoNeighbours name r.handlers
      → (remove_by_name r name).handlers ≡ without name r.handlers
  remove_by_name-without r name d n =
      remove_by_name-sweep r name d ∙ sweep-without name r.handlers n

  sweep_skips :
      (name : String) (before : List (Handler Msg)) (h k : Handler Msg) (after : List (Handler Msg))
      → All (λ (x : Handler Msg). str_eq x.name name ≡ false) before
      → str_eq h.name name ≡ true
      → sweep name (before ++ h ∷ k ∷ after) ≡ before ++ k ∷ sweep name after
  unfolding sweep
  sweep_skips name [] h k after other e = rw e refl
  sweep_skips name (x ∷ []) h k after other e = ground arith
  sweep_skips name (x ∷ y ∷ before) h k after other e =
      ground (arith, sweep_skips name (y ∷ before) h k after other.1 e)

  -- Of distinct handler objects, the one behind the first that bears the name is not removed,
  -- whatever its own name.
  pub remove_by_name_skips :
      (r : HandlerRegistry Msg) (name : String) (before : List (Handler Msg)) (h k : Handler Msg)
      (after : List (Handler Msg))
      → r.handlers ≡ before ++ h ∷ k ∷ after
      → AreDistinct r.handlers
      → All (λ (x : Handler Msg). str_eq x.name name ≡ false) before
      → str_eq h.name name ≡ true
      → (left : List (Handler Msg)) × ((remove_by_name r name).handlers ≡ before ++ k ∷ left)
  remove_by_name_skips r name before h k after e d others eh = (
    sweep name after,
    remove_by_name-sweep r name d ∙ ap (sweep name) e ∙ sweep_skips name before h k after others eh,
  )
