-- ===== src/Session/Polling/Stretches.antt =====
-- When the loop gives up: after a stretch of turns in which four more replies are missing than come.
use pai.Prelude.{
  ℕ, suc, ◌+◌, ◌≤◌, ◌≡◌, refl, ap, Bool, true, false, not, ◌&&◌, List, [], ◌∷◌, ◌⊎◌, ◌∙◌, ◌++◌,
  if◌then◌else◌, arith, inl, inr,
}
use pai.Session.{RunState, run}
use pai.Session.Polling.{
  Poll, answered, connection_lost, missing, Turn, LoopEnd, gave_up, is_over, Round, ends, goes_on,
  turn, loop_from, loop,
}

-- the turns in which the loop asks: how many are answered, and in how many replies are missing
abbrev pub is_poll : Poll → Bool → Bool
is_poll p wanted = elim p [ answered ↦ not wanted | missing ↦ wanted | _ ↦ false ]

abbrev pub is_run : RunState → Bool
is_run s = elim s [ run ↦ true | _ ↦ false ]

abbrev pub polls : Bool → List Turn → ℕ
polls wanted [] = 0
polls wanted (t ∷ ts) =
    if is_run t.run_state && is_poll t.poll wanted then suc (polls wanted ts) else polls wanted ts

abbrev pub misses : List Turn → ℕ
misses = polls true

abbrev pub answers : List Turn → ℕ
answers = polls false

-- the turn finds the session alive and no connection error
abbrev pub is_live_turn : Turn → Bool
is_live_turn t =
    not (is_over t.run_state)
    && not (is_run t.run_state && (elim (t.poll) [ connection_lost ↦ true | _ ↦ false ]))

abbrev pub is_live : List Turn → Bool
is_live [] = true
is_live (t ∷ ts) = is_live_turn t && is_live ts

-- how a turn moves the count, while the count is at most three
turn_goes :
    (n m : ℕ) (t : Turn)
    → n ≤ 3
    → turn n t ≡ goes_on m
    → (m ≤ 3)
      × ((m + answers (t ∷ []) ≡ n + misses (t ∷ []))
          ⊎ ((n ≡ 0) × (m ≡ 0) × (answers (t ∷ []) ≡ 1) × (misses (t ∷ []) ≡ 0)))
unfolding turn
turn_goes n m t b h = ground arith

turn_gives_up :
    (n : ℕ) (t : Turn)
    → n ≤ 3
    → turn n t ≡ ends gave_up
    → (n ≡ 3) × (misses (t ∷ []) ≡ 1) × (answers (t ∷ []) ≡ 0)
unfolding turn
turn_gives_up n t b h = ground arith

turn_live :
    (n : ℕ) (t : Turn)
    → is_live_turn t ≡ true
    → (turn n t ≡ ends gave_up) ⊎ ((m : ℕ) × (turn n t ≡ goes_on m))
unfolding turn
turn_live n t l = ground arith

polls_split :
    (w : Bool) (t : Turn) (ts : List Turn) → polls w (t ∷ ts) ≡ polls w (t ∷ []) + polls w ts
polls_split w t ts = ground arith

-- a stretch of turns with more misses than answers by what is needed drives the count over three
loop_from_overrun :
    (n : ℕ) (ts later : List Turn)
    → is_live ts ≡ true
    → n ≤ 3
    → answers ts + 4 ≤ misses ts + n
    → loop_from n (ts ++ later) ≡ gave_up
unfolding loop_from
loop_from_overrun n [] later l b h = ground arith
loop_from_overrun n (t ∷ ts) later l b h = elim (turn_live n t (ground arith)) [
  | inl e ↦ ground (arith, e)
  | inr (m, e) ↦ ground (
    arith,
    e,
    turn_goes n m t b e,
    loop_from_overrun m ts later,
    polls_split true t ts,
    polls_split false t ts,
  )
]

loop_from_live :
    (n : ℕ) (ts later : List Turn)
    → is_live ts ≡ true
    → n ≤ 3
    → (loop_from n (ts ++ later) ≡ gave_up)
      ⊎ ((m : ℕ) × (m ≤ 3) × (loop_from n (ts ++ later) ≡ loop_from m later))
unfolding loop_from
loop_from_live n [] later l b = inr (n, b, refl)
loop_from_live n (t ∷ ts) later l b = elim (turn_live n t (ground arith)) [
  | inl e ↦ inl (ground (arith, e))
  | inr (m, e) ↦
      rw (e, loop_from) (loop_from_live m ts later (ground arith) (turn_goes n m t b e).0)
]

-- Where a stretch of turns has four more misses than answers, the loop has given up by its end,
-- whatever comes before the stretch (while the session is alive) and after it.
pub loop_overrun :
    (before stretch after : List Turn)
    → is_live before ≡ true
    → is_live stretch ≡ true
    → answers stretch + 4 ≤ misses stretch
    → loop (before ++ (stretch ++ after)) ≡ gave_up
loop_overrun before stretch after lb ls h =
    elim (loop_from_live 0 before (stretch ++ after) lb (omega arith)) [
      | inl e ↦ e
      | inr (m, b, e) ↦ e ∙ loop_from_overrun m stretch after ls b (omega (arith, h))
    ]

-- what the count starts from, where the stretch is the first of the turns
abbrev pub credit : ℕ → List Turn → ℕ
credit n [] = n
credit n (t ∷ ts) = 0

-- a stretch of the turns in which four more replies are missing than come
pub record Overrun (n : ℕ) (turns : List Turn) : Type 0 where
  pub before : List Turn
  pub stretch : List Turn
  pub after : List Turn
  pub parts : turns ≡ before ++ (stretch ++ after)
  pub enough : answers stretch + 4 ≤ misses stretch + credit n before

Overrun-goes :
    (n m : ℕ) (t : Turn) (ts : List Turn)
    → n ≤ 3
    → turn n t ≡ goes_on m
    → Overrun m ts
    → Overrun n (t ∷ ts)
Overrun-goes n m t ts b e o = split o.before o.parts o.enough (turn_goes n m t b e).1
  where
    split :
        (before : List Turn)
        → ts ≡ before ++ (o.stretch ++ o.after)
        → answers o.stretch + 4 ≤ misses o.stretch + credit m before
        → (m + answers (t ∷ []) ≡ n + misses (t ∷ []))
          ⊎ ((n ≡ 0) × (m ≡ 0) × (answers (t ∷ []) ≡ 1) × (misses (t ∷ []) ≡ 0))
        → Overrun n (t ∷ ts)
    split [] p h (inl c) = record {
      before = [];
      stretch = t ∷ o.stretch;
      after = o.after;
      parts = ap (◌∷◌ t) p;
      enough = omega (arith, h, c, polls_split true t o.stretch, polls_split false t o.stretch);
    }
    split [] p h (inr (c, d, q, u)) = record {
      before = t ∷ [];
      stretch = o.stretch;
      after = o.after;
      parts = ap (◌∷◌ t) p;
      enough = omega (arith, h, d);
    }
    split (x ∷ xs) p h c = record {
      before = t ∷ x ∷ xs;
      stretch = o.stretch;
      after = o.after;
      parts = ap (◌∷◌ t) p;
      enough = h;
    }

Round-cases : (r : Round) → ((e : LoopEnd) × (r ≡ ends e)) ⊎ ((m : ℕ) × (r ≡ goes_on m))
Round-cases (ends e) = inl (e, refl)
Round-cases (goes_on m) = inr (m, refl)

loop_from-Overrun : (n : ℕ) (ts : List Turn) → n ≤ 3 → loop_from n ts ≡ gave_up → Overrun n ts
unfolding loop_from
loop_from-Overrun n [] b h = ground arith
loop_from-Overrun n (t ∷ ts) b h = elim (Round-cases (turn n t)) [
  | inl (e, r) ↦ record {
    before = [];
    stretch = t ∷ [];
    after = ts;
    parts = refl;
    enough = omega (arith, turn_gives_up n t b (ground (arith, r, h)));
  }
  | inr (m, r) ↦
      Overrun-goes n m t ts b r
        (loop_from-Overrun m ts (turn_goes n m t b r).0 (ground (arith, r, h)))
]

-- The loop gives up only after a stretch of turns in which four more replies are missing than come.
pub loop-Overrun : (ts : List Turn) → loop ts ≡ gave_up → Overrun 0 ts
loop-Overrun ts h = loop_from-Overrun 0 ts (omega arith) h
