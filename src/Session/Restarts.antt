-- ===== src/Session/Restarts.antt =====
-- `run_loop` of paradox/main.py: connecting again and again, and how long it waits in between.
use pai.Prelude.{
  ℕ, zero, suc, ◌+◌, ◌≤◌, ◌≡◌, refl, List, [], ◌∷◌, ltb, ap, All, replicate, if◌then◌else◌, arith,
  ◌⊎◌, ◌/◌,
}
use pai.Prelude.Xor.{◌⊕◌, bit_xor_step, zero-bit_xor}

-- retry_time_wait = 2 ^ retry, then 30 if that is larger: in Python, `^` is the exclusive or
abbrev pub retry_time_wait : ℕ → ℕ
retry_time_wait retry = let wait = 2 ⊕ retry in if ltb 30 wait then 30 else wait

-- How one pass of the loop goes: `full_connect` returns true and `loop` returns or raises what the
-- loop goes on after, `full_connect` returns false or raises such an exception, or an exception
-- ends the loop (a PAICriticalException, KeyboardInterrupt or SystemExit).
pub data Pass : Type 0 where
  connected : Pass
  not_connected : Pass
  ended : Pass

-- the waits, in seconds, from a value of `retry`, for the passes that a run makes
unfoldable pub waits_from : ℕ → List Pass → List ℕ
waits_from retry [] = []
waits_from retry (p ∷ ps) = elim p [
  | connected ↦ retry_time_wait retry ∷ waits_from 2 ps
  | not_connected ↦ retry_time_wait retry ∷ waits_from (suc retry) ps
  | ended ↦ []
]

retry_time_wait-eq : (retry : ℕ) → (2 ⊕ retry ≡ retry + 2) ⊎ ((2 ⊕ retry) + 2 ≡ retry)
retry_time_wait-eq retry =
    omega (arith, bit_xor_step 2 retry, bit_xor_step 1 (retry / 2), zero-bit_xor (retry / 2 / 2))

-- The wait does not double from pass to pass: it is within two seconds of the number of the pass,
-- up to the 28th, and 30 seconds from the 33rd on.
pub retry_time_wait_linear :
    (retry : ℕ)
    → (retry ≤ 28 → (retry_time_wait retry ≤ retry + 2) × (retry ≤ retry_time_wait retry + 2))
      × (33 ≤ retry → retry_time_wait retry ≡ 30)
retry_time_wait_linear retry =
    (λ h. ground (arith, retry_time_wait-eq retry), λ h. ground (arith, retry_time_wait-eq retry))

-- No wait of a run is longer than 30 seconds.
pub waits-bounded : (retry : ℕ) (ps : List Pass) → All (λ w. w ≤ 30) (waits_from retry ps)
unfolding waits_from
waits-bounded retry [] = ground arith
waits-bounded retry (connected ∷ ps) = (ground arith, waits-bounded 2 ps)
waits-bounded retry (not_connected ∷ ps) = (ground arith, waits-bounded (suc retry) ps)
waits-bounded retry (ended ∷ ps) = ground arith

-- A panel connection that is made and lost again and again is made anew without any pause: after
-- the first of n + 1 such passes the run waits 3 seconds, and after each other one 0 seconds.
pub flapping_waits : (n : ℕ) → waits_from 1 (replicate (suc n) connected) ≡ 3 ∷ replicate n 0
unfolding waits_from
flapping_waits n = ap (◌∷◌ 3) (again n)
  where
    again : (n : ℕ) → waits_from 2 (replicate n connected) ≡ replicate n 0
    again zero = refl
    again (suc n) = ap (◌∷◌ 0) (again n)
