-- ===== src/Session/Request.antt =====
-- `Paradox.send_wait`: writing a request and waiting for the reply, with retries.
use pai.Prelude.{
  ℕ, zero, suc, ◌+◌, ◌-◌, ◌≢◌, ◌≤◌, ◌<◌, ◌≡◌, Bool, true, false, not, ◌&&◌, leb, ltb, ◌==◌,
  if◌then◌else◌, arith,
}

-- How one attempt ends, when a reply is expected: a reply, asyncio.TimeoutError, a ConnectionError
-- (from the write, or from waiting), or another exception.
pub data Exchange (R : Type 0) : Type 0 where
  replied : R → Exchange R
  timed_out write_failed lost raised : Exchange R

-- How `send_wait` ends: with a reply, with None, or with one of the exceptions.
pub data Answer (R : Type 0) : Type 0 where
  reply : R → Answer R
  no_reply : Answer R
  timeout_error connection_error other_error : Answer R

abbrev pub count : Bool → ℕ
count b = if b then 1 else 0

module _ {R : Type 0} where
  -- the attempt has written the message
  abbrev pub has_written : Exchange R → Bool
  has_written e = elim e [ write_failed ↦ false | _ ↦ true ]

  -- The `while` loop for a request that expects a reply: what it ends with, and how often the
  -- message has been written. `exchange n` is what attempt n meets, `fuel` bounds the rounds.
  unfoldable pub attempts : (ℕ → Exchange R) → ℕ → ℕ → ℕ → Answer R × ℕ
  attempts exchange retries zero attempt = (no_reply, 0)
  attempts exchange retries (suc fuel) attempt =
      let later = attempts exchange retries fuel (suc attempt) in
      if leb attempt retries
      then elim (exchange attempt) [
        | replied r ↦ (reply r, 1)
        | timed_out ↦ if attempt == retries then (timeout_error, 1) else (later.0, suc later.1)
        | write_failed ↦ (connection_error, 0)
        | lost ↦ (connection_error, 1)
        | raised ↦ (other_error, 1)
      ]
      else (no_reply, 0)

  -- the `while` loop for a request without `reply_expected`: nothing returns from it, so that every
  -- round writes, until a write fails
  unfoldable pub writes : (ℕ → Exchange R) → ℕ → ℕ → ℕ → Answer R × ℕ
  writes exchange retries zero attempt = (no_reply, 0)
  writes exchange retries (suc fuel) attempt =
      let later = writes exchange retries fuel (suc attempt) in
      if leb attempt retries
      then (if has_written (exchange attempt)
          then (later.0, suc later.1)
          else (connection_error, 0))
      else (no_reply, 0)

  -- the round that finds `attempt` beyond `retries` is the last
  unfoldable pub send_wait : Bool → Bool → (ℕ → Exchange R) → ℕ → Answer R × ℕ
  send_wait connected expects exchange retries =
      if not connected
      then (connection_error, 0)
      else if expects
      then attempts exchange retries (suc retries) 1
      else writes exchange retries (suc retries) 1

  -- attempts n, n + 1, .. before n + k all time out
  abbrev pub all_timed_out : (ℕ → Exchange R) → ℕ → ℕ → Bool
  all_timed_out exchange zero n = true
  all_timed_out exchange (suc k) n =
      (elim (exchange n) [ timed_out ↦ true | _ ↦ false ]) && all_timed_out exchange k (suc n)

  -- what `send_wait` makes of the attempt that does not time out
  abbrev pub settled : Exchange R → Answer R
  settled e = elim e [
    | replied r ↦ reply r
    | timed_out ↦ timeout_error
    | write_failed ↦ connection_error
    | lost ↦ connection_error
    | raised ↦ other_error
  ]

  attempts_from :
      (exchange : ℕ → Exchange R) (retries k fuel n : ℕ)
      → n + k ≤ retries
      → k < fuel
      → all_timed_out exchange k n ≡ true
      → ltb (n + k) retries && (elim (exchange (n + k)) [ timed_out ↦ true | _ ↦ false ]) ≡ false
      → attempts exchange retries fuel n
        ≡ (settled (exchange (n + k)), k + count (has_written (exchange (n + k))))
  unfolding attempts
  attempts_from exchange retries k zero n h f t s = ground arith
  attempts_from exchange retries zero (suc fuel) n h f t s = ground arith
  attempts_from exchange retries (suc k) (suc fuel) n h f t s =
      ground (arith, attempts_from exchange retries k fuel (suc n))

  -- Where the first k attempts time out and the next one does not, or is the last, `send_wait` has
  -- written once per attempt, but for a write that fails, and ends as that attempt does: with its
  -- reply, or with its exception.
  pub send_wait_settles :
      (exchange : ℕ → Exchange R) (retries k : ℕ)
      → k < retries
      → all_timed_out exchange k 1 ≡ true
      → ltb (1 + k) retries && (elim (exchange (1 + k)) [ timed_out ↦ true | _ ↦ false ]) ≡ false
      → send_wait true true exchange retries
        ≡ (settled (exchange (1 + k)), k + count (has_written (exchange (1 + k))))
  unfolding send_wait
  send_wait_settles exchange retries k h t s =
      attempts_from exchange retries k (suc retries) 1 (omega (arith, h)) (omega (arith, h)) t s

  attempts_answer :
      (exchange : ℕ → Exchange R) (retries fuel n : ℕ)
      → n ≤ retries
      → retries < n + fuel
      → ((attempts exchange retries fuel n).0 ≢ no_reply)
        × (n + (attempts exchange retries fuel n).1 ≤ suc retries)
  unfolding attempts
  attempts_answer exchange retries zero n h f = omega (arith, h, f)
  attempts_answer exchange retries (suc fuel) n h f =
      ground (arith, attempts_answer exchange retries fuel (suc n))

  -- A request that expects a reply and may be tried at all never ends with None, and is written at
  -- most `retries` times.
  pub send_wait_answers :
      (connected : Bool) (exchange : ℕ → Exchange R) (retries : ℕ)
      → 1 ≤ retries
      → ((send_wait connected true exchange retries).0 ≢ no_reply)
        × ((send_wait connected true exchange retries).1 ≤ retries)
  unfolding send_wait
  send_wait_answers connected exchange retries h =
      ground (arith, attempts_answer exchange retries (suc retries) 1)

  writes_all :
      (exchange : ℕ → Exchange R) (retries fuel n : ℕ)
      → ((i : ℕ) → has_written (exchange i) ≡ true)
      → n ≤ suc retries
      → suc retries < n + fuel
      → writes exchange retries fuel n ≡ (no_reply, suc retries - n)
  unfolding writes
  writes_all exchange retries zero n w h f = ground arith
  writes_all exchange retries (suc fuel) n w h f =
      ground (arith, writes_all exchange retries fuel (suc n) w, w n)

  -- A request without `reply_expected` is not written once but in every round: `retries` times,
  -- where no write fails.
  pub send_wait_repeats :
      (exchange : ℕ → Exchange R) (retries : ℕ)
      → ((i : ℕ) → has_written (exchange i) ≡ true)
      → send_wait true false exchange retries ≡ (no_reply, retries)
  unfolding send_wait
  send_wait_repeats exchange retries w =
      ground (arith, writes_all exchange retries (suc retries) 1 w)
