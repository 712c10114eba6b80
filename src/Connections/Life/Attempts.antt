-- ===== src/Connections/Life/Attempts.antt =====
-- `MultiAttemptConnection.connect`: three tries, each ending as `_try_connect` does.
use pai.Prelude.{ℕ, zero, suc, ◌+◌, ◌<◌, ◌≡◌, refl, Bool, true, false, leb, if◌then◌else◌, arith}

-- how a try ends: it returns, or raises asyncio.TimeoutError, OSError, PAICriticalException or
-- another exception
pub data Attempt : Type 0 where
  success timed_out os_error critical other_error : Attempt

-- what `connect` does: return, or pass on the critical exception
pub data Verdict : Type 0 where
  connects : Bool → Verdict
  raises : Verdict

-- The `while` loop: `fuel` bounds the rounds, `tries` counts them from 1, `attempt` says how the
-- try of that number ends. With the verdict comes the number of tries made.
unfoldable pub connect_from : (ℕ → Attempt) → ℕ → ℕ → Verdict × ℕ
connect_from attempt zero tries = (connects false, 0)
connect_from attempt (suc fuel) tries =
    let rest = connect_from attempt fuel (suc tries) in
    if leb tries 3
    then elim (attempt tries) [
      | success ↦ (connects true, 1)
      | critical ↦ (raises, 1)
      | timed_out ↦ (rest.0, suc rest.1)
      | os_error ↦ (rest.0, suc rest.1)
      | other_error ↦ (rest.0, suc rest.1)
    ]
    else (connects false, 0)

-- the round that finds `tries` at 4 ends the loop
abbrev pub connect : (ℕ → Attempt) → Verdict × ℕ
connect attempt = connect_from attempt 4 1

abbrev pub is_retried : Attempt → Bool
is_retried a = elim a [ success ↦ false | critical ↦ false | _ ↦ true ]

connect_from_done :
    (attempt : ℕ → Attempt) (more tries : ℕ)
    → 3 < tries
    → connect_from attempt more tries ≡ (connects false, 0)
unfolding connect_from
connect_from_done attempt zero tries h = refl
connect_from_done attempt (suc more) tries h = ground arith

-- More rounds than four change nothing: the loop ends by its own test.
pub connect_enough :
    (attempt : ℕ → Attempt) (more : ℕ) → connect_from attempt (4 + more) 1 ≡ connect attempt
unfolding connect_from
connect_enough attempt more = ground (arith, connect_from_done attempt more 5 (omega arith))

-- `connect` makes a second try exactly when the first is retried, and a third exactly when the
-- second is too, and never a fourth.
pub connect-tries :
    (attempt : ℕ → Attempt)
    → (connect attempt).1
      ≡ 1 + (if is_retried (attempt 1) then 1 + (if is_retried (attempt 2) then 1 else 0) else 0)
unfolding connect_from
connect-tries attempt = ground arith

-- The verdict is that of the last try made: true after a success, the exception after a critical
-- one, and false when the third has failed in another way.
pub connect-verdict :
    (attempt : ℕ → Attempt)
    → (connect attempt).0 ≡ elim (attempt (connect attempt).1) [
      | success ↦ connects true
      | critical ↦ raises
      | _ ↦ connects false
    ]
unfolding connect_from
connect-verdict attempt = ground arith
