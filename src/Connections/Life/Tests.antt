-- ===== src/Connections/Life/Tests.antt =====
-- The connection's life at concrete runs.
use pai.Prelude.{ℕ, ◌+◌, ◌≡◌, refl, true, [], ◌∷◌, ◌==◌, if◌then◌else◌}
use pai.Connections.Life.{
  connected, write, lose, close, new, established, sent, connection_error, silent, timeout_error,
  connection_made, is_active, protocol_close,
}
use pai.Connections.Life.Trace.{happens, sets, closes, write-connected, lose-write, close-write}
use pai.Connections.Life.Attempts.{
  Attempt, success, timed_out, os_error, critical, connects, raises, connect, connect_from,
  is_retried, connect_enough, connect-tries, connect-verdict,
}

-- the first try times out, the second finds no host, the third succeeds
abbrev third_time : ℕ → Attempt
third_time n = if n == 1 then timed_out else if n == 2 then os_error else success

third_time_connects : connect third_time ≡ (connects true, 3)
unfolding connect_from
third_time_connects = refl

-- the module rejects the password
wrong_password : connect (λ n. critical) ≡ (raises, 1)
unfolding connect_from
wrong_password = refl

connect_enough_example : connect_from third_time (4 + 7) 1 ≡ connect third_time
connect_enough_example = connect_enough third_time 7

connect-tries_example :
    (connect third_time).1
    ≡ 1
      + (if is_retried (third_time 1) then 1 + (if is_retried (third_time 2) then 1 else 0) else 0)
connect-tries_example = connect-tries third_time

connect-verdict_example : (connect third_time).0 ≡ connects true
unfolding connect_from
connect-verdict_example = connect-verdict third_time

write-connected_example : write (established new) (1 ∷ []) ≡ sent (1 ∷ [])
unfolding connected connection_made is_active established
write-connected_example = write-connected (established new) (1 ∷ [])

lose-write_example :
    write (happens (sets true ∷ closes silent ∷ []) (lose true (established new))) (1 ∷ [])
    ≡ connection_error
lose-write_example = lose-write (established new) true (sets true ∷ closes silent ∷ []) (1 ∷ [])

close-write_example :
    write (happens (sets true ∷ []) (close silent (established new)).0) (1 ∷ []) ≡ connection_error
close-write_example = close-write (established new) silent (sets true ∷ []) (1 ∷ [])

-- a close that the transport does not answer raises a TimeoutError
silent_close : (close silent (established new)).1 ≡ timeout_error
unfolding close protocol_close connection_made established
silent_close = refl
