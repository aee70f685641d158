-- ===== src/Comm.antt =====
-- lab2/src/common/comm.c: sending and receiving with retries, for at most about half a second and
-- about a second and a quarter. The loops take fuel; `looping` is the result when it runs out.
pub mod Ends
use stanford_cs240_sp21_labs.Base.{Bool, Option, if◌then◌else◌, ltb, none, some, suc, zero, ℕ}
use stanford_cs240_sp21_labs.Base.{◌%◌, ◌*◌, ◌+◌, ◌/◌, ◌==◌, ◌^◌, ◌||◌}
use stanford_cs240_sp21_labs.Base.Exec.{Exec, checked, diverge, pure, returned, ◌>>=◌, ◌>>◌}
use stanford_cs240_sp21_labs.Platform.{Net, Packet, ebadf, efault, enotsup, eterm}
use stanford_cs240_sp21_labs.Proto.{Rep}

-- Why the loop of `send_data` ended: at once, or with the last result of `nn_send` (`none` if that
-- was negative).
pub data SendStop : Type 0 where
  refused : SendStop
  left_with : Option ℕ → SendStop

abbrev pub fatal_for_send : ℕ → Bool
fatal_for_send e = e == efault || e == ebadf || e == enotsup || e == eterm

abbrev pub fatal_for_receive : ℕ → Bool
fatal_for_receive e = e == ebadf || e == enotsup || e == eterm

-- `bytes != (int) size`, for a count of bytes that an `int` holds.
abbrev pub same_int : ℕ → ℕ → Bool
same_int bytes size = bytes == size % 2 ^ 32

-- The check behind the loop.
pub sent_all : ℕ → SendStop → Option ℕ
sent_all size refused = none
sent_all size (left_with none) = none
sent_all size (left_with (some bytes)) = if same_int bytes size then some bytes else none

module _ (N : Net) where
  pub call : {A : Type 0} → (N.State → A × N.State) → Exec N.State A
  call f s = let (a, s') = f s in (returned a, s')

  pub pause : ℕ → Exec N.State (Unit {0})
  pause n s = (returned tt, N.usleep n s)

  unfoldable pub current_ms : Exec N.State ℕ
  unfolding call
  current_ms = call N.gettimeofday >>= λ t. pure (t.0 * 1000 + t.1 / 1000)

  unfoldable pub send_loop : ℕ → ℕ → Packet → ℕ → ℕ → ℕ → Exec N.State SendStop
  unfolding call pause
  send_loop zero sock p size flags end_time = diverge
  send_loop (suc rounds) sock p size flags end_time = do
    result ← call (N.nn_send sock p size flags)
    checked result
        (λ errno. if fatal_for_send errno then pure refused else do
          pause 300
          now ← current_ms
          let again = send_loop rounds sock p size flags end_time
          if ltb now end_time then again else pure (left_with none))
        (λ bytes. pure (left_with (some bytes)))

  -- The result is `none` where the function returns a negative number.
  unfoldable pub send_data : ℕ → ℕ → Packet → ℕ → ℕ → Exec N.State (Option ℕ)
  unfolding sent_all
  send_data rounds sock p size flags = do
    now ← current_ms
    stop ← send_loop rounds sock p size flags (now + 550)
    pure (sent_all size stop)

  -- `none` at the end of the time, or after an error that is not worth a retry.
  unfoldable pub receive_loop : ℕ → ℕ → ℕ → ℕ → Exec N.State (Option (Rep × ℕ))
  unfolding call pause
  receive_loop zero sock flags end_time = diverge
  receive_loop (suc rounds) sock flags end_time = do
    result ← call (N.nn_recv_reply sock flags)
    checked result
        (λ errno. if fatal_for_receive errno then pure none else do
          pause 250
          now ← current_ms
          let again = receive_loop rounds sock flags end_time
          if ltb now end_time then again else pure none)
        (λ message. pure (some message))

  unfoldable pub receive_data : ℕ → ℕ → ℕ → Exec N.State (Option (Rep × ℕ))
  receive_data rounds sock flags = do now ← current_ms; receive_loop rounds sock flags (now + 1250)
