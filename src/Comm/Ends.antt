-- ===== src/Comm/Ends.antt =====
-- Termination of the loops of lab2/src/common/comm.c, by the clock.
use stanford_cs240_sp21_labs.Base.{Bool-cases, Option, arith, if◌then◌else◌, inl, inr, ltb, none}
use stanford_cs240_sp21_labs.Base.{refl, some, suc, zero, ℕ, ◌*◌, ◌+◌, ◌/◌, ◌<◌, ◌≡◌, ◌≤◌}
use stanford_cs240_sp21_labs.Base.Exec.{Exec, Outcome, Sys, checked, fail, ok, pure, returned}
use stanford_cs240_sp21_labs.Base.Exec.{◌>>=◌}
use stanford_cs240_sp21_labs.Comm.{SendStop, call, current_ms, fatal_for_receive, fatal_for_send}
use stanford_cs240_sp21_labs.Comm.{left_with, pause, receive_data, receive_loop, refused}
use stanford_cs240_sp21_labs.Comm.{send_data, send_loop, sent_all}
use stanford_cs240_sp21_labs.Platform.{Net, Packet}
use stanford_cs240_sp21_labs.Proto.{Rep}

-- The time of day in microseconds.
abbrev pub now : (N : Net) → N.State → ℕ
now N s = (N.gettimeofday s).0.0 * 1000000 + (N.gettimeofday s).0.1

-- The clock does not run backwards, and `usleep` waits at least as long as it is told to.
pub record ClockRuns (N : Net) : Type 0 where
  pub read : (s : N.State) → now N s ≤ now N (N.gettimeofday s).1
  pub sleep : (n : ℕ) (s : N.State) → now N s + n ≤ now N (N.usleep n s)
  pub send :
      (sock : ℕ) (p : Packet) (size flags : ℕ) (s : N.State)
      → now N s ≤ now N (N.nn_send sock p size flags s).1
  pub receive : (sock flags : ℕ) (s : N.State) → now N s ≤ now N (N.nn_recv_reply sock flags s).1

-- A program that returns.
abbrev pub Returns : {S A : Type 0} → Outcome A × S → Type 0
Returns {A = A} o = (a : A) × (o.0 ≡ returned a)

Returns-bind :
    {S A B : Type 0} (m : Exec S A) (f : A → Exec S B) (s : S)
    → Returns (m s)
    → ((a : A) → Returns (f a (m s).1))
    → Returns ((m >>= f) s)
unfolding ◌>>=◌
Returns-bind m f s (a, e) rest = rw e (rest a)

abbrev now_ms : (N : Net) → N.State → ℕ
now_ms N s = (N.gettimeofday s).0.0 * 1000 + (N.gettimeofday s).0.1 / 1000

module _ (N : Net) (C : ClockRuns N) where
  -- The wait between two attempts, after which the loop goes on only before the end of its time.
  retry-Returns :
      {A : Type 0} (k end_time : ℕ) (again : Exec N.State A) (stop : A) (s : N.State)
      → ((t : N.State) → now N s + k ≤ now N t → now N s + k < end_time * 1000 → Returns (again t))
      → Returns (
          (pause N k >>= λ _. current_ms N >>= λ ms. if ltb ms end_time then again else pure stop)
            s)
  unfolding current_ms ◌>>=◌ pause call
  retry-Returns k end_time again stop s rest =
      let t = N.usleep k s in
      let u = (N.gettimeofday t).1 in
      elim (Bool-cases (ltb (now_ms N t) end_time)) [
        | inl p ↦ rw p (rest u (omega (arith, C.sleep k s, C.read t)) (ground (arith, C.sleep k s)))
        | inr p ↦ rw p (stop, refl)
      ]

  module _ (sock : ℕ) (p : Packet) (size flags end_time : ℕ) where
    -- The two ways on from `nn_send`.
    send_result-Returns :
        (again : Exec N.State SendStop) (r : Sys ℕ) (s : N.State)
        → ((t : N.State)
            → now N s + 300 ≤ now N t
            → now N s + 300 < end_time * 1000
            → Returns (again t))
        → Returns (
            checked r
              (λ errno.
                if fatal_for_send errno
                then pure refused
                else pause N 300 >>= λ _.
                    current_ms N >>= λ ms. if ltb ms end_time then again else pure (left_with none))
              (λ bytes. pure (left_with (some bytes)))
              s)
    unfolding checked
    send_result-Returns again (ok bytes) s rest = (left_with (some bytes), refl)
    send_result-Returns again (fail e) s rest = elim (Bool-cases (fatal_for_send e)) [
      | inl q ↦ rw q (refused, refl)
      | inr q ↦ rw q (retry-Returns 300 end_time again (left_with none) s rest)
    ]

    -- With a round for every 300 microseconds that are left, the loop ends.
    send_loop-Returns :
        (rounds : ℕ) (s : N.State)
        → end_time * 1000 ≤ now N s + 300 * suc rounds
        → Returns (send_loop N (suc rounds) sock p size flags end_time s)
    unfolding send_loop ◌>>=◌
    send_loop-Returns zero s h =
        send_result-Returns _ (N.nn_send sock p size flags s).0 _
          (λ t a b. absurd (omega (arith, C.send sock p size flags s)))
    send_loop-Returns (suc rounds) s h =
        send_result-Returns _ (N.nn_send sock p size flags s).0 _
          (λ t a b. send_loop-Returns rounds t (omega (arith, C.send sock p size flags s)))

  -- If the clock does not run backwards and `usleep` waits as long as it is told to, `send_data`
  -- returns within 1834 rounds, whatever the network does.
  pub send_data-Returns :
      (rounds sock : ℕ) (p : Packet) (size flags : ℕ) (s : N.State)
      → 1834 ≤ rounds
      → Returns (send_data N rounds sock p size flags s)
  unfolding send_data current_ms ◌>>=◌ call
  send_data-Returns zero sock p size flags s h = absurd (omega arith)
  send_data-Returns (suc rounds) sock p size flags s h =
      let t = (N.gettimeofday s).1 in
      Returns-bind (send_loop N (suc rounds) sock p size flags (now_ms N s + 550))
        (λ stop. pure (sent_all size stop)) t
        (send_loop-Returns sock p size flags (now_ms N s + 550) rounds t (omega (arith, C.read s)))
        (λ stop. (sent_all size stop, refl))

  module _ (sock flags end_time : ℕ) where
    -- The two ways on from `nn_recv`.
    receive_result-Returns :
        (again : Exec N.State (Option (Rep × ℕ))) (r : Sys (Rep × ℕ)) (s : N.State)
        → ((t : N.State)
            → now N s + 250 ≤ now N t
            → now N s + 250 < end_time * 1000
            → Returns (again t))
        → Returns (
            checked r
              (λ errno.
                if fatal_for_receive errno
                then pure none
                else pause N 250 >>= λ _.
                    current_ms N >>= λ ms. if ltb ms end_time then again else pure none)
              (λ message. pure (some message))
              s)
    unfolding checked
    receive_result-Returns again (ok message) s rest = (some message, refl)
    receive_result-Returns again (fail e) s rest = elim (Bool-cases (fatal_for_receive e)) [
      | inl q ↦ rw q (none, refl)
      | inr q ↦ rw q (retry-Returns 250 end_time again none s rest)
    ]

    -- With a round for every 250 microseconds that are left, the loop ends.
    receive_loop-Returns :
        (rounds : ℕ) (s : N.State)
        → end_time * 1000 ≤ now N s + 250 * suc rounds
        → Returns (receive_loop N (suc rounds) sock flags end_time s)
    unfolding receive_loop ◌>>=◌
    receive_loop-Returns zero s h =
        receive_result-Returns _ (N.nn_recv_reply sock flags s).0 _
          (λ t a b. absurd (omega (arith, C.receive sock flags s)))
    receive_loop-Returns (suc rounds) s h =
        receive_result-Returns _ (N.nn_recv_reply sock flags s).0 _
          (λ t a b. receive_loop-Returns rounds t (omega (arith, C.receive sock flags s)))

  -- If the clock does not run backwards and `usleep` waits as long as it is told to,
  -- `receive_data` returns within 5000 rounds, whatever the network does.
  pub receive_data-Returns :
      (rounds sock flags : ℕ) (s : N.State)
      → 5000 ≤ rounds
      → Returns (receive_data N rounds sock flags s)
  unfolding receive_data current_ms ◌>>=◌ call
  receive_data-Returns zero sock flags s h = absurd (omega arith)
  receive_data-Returns (suc rounds) sock flags s h =
      receive_loop-Returns sock flags (now_ms N s + 1250) rounds (N.gettimeofday s).1
        (omega (arith, C.read s))
