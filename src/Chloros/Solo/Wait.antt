-- ===== src/Chloros/Solo/Wait.antt =====
-- What `Wait` of lab1 waits for, on one kernel thread.
use mathlib.Core.Path.{subst}
use stanford_cs240_sp21_labs.Base.{All, Bool, List, Option, [], ap, arith, false, inl, none, not}
use stanford_cs240_sp21_labs.Base.{refl, some, true, ℕ, ◌&&◌, ◌++◌, ◌+◌, ◌<◌, ◌^◌, ◌||◌, ◌∙◌, ◌∷◌}
use stanford_cs240_sp21_labs.Base.{◌≡◌}
use stanford_cs240_sp21_labs.Chloros.Effect.{Stands, is_initial, is_leaving, is_unfit}
use stanford_cs240_sp21_labs.Chloros.Invariant.{currents, found_at, initial_in_queue}
use stanford_cs240_sp21_labs.Chloros.Machine.{start_thread}
use stanford_cs240_sp21_labs.Chloros.Safety.{Reach-IsSound}
use stanford_cs240_sp21_labs.Chloros.Scheduler.{Kernel, Pc, Shared, aborted, collecting}
use stanford_cs240_sp21_labs.Chloros.Scheduler.{initialize, locking, return_to, switching}
use stanford_cs240_sp21_labs.Chloros.Scheduler.{take_turn, user, wait_again, yield_locked}
use stanford_cs240_sp21_labs.Chloros.Solo.{IsSolo, Place, Solo, Solo-Reach, in_wait, initialized}
use stanford_cs240_sp21_labs.Chloros.Solo.{is_dirty, is_fresh, is_odd, stepped}
use stanford_cs240_sp21_labs.Chloros.Solo.Steps.{advance-IsSolo}
use stanford_cs240_sp21_labs.Chloros.System.{Action, System, advance, advance_at, after_yield}
use stanford_cs240_sp21_labs.Chloros.Tally.{tally, tally-snoc}
use stanford_cs240_sp21_labs.Chloros.Thread.{State, Thread, from_entry, from_spawn, from_user}
use stanford_cs240_sp21_labs.Chloros.Thread.{from_wait, is_running, is_waiting}
use stanford_cs240_sp21_labs.Chloros.Thread.{is_zombie, new_thread, ready, running, waiting}
use stanford_cs240_sp21_labs.Chloros.Thread.{zombie}
use stanford_cs240_sp21_labs.Chloros.Turns.{MayRun, Turn, yield_locked-Turn}

Solo-IsSolo :
    {start_thread n : ℕ} {sh : Shared} {k : Kernel}
    → Solo start_thread n sh k
    → n + 1 < 2 ^ 64
    → IsSolo sh k
unfolding initialize new_thread tally
Solo-IsSolo initialized small = record { even = refl; place = (refl, refl) }
Solo-IsSolo {start_thread} (stepped {n} {sh} {sh'} {k} {k'} a r may h) small =
    let (v, _) = Reach-IsSound start_thread (Solo-Reach r) (omega arith) in
    let s : System = record { shared = sh; kernels = k ∷ [] } in
    let stands : Stands k = v.stand.0 in
    advance-IsSolo start_thread a sh sh' k k' may (Solo-IsSolo r (omega arith)) stands
      (found_at k.pc sh k stands v.fit (initial_in_queue s [] [] k refl v)) h

only_ready_left :
    (s : State) (i f w l : Bool)
    → i ≡ false
    → (is_zombie s || f) ≡ false
    → (not i && (is_waiting s || w)) ≡ false
    → (is_running s || is_zombie s && i || not (is_zombie s) && l) ≡ false
    → s ≡ ready
only_ready_left waiting true f w l a b c d = cc
only_ready_left waiting false f w l a b c d = cc
only_ready_left ready i f w l a b c d = refl
only_ready_left running i f w l a b c d = cc
only_ready_left zombie i f w l a b c d = cc

-- A queue in which no thread is fit for a place is empty.
nobody_left :
    (b : Bool) (k : Kernel) (ts : List Thread)
    → All (λ t. ¬ (MayRun b k t)) ts
    → tally is_initial ts ≡ 0
    → tally is_dirty ts ≡ 0
    → tally is_odd ts ≡ 0
    → tally is_unfit ts ≡ 0
    → ts ≡ []
unfolding tally
nobody_left b k [] none_may initial dirty odd unfit = refl
nobody_left b k (t ∷ ts) none_may initial dirty odd unfit =
    let spawned : is_initial t ≡ false = ground arith in
    let is_ready : t.state ≡ ready =
      only_ready_left t.state t.is_initial_kernel_thread (is_fresh t) (in_wait t.resume)
        (is_leaving t.resume) spawned (ground arith) (ground arith) (ground arith) in
    absurd (none_may.0 (inl is_ready, λ _. spawned))

-- Where the thread that runs is initial, no other is.
one_initial :
    (sh : Shared) (k : Kernel)
    → k.current_thread.is_initial_kernel_thread ≡ true
    → tally is_initial (sh.thread_queue ++ currents (k ∷ [])) ≡ 1
    → tally is_initial sh.thread_queue ≡ 0
unfolding currents tally
one_initial sh k home all = ground (arith, tally-snoc is_initial sh.thread_queue k.current_thread)

-- The places in the loop of `Wait`.
abbrev pub in_loop : Pc → Bool
in_loop (locking _ from_wait) = true
in_loop (collecting from_wait) = true
in_loop _ = false

-- A step from `Wait` to the program is the failure of `Yield`.
module _ (b : Bool) (sh sh' : Shared) (k k' : Kernel) where
  yield_fails :
      (m : Option (Thread × List Thread))
      → after_yield from_wait sh k (take_turn from_wait sh k m) ≡ some (sh', k')
      → k'.pc ≡ user
      → (take_turn from_wait sh k m ≡ none) × (sh' ≡ sh)
  unfolding after_yield take_turn
  yield_fails none h at = (refl, cc)
  yield_fails (some (t, us)) h at = cc

leaves_loop :
    (start_thread : ℕ) (pc : Pc) (a : Action) (sh sh' : Shared) (k k' : Kernel)
    → in_loop pc ≡ true
    → advance_at start_thread pc a sh k ≡ some (sh', k')
    → k'.pc ≡ user
    → (b : Bool) × (pc ≡ locking b from_wait) × (yield_locked b from_wait sh k ≡ none) × (sh' ≡ sh)
unfolding advance_at return_to wait_again yield_locked
leaves_loop start_thread user a sh sh' k k' loops h at = cc
leaves_loop start_thread (locking b from_wait) a sh sh' k k' loops h at =
    let (failed, same) = yield_fails b sh sh' k k' _ h at in (b, refl, failed, same)
leaves_loop start_thread (locking b from_user) a sh sh' k k' loops h at = cc
leaves_loop start_thread (locking b from_spawn) a sh sh' k k' loops h at = cc
leaves_loop start_thread (locking b from_entry) a sh sh' k k' loops h at = cc
leaves_loop start_thread (switching prev) a sh sh' k k' loops h at = cc
leaves_loop start_thread (collecting from_wait) a sh sh' k k' loops h at = cc
leaves_loop start_thread (collecting from_user) a sh sh' k k' loops h at = cc
leaves_loop start_thread (collecting from_spawn) a sh sh' k k' loops h at = cc
leaves_loop start_thread (collecting from_entry) a sh sh' k k' loops h at = cc
leaves_loop start_thread aborted a sh sh' k k' loops h at = cc

failed_empty :
    (start_thread n : ℕ) (sh : Shared) (k : Kernel) (b : Bool)
    → Solo start_thread n sh k
    → n + 1 < 2 ^ 64
    → k.pc ≡ locking b from_wait
    → yield_locked b from_wait sh k ≡ none
    → sh.thread_queue ≡ []
failed_empty start_thread n sh k b r small at failed =
    let (v, _) = Reach-IsSound start_thread (Solo-Reach r) (omega arith) in
    let w = Solo-IsSolo r (omega arith) in
    let place : Place (locking b from_wait) k.current_thread sh.thread_queue =
      subst (λ (pc : Pc). Place pc k.current_thread sh.thread_queue) at w.place in
    let none_may : All (λ t. ¬ (MayRun b k t)) sh.thread_queue =
      subst (Turn b from_wait sh k) failed (yield_locked-Turn b from_wait sh k) in
    nobody_left b k sh.thread_queue none_may (one_initial sh k place.2 v.initials) place.0 w.even
      v.fit

-- One kernel thread, on which only the initial thread calls `Wait`, after fewer than 2^64 - 1 steps:
-- a step from the loop of `Wait` back to the program leaves the queue empty, so every spawned thread
-- has ended and is collected.
pub wait_over :
    (start_thread n : ℕ) (a : Action) (sh sh' : Shared) (k k' : Kernel)
    → Solo start_thread n sh k
    → n + 1 < 2 ^ 64
    → in_loop k.pc ≡ true
    → advance start_thread a sh k ≡ some (sh', k')
    → k'.pc ≡ user
    → sh'.thread_queue ≡ []
unfolding advance
wait_over start_thread n a sh sh' k k' r small loops h at =
    let (b, here, failed, same) = leaves_loop start_thread k.pc a sh sh' k k' loops h at in
    ap (λ (x : Shared). x.thread_queue) same
    ∙ failed_empty start_thread n sh k b r small here failed
