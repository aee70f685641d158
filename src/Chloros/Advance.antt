-- ===== src/Chloros/Advance.antt =====
-- `advance` of the model of lab1's scheduler, case by case.
use mathlib.Core.Path.{subst}
use stanford_cs240_sp21_labs.Base.{Bool, List, Option, false, if◌then◌else◌, none, refl, some}
use stanford_cs240_sp21_labs.Base.{true, ℕ, ◌+◌, ◌<◌, ◌^◌, ◌≡◌, ◌≢◌}
use stanford_cs240_sp21_labs.Chloros.Effect.{Effect, Stands, StandsAt, collect-Effect, is_leaving}
use stanford_cs240_sp21_labs.Chloros.Effect.{is_unfit, same_threads, spawn-Effect}
use stanford_cs240_sp21_labs.Chloros.Effect.{yield_locked-Effect}
use stanford_cs240_sp21_labs.Chloros.Scheduler.{Kernel, Pc, Shared, aborted, collecting}
use stanford_cs240_sp21_labs.Chloros.Scheduler.{context_switch, eligible, find_next}
use stanford_cs240_sp21_labs.Chloros.Scheduler.{garbage_collect, leave_entry, locking, resume_at}
use stanford_cs240_sp21_labs.Chloros.Scheduler.{return_to, switching, take_turn, user, wait_again}
use stanford_cs240_sp21_labs.Chloros.Scheduler.{yield_locked}
use stanford_cs240_sp21_labs.Chloros.System.{Action, act, advance, advance_at, after_yield, ends}
use stanford_cs240_sp21_labs.Chloros.System.{spawns, waits, yields}
use stanford_cs240_sp21_labs.Chloros.Tally.{Taken, find_next-Taken, tally}
use stanford_cs240_sp21_labs.Chloros.Thread.{Caller, Resume, Thread, at_start, from_entry}
use stanford_cs240_sp21_labs.Chloros.Thread.{from_spawn, from_user, from_wait, in_yield}
use stanford_cs240_sp21_labs.Chloros.Thread.{is_zombie}

-- A thread at its end finds a thread to go on with.
abbrev pub HasNext : Shared → Kernel → Pc → Type 0
HasNext sh k (locking only_ready from_entry) =
    find_next (eligible only_ready k) sh.thread_queue ≢ none
HasNext sh k _ = Unit

return_to-Effect :
    (c : Caller) (sh : Shared) (k : Kernel)
    → tally is_unfit sh.thread_queue ≡ 0
    → StandsAt (collecting c) k.current_thread
    → Effect sh k (garbage_collect sh) (return_to c true k)
unfolding return_to wait_again
return_to-Effect from_user sh k fit h = collect-Effect fit refl refl refl h
return_to-Effect from_spawn sh k fit h = collect-Effect fit refl refl refl h
return_to-Effect from_wait sh k fit h = collect-Effect fit refl refl refl refl
return_to-Effect from_entry sh k fit h = absurd h

failed-Effect :
    (b : Bool) (c : Caller) (sh : Shared) (k : Kernel)
    → tally is_unfit sh.thread_queue ≡ 0
    → StandsAt (locking b c) k.current_thread
    → find_next (eligible b k) sh.thread_queue ≡ none
    → HasNext sh k (locking b c)
    → Effect sh k sh (return_to c false k)
unfolding return_to
failed-Effect b from_user sh k fit h e n = same_threads fit refl refl refl h
failed-Effect b from_spawn sh k fit h e n = same_threads fit refl refl refl h
failed-Effect b from_wait sh k fit h e n = same_threads fit refl refl refl h
failed-Effect b from_entry sh k fit h e n = absurd (n e)

switch-Effect :
    (r : Resume) (sh : Shared) (k : Kernel)
    → tally is_unfit sh.thread_queue ≡ 0
    → is_zombie k.current_thread.state ≡ false
    → is_leaving r ≡ false
    → Effect sh k sh (resume_at r k)
unfolding resume_at
switch-Effect at_start sh k fit alive stays = same_threads fit refl refl refl alive
switch-Effect (in_yield from_user) sh k fit alive stays = same_threads fit refl refl refl alive
switch-Effect (in_yield from_spawn) sh k fit alive stays = same_threads fit refl refl refl alive
switch-Effect (in_yield from_wait) sh k fit alive stays = same_threads fit refl refl refl alive
switch-Effect (in_yield from_entry) sh k fit alive stays = cc

-- What a step leads to, if it is one.
abbrev After : Shared → Kernel → Option (Shared × Kernel) → Type 0
After sh k none = Unit
After sh k (some (sh', k')) = Effect sh k sh' k'

locked-After :
    (b : Bool) (c : Caller) (sh : Shared) (k : Kernel) (m : Option (Thread × List Thread))
    → find_next (eligible b k) sh.thread_queue ≡ m
    → Taken (eligible b k) sh.thread_queue m
    → tally is_unfit sh.thread_queue ≡ 0
    → StandsAt (locking b c) k.current_thread
    → HasNext sh k (locking b c)
    → After sh k (after_yield c sh k (take_turn c sh k m))
unfolding after_yield take_turn
locked-After b c sh k none e taken fit stands n = failed-Effect b c sh k fit stands e n
locked-After b c sh k (some (t, us)) e taken fit stands n =
    yield_locked-Effect b c sh k t us fit stands taken

module _ (start_thread : ℕ) where
  ends-After :
      (i : Bool) (sh : Shared) (k : Kernel)
      → k.current_thread.is_initial_kernel_thread ≡ i
      → tally is_unfit sh.thread_queue ≡ 0
      → After sh k (if i then none else some (sh, leave_entry k))
  unfolding leave_entry
  ends-After true sh k e fit = tt
  ends-After false sh k e fit = same_threads fit refl refl refl (refl, refl, e)

  act-After :
      (a : Action) (sh : Shared) (k : Kernel)
      → sh.next_id + 1 < 2 ^ 64
      → tally is_unfit sh.thread_queue ≡ 0
      → is_zombie k.current_thread.state ≡ false
      → After sh k (act start_thread a sh k)
  unfolding act wait_again
  act-After (spawns fn arg base) sh k small fit alive =
      spawn-Effect start_thread fn arg base sh k small fit alive
  act-After (yields b) sh k small fit alive = same_threads fit refl refl refl alive
  act-After waits sh k small fit alive = same_threads fit refl refl refl refl
  act-After ends sh k small fit alive =
      ends-After k.current_thread.is_initial_kernel_thread sh k refl fit

  advance_at-After :
      (pc : Pc) (a : Action) (sh : Shared) (k : Kernel)
      → sh.next_id + 1 < 2 ^ 64
      → tally is_unfit sh.thread_queue ≡ 0
      → StandsAt pc k.current_thread
      → HasNext sh k pc
      → After sh k (advance_at start_thread pc a sh k)
  unfolding advance_at yield_locked context_switch
  advance_at-After user a sh k small fit stands n = act-After a sh k small fit stands
  advance_at-After (locking b c) a sh k small fit stands n =
      locked-After b c sh k _ refl (find_next-Taken (eligible b k) sh.thread_queue) fit stands n
  advance_at-After (switching prev) a sh k small fit stands n =
      switch-Effect k.current_thread.resume sh k fit stands.0 stands.1
  advance_at-After (collecting c) a sh k small fit stands n = return_to-Effect c sh k fit stands
  advance_at-After aborted a sh k small fit stands n = absurd stands

  pub advance-Effect :
      (a : Action) (sh sh' : Shared) (k k' : Kernel)
      → sh.next_id + 1 < 2 ^ 64
      → tally is_unfit sh.thread_queue ≡ 0
      → Stands k
      → HasNext sh k k.pc
      → advance start_thread a sh k ≡ some (sh', k')
      → Effect sh k sh' k'
  unfolding advance
  advance-Effect a sh sh' k k' small fit stands n h =
      subst (After sh k) h (advance_at-After k.pc a sh k small fit stands n)
