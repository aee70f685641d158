-- ===== src/Tests/Turns.antt =====
-- Single operations of the scheduler of lab1, and its switch, at concrete states.
use mathlib.Core.List.{filter}
use stanford_cs240_sp21_labs.Base.{Bool, List, [], arith, false, if◌then◌else◌, inl, inr, refl}
use stanford_cs240_sp21_labs.Base.{some, true, ℕ, ◌%◌, ◌++◌, ◌+◌, ◌-◌, ◌==◌, ◌^◌, ◌∷◌, ◌≡◌, ◌≢◌}
use stanford_cs240_sp21_labs.Base.{◌≤◌}
use stanford_cs240_sp21_labs.Chloros.Collect.{garbage_collect-filter, unfinished}
use stanford_cs240_sp21_labs.Chloros.Machine.{Cpu, ret, start_thread, switch_registers}
use stanford_cs240_sp21_labs.Chloros.Scheduler.{Kernel, Shared, context_switch, count_loop}
use stanford_cs240_sp21_labs.Chloros.Scheduler.{garbage_collect, get_thread_count, lay_stack}
use stanford_cs240_sp21_labs.Chloros.Scheduler.{left_behind, spawn, user, yield_locked}
use stanford_cs240_sp21_labs.Chloros.Switch.{start_thread-entry, switch_registers-back}
use stanford_cs240_sp21_labs.Chloros.Thread.{Resume, State, Thread, at_start, from_spawn}
use stanford_cs240_sp21_labs.Chloros.Thread.{from_user, k_stack_size, new_thread, ready, running}
use stanford_cs240_sp21_labs.Chloros.Thread.{waiting, zombie}
use stanford_cs240_sp21_labs.Chloros.Turns.{Turn, spawn-runs, yield_locked-Turn}
use stanford_cs240_sp21_labs.Chloros.Turns.{yield_locked-foreign}

abbrev thread : ℕ → State → Bool → Resume → Thread
thread n s home r = record (new_thread true 0x10000 n) {
  state = s;
  is_initial_kernel_thread = home;
  resume = r;
}

abbrev queue_of : List Thread → Shared
queue_of ts = record { thread_queue = ts; next_id = 5; memory = λ _. 0 }

-- Thread 4 runs on the kernel thread whose initial thread is 0.
abbrev spawned_runs : Kernel
spawned_runs = record {
  current_thread = thread 4 running false at_start;
  initial_thread_id = 0;
  pc = user;
}

abbrev mixed : Shared
mixed = queue_of (
    thread 2 zombie false at_start
    ∷ thread 1 waiting true at_start
    ∷ thread 3 ready false at_start
    ∷ [])

yield_locked-Turn_example :
    Turn true from_user mixed spawned_runs (yield_locked true from_user mixed spawned_runs)
yield_locked-Turn_example = yield_locked-Turn true from_user mixed spawned_runs

spawn-runs_example :
    (sh' : Shared) × (k' : Kernel) × (yield_locked true from_spawn
        (spawn 0x400000 7 8 0x20000 mixed spawned_runs).0
        (spawn 0x400000 7 8 0x20000 mixed spawned_runs).1
      ≡ some (sh', k'))
    × (sh'.thread_queue
        ≡ mixed.thread_queue ++ left_behind from_spawn spawned_runs.current_thread ∷ [])
    × (k'.current_thread.id ≡ 5)
    × (k'.current_thread.state ≡ running)
    × ((context_switch k').pc ≡ user)
    × (sh'.memory k'.current_thread.context.rsp ≡ 0x400000)
    × (sh'.memory (k'.current_thread.context.rsp + 8) ≡ 7)
    × (sh'.memory (k'.current_thread.context.rsp + 16) ≡ 8)
spawn-runs_example = spawn-runs 0x400000 7 8 0x20000 mixed spawned_runs

garbage_collect-filter_example :
    ((garbage_collect mixed).thread_queue ≡ filter unfinished mixed.thread_queue)
    × (get_thread_count (garbage_collect mixed) ≡ ((get_thread_count mixed).0, 0))
garbage_collect-filter_example = garbage_collect-filter mixed

counted : get_thread_count mixed ≡ (2, 1)
unfolding get_thread_count count_loop
counted = refl

yield_locked-foreign_example :
    (sh' : Shared) × (k' : Kernel) × (yield_locked false from_user
        (queue_of (thread 1 waiting true at_start ∷ []))
        spawned_runs
      ≡ some (sh', k'))
    × (k'.current_thread.is_initial_kernel_thread ≡ true)
    × (k'.current_thread.id ≢ k'.initial_thread_id)
unfolding new_thread
yield_locked-foreign_example =
    yield_locked-foreign from_user (queue_of (thread 1 waiting true at_start ∷ [])) spawned_runs
      (thread 1 waiting true at_start) [] refl (omega arith) refl refl (omega arith)

-- Two contexts, at 0x1000 and 0x2000; the stacks are above 0x10000.
abbrev before_switch : Cpu
before_switch = record {
  rip = 0x400000;
  rdi = 0x1000;
  rsi = 0x2000;
  saved = record (thread 0 running true at_start).context { rsp = 0x10000; rbx = 5; r12 = 6 };
  memory = λ a. a + 1;
}

abbrev later_on : Cpu
later_on = record (switch_registers before_switch) { rdi = 0x2000; rsi = 0x1000 }

switch_registers-back_example :
    ((switch_registers later_on).rip ≡ 0x10001)
    × ((switch_registers later_on).saved
        ≡ record before_switch.saved { rsp = 0x10008; x87 = before_switch.saved.x87 % 2 ^ 16 })
unfolding switch_registers ret
switch_registers-back_example =
    switch_registers-back before_switch later_on (inr (omega arith)) (λ x low high. refl) refl refl
      (inr (omega arith)) (inr (omega arith))

-- A new thread with the block at 0x10000, and its context at 0x2000.
abbrev new_stack : ℕ → ℕ
new_stack = (lay_stack (0x10000 + k_stack_size) 7 8 0x400000 (λ _. 0)).0

abbrev before_start : Cpu
before_start = record before_switch {
  memory = λ a. if a == 0x2000 then 0x10000 + k_stack_size - 32 else new_stack a;
}

start_thread-entry_example :
    let c' = switch_registers before_start in
    let c'' = start_thread 0x500000 0x400010 c' in
    (c'.rip ≡ 0x400000)
    × (c''.rip ≡ 0x500000)
    × (c''.rdi ≡ 7)
    × (c''.rsi ≡ 8)
    × (c''.memory c''.saved.rsp ≡ 0x400010)
    × ((c''.saved.rsp + 8) % 16 ≡ 0)
    × (0x10000 ≤ c''.saved.rsp)
unfolding lay_stack
start_thread-entry_example =
    start_thread-entry before_start 0x10000 7 8 0x400000 0x500000 0x400010 (λ _. 0) refl
      (inl (omega arith)) (inl (omega arith)) refl (λ x low high. ground arith)
