-- ===== src/Chloros/Scheduler.antt =====
-- The parts of `Spawn`, `Yield`, `Wait`, `GarbageCollect`, `GetThreadCount` and `ThreadEntry` of
-- lab1/src/chloros.cpp, each as a function of the state that kernel threads share and of the
-- state of one kernel thread.
use stanford_cs240_sp21_labs.Base.{Bool, List, Option, [], false, if◌then◌else◌, none, not, some}
use stanford_cs240_sp21_labs.Base.{true, ℕ, ◌%◌, ◌&&◌, ◌++◌, ◌+◌, ◌-◌, ◌==◌, ◌^◌, ◌||◌, ◌∷◌}
use stanford_cs240_sp21_labs.Chloros.Thread.{Caller, Resume, State, Thread, at_start, from_entry}
use stanford_cs240_sp21_labs.Chloros.Thread.{from_spawn, from_user, from_wait, in_yield, is_ready}
use stanford_cs240_sp21_labs.Chloros.Thread.{is_waiting, is_zombie, new_thread, ready, running}
use stanford_cs240_sp21_labs.Chloros.Thread.{waiting, zombie}

-- What all kernel threads share: `thread_queue`, `Thread::next_id`, and the memory, in words of
-- eight bytes.
pub record Shared : Type 0 where
  pub thread_queue : List Thread
  pub next_id : ℕ
  pub memory : ℕ → ℕ

-- Where a kernel thread stands.
pub data Pc : Type 0 where
  user : Pc  -- outside the library
  locking : Bool → Caller → Pc  -- at the start of `Yield(only_ready)`
  switching : ℕ → Pc  -- before `ContextSwitch`, away from the thread with this number
  collecting : Caller → Pc  -- after `ContextSwitch`, before `GarbageCollect`
  aborted : Pc  -- after `ASSERT(false)`

-- The variables that are local to a kernel thread.
pub record Kernel : Type 0 where
  pub current_thread : Thread
  pub initial_thread_id : ℕ
  pub pc : Pc

unfoldable pub initialize : Shared → Shared × Kernel
initialize sh =
    let t = new_thread false 0 sh.next_id in
    let t' = record t { state = waiting; is_initial_kernel_thread = true } in
    (
      record sh { next_id = (sh.next_id + 1) % 2 ^ 64 },
      record { current_thread = t'; initial_thread_id = t.id; pc = user },
    )

abbrev pub write_word : ℕ → ℕ → (ℕ → ℕ) → ℕ → ℕ
write_word a v memory b = if a == b then v else memory b

-- The words that `Spawn` lays on a new stack, and the stack pointer below them.
unfoldable pub lay_stack : ℕ → ℕ → ℕ → ℕ → (ℕ → ℕ) → (ℕ → ℕ) × ℕ
lay_stack stack fn arg start_thread memory = (
  write_word (stack - 32) start_thread
      (write_word (stack - 24) fn (write_word (stack - 16) arg memory)),
  stack - 32,
)

-- `Spawn`, up to its call of `Yield`. `base` is the block that `aligned_alloc` gives.
unfoldable pub spawn : ℕ → ℕ → ℕ → ℕ → Shared → Kernel → Shared × Kernel
spawn start_thread fn arg base sh k =
    let t = new_thread true base sh.next_id in
    let (memory', rsp) = lay_stack t.stack fn arg start_thread sh.memory in
    let t' = record t { context = record t.context { rsp = rsp }; state = ready } in
    (
      record {
        thread_queue = t' ∷ sh.thread_queue;
        next_id = (sh.next_id + 1) % 2 ^ 64;
        memory = memory';
      },
      record k { pc = locking true from_spawn },
    )

-- The test of the loop in `Yield` on one thread of the queue.
unfoldable pub eligible : Bool → Kernel → Thread → Bool
eligible only_ready k t =
    (is_ready t.state || is_waiting t.state && not only_ready)
    && (not (k.current_thread.id == k.initial_thread_id) || not t.is_initial_kernel_thread)

-- The loop: the first thread that passes the test, and the queue without it.
unfoldable pub find_next : (Thread → Bool) → List Thread → Option (Thread × List Thread)
find_next test [] = none
find_next test (t ∷ ts) =
    if test t
    then some (t, ts)
    else elim (find_next test ts) [ none ↦ none | some (u, us) ↦ some (u, t ∷ us) ]

-- What `Yield` does to the state of the thread that it leaves.
abbrev pub leave_state : State → State
leave_state running = ready
leave_state s = s

-- The thread that `Yield` leaves, as it stands in the queue: on its stack is the frame of the
-- caller of `Yield`.
abbrev pub left_behind : Caller → Thread → Thread
left_behind c t = record t { state = leave_state t.state; resume = in_yield c }

-- `Yield` behind its loop, up to the release of the lock; `none` where it returns false.
unfoldable pub take_turn :
    Caller → Shared → Kernel → Option (Thread × List Thread) → Option (Shared × Kernel)
take_turn caller sh k none = none
take_turn caller sh k (some (next, rest)) = some (
  record sh { thread_queue = rest ++ left_behind caller k.current_thread ∷ [] },
  record k { current_thread = record next { state = running }; pc = switching k.current_thread.id },
)

unfoldable pub yield_locked : Bool → Caller → Shared → Kernel → Option (Shared × Kernel)
yield_locked only_ready caller sh k =
    take_turn caller sh k (find_next (eligible only_ready k) sh.thread_queue)

-- `GarbageCollect`: the loop that moves the other threads to the end of a new queue.
unfoldable pub keep_others : List Thread → List Thread → List Thread
keep_others [] new_queue = new_queue
keep_others (t ∷ ts) new_queue =
    keep_others ts (if is_zombie t.state then new_queue else new_queue ++ t ∷ [])

unfoldable pub garbage_collect : Shared → Shared
garbage_collect sh = record sh { thread_queue = keep_others sh.thread_queue [] }

-- The loop of `GetThreadCount` over the queue.
unfoldable pub count_loop : List Thread → ℕ → ℕ → ℕ × ℕ
count_loop [] live dead = (live, dead)
count_loop (t ∷ ts) live dead =
    let gone = is_zombie t.state in
    count_loop ts (if gone then live else live + 1) (if gone then dead + 1 else dead)

unfoldable pub get_thread_count : Shared → ℕ × ℕ
get_thread_count sh = count_loop sh.thread_queue 0 0

abbrev pub with_state : State → Kernel → Kernel
with_state s k = record k { current_thread = record k.current_thread { state = s } }

-- `Wait`, up to a call of `Yield`.
unfoldable pub wait_again : Kernel → Kernel
wait_again k = record (with_state waiting k) { pc = locking true from_wait }

-- `ThreadEntry` after the call of `fn`, up to the call of `Yield`.
unfoldable pub leave_entry : Kernel → Kernel
leave_entry k = record (with_state zombie k) { pc = locking false from_entry }

-- Where `Yield` returns to, with its result.
unfoldable pub return_to : Caller → Bool → Kernel → Kernel
return_to from_user done k = record k { pc = user }
return_to from_spawn done k = record k { pc = user }
return_to from_wait true k = wait_again k
return_to from_wait false k = record k { pc = user }
return_to from_entry done k = record k { pc = aborted }

-- `ContextSwitch`: the kernel thread goes on where the context of `current_thread` leads.
unfoldable pub resume_at : Resume → Kernel → Kernel
resume_at at_start k = record k { pc = user }
resume_at (in_yield c) k = record k { pc = collecting c }

unfoldable pub context_switch : Kernel → Kernel
unfolding resume_at
context_switch k = resume_at k.current_thread.resume k
