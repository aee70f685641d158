-- ===== src/Tests/Chloros.antt =====
-- Runs of the scheduler of lab1, on one kernel thread and on two.
use stanford_cs240_sp21_labs.Base.{List, Option, [], ap, false, none, refl}
use stanford_cs240_sp21_labs.Base.{some, suc, take, true, zero, ℕ, ◌++◌, ◌∷◌, ◌≡◌}
use stanford_cs240_sp21_labs.Chloros.Scheduler.{Kernel, Pc, Shared, context_switch}
use stanford_cs240_sp21_labs.Chloros.Scheduler.{eligible, find_next, garbage_collect, initialize}
use stanford_cs240_sp21_labs.Chloros.Scheduler.{keep_others, lay_stack, leave_entry, return_to}
use stanford_cs240_sp21_labs.Chloros.Scheduler.{spawn, switching, take_turn, wait_again}
use stanford_cs240_sp21_labs.Chloros.Scheduler.{yield_locked}
use stanford_cs240_sp21_labs.Chloros.System.{Action, Reach, Step, System, advance, ends, nothing}
use stanford_cs240_sp21_labs.Chloros.System.{spawns, waits, yields}
use stanford_cs240_sp21_labs.Chloros.Thread.{Thread, new_thread}

abbrev code : ℕ
code = 0x400000

-- A kernel thread of a list, with the others around it.
abbrev Part : List Kernel → Type 0
Part ks = (before : List Kernel) × (k : Kernel) × (after : List Kernel) × (ks ≡ before ++ k ∷ after)

part : (ks : List Kernel) → ℕ → Option (Part ks)
part [] i = none
part (k ∷ ks) zero = some ([], k, ks, refl)
part (k ∷ ks) (suc i) = elim (part ks i) [
  | none ↦ none
  | some (before, l, after, e) ↦ some (k ∷ before, l, after, ap (λ ls. k ∷ ls) e)
]

record Run : Type 0 where
  steps : ℕ
  last : System
  reach : Reach code steps last

abbrev still : Run
still = record { steps = 0; last = nothing; reach = Reach.begin }

-- What is done next: `Initialize` on a new kernel thread, or a step of the kernel thread `i`.
data Turn : Type 0 where
  starts : Turn
  moves : ℕ → Action → Turn

go :
    (r : Run) (p : Part r.last.kernels) (a : Action) (m : Option (Shared × Kernel))
    → advance code a r.last.shared p.1 ≡ m
    → Run
go r p a none e = r
go r (before, k, after, q) a (some (sh, k')) e = record {
  steps = suc r.steps;
  last = record { shared = sh; kernels = before ++ k' ∷ after };
  reach = Reach.later r.reach (Step.moves a before after k k' sh q e refl);
}

turn : Run → Turn → Run
unfolding part go
turn r starts = record {
  steps = suc r.steps;
  last = _;
  reach = Reach.later r.reach (Step.starts refl);
}
turn r (moves i a) = elim (part r.last.kernels i) [ none ↦ r | some p ↦ go r p a _ refl ]

run : List Turn → Run → Run
unfolding turn
run [] r = r
run (t ∷ ts) r = run ts (turn r t)

abbrev step : ℕ → Turn
step i = moves i waits

-- One kernel thread: its thread spawns another, which ends; then it waits.
abbrev waited : List Turn
waited =
    starts
    ∷ moves 0 (spawns 7 8 0x10000)
    ∷ step 0
    ∷ step 0
    ∷ moves 0 ends
    ∷ step 0
    ∷ step 0
    ∷ step 0
    ∷ moves 0 waits
    ∷ []

-- The number of the thread that each kernel thread runs.
numbers : List Kernel → List ℕ
numbers [] = []
numbers (k ∷ ks) = k.current_thread.id ∷ numbers ks

places : List Kernel → List Pc
places [] = []
places (k ∷ ks) = k.pc ∷ places ks

queued : List Thread → List ℕ
queued [] = []
queued (t ∷ ts) = t.id ∷ queued ts

abbrev end : List Turn → System
end ts = (run ts still).last

spawned_runs :
    (numbers (end (take 4 waited)).kernels ≡ 1 ∷ [])
    × (queued (end (take 4 waited)).shared.thread_queue ≡ 0 ∷ [])
unfolding run advance context_switch yield_locked take_turn find_next eligible spawn initialize
    new_thread numbers queued lay_stack
spawned_runs = (refl, refl)

-- The spawned thread has ended, and is collected.
ended_is_gone :
    (numbers (end waited).kernels ≡ 0 ∷ []) × (queued (end waited).shared.thread_queue ≡ [])
unfolding run advance context_switch yield_locked take_turn find_next eligible spawn initialize
    new_thread numbers queued lay_stack leave_entry return_to garbage_collect keep_others wait_again
ended_is_gone = (refl, refl)

-- Two kernel threads, of whose initial threads the second has the number 1. The first spawns
-- thread 2, which yields back; the second takes it up. Then the first spawns thread 3, which yields
-- to thread 1.
abbrev taken_up : List Turn
taken_up =
    starts
    ∷ starts
    ∷ moves 1 (spawns 7 8 0x10000)
    ∷ step 1
    ∷ step 1
    ∷ moves 1 (yields false)
    ∷ step 1
    ∷ []

abbrev moved : List Turn
moved =
    taken_up
    ++ step 1
      ∷ step 1
      ∷ moves 0 (yields true)
      ∷ step 0
      ∷ step 0
      ∷ moves 1 (spawns 7 8 0x400000)
      ∷ step 1
      ∷ step 1
      ∷ moves 1 (yields false)
      ∷ step 1
      ∷ []

-- The kernel threads stand in the list with the last one started first.
initial_thread_moves : numbers (end moved).kernels ≡ 2 ∷ 1 ∷ []
unfolding run advance context_switch yield_locked take_turn find_next eligible spawn initialize
    new_thread numbers queued lay_stack leave_entry return_to garbage_collect keep_others wait_again
initial_thread_moves = refl

-- Thread 2 runs on one kernel thread before the other has saved its registers.
abbrev early : List Turn
early = taken_up ++ moves 0 (yields true) ∷ step 0 ∷ []

early_switch :
    (numbers (end early).kernels ≡ 2 ∷ 0 ∷ [])
    × (places (end early).kernels ≡ switching 1 ∷ switching 2 ∷ [])
unfolding run advance context_switch yield_locked take_turn find_next eligible spawn initialize
    new_thread numbers places lay_stack
early_switch = (refl, refl)

at_end_steps : (run (take 5 waited) still).steps ≡ 5
unfolding run advance context_switch yield_locked take_turn find_next eligible spawn initialize
    new_thread lay_stack leave_entry return_to garbage_collect keep_others wait_again
at_end_steps = refl

-- The spawned thread at its end.
abbrev ending : System
ending = end (take 5 waited)

abbrev its_kernel : Kernel
its_kernel = elim ending.kernels [ [] ↦ (initialize nothing.shared).1 | k ∷ ks ↦ k ]
