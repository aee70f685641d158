-- ===== src/Tests/Solo.antt =====
-- A run of one kernel thread of lab1, up to the return of `Wait`.
use stanford_cs240_sp21_labs.Base.{Bool, List, Option, [], ap, arith, false, none, refl, some}
use stanford_cs240_sp21_labs.Base.{suc, true, ℕ, ◌+◌, ◌<◌, ◌^◌, ◌∷◌, ◌≡◌}
use stanford_cs240_sp21_labs.Chloros.Scheduler.{Kernel, Shared, context_switch, eligible}
use stanford_cs240_sp21_labs.Chloros.Scheduler.{find_next, garbage_collect, initialize}
use stanford_cs240_sp21_labs.Chloros.Scheduler.{keep_others, lay_stack, leave_entry, locking}
use stanford_cs240_sp21_labs.Chloros.Scheduler.{return_to, spawn, take_turn, user, wait_again}
use stanford_cs240_sp21_labs.Chloros.Scheduler.{yield_locked}
use stanford_cs240_sp21_labs.Chloros.Solo.{Allowed, Solo, initialized, stepped}
use stanford_cs240_sp21_labs.Chloros.Solo.Wait.{in_loop, wait_over}
use stanford_cs240_sp21_labs.Chloros.System.{Action, advance, ends, spawns, waits, yields}
use stanford_cs240_sp21_labs.Chloros.Thread.{from_wait, new_thread}

abbrev code : ℕ
code = 0x400000

record SoloRun : Type 0 where
  steps : ℕ
  shared : Shared
  kernel : Kernel
  reach : Solo code steps shared kernel

go :
    (r : SoloRun) (a : Action)
    → Allowed a r.kernel
    → (m : Option (Shared × Kernel)) → advance code a r.shared r.kernel ≡ m
    → SoloRun
go r a may none e = r
go r a may (some (sh, k)) e = record {
  steps = suc r.steps;
  shared = sh;
  kernel = k;
  reach = stepped a r.reach may e;
}

is_true : (b : Bool) → Dec (b ≡ true)
is_true true = yes refl
is_true false = no (λ h. cc)

may? : (a : Action) (k : Kernel) → Dec (Allowed a k)
unfolding is_true
may? waits k = is_true k.current_thread.is_initial_kernel_thread
may? (spawns fn arg base) k = yes tt
may? (yields b) k = yes tt
may? ends k = yes tt

run : List Action → SoloRun → SoloRun
unfolding go may?
run [] r = r
run (a ∷ as') r = run as' (elim (may? a r.kernel) [ yes may ↦ go r a may _ refl | no _ ↦ r ])

abbrev step : Action
step = yields false

abbrev started : SoloRun
started = record { steps = 0; shared = _; kernel = _; reach = initialized }

-- The thread spawns another, which yields and ends; then the first waits.
abbrev waited : SoloRun
waited =
    run
      (spawns 7 8 0x10000
        ∷ step
        ∷ step
        ∷ yields false
        ∷ step
        ∷ step
        ∷ step
        ∷ waits
        ∷ step
        ∷ step
        ∷ step
        ∷ ends
        ∷ step
        ∷ step
        ∷ step
        ∷ [])
      started

at_last : (waited.kernel.pc ≡ locking true from_wait) × (waited.steps ≡ 15)
unfolding run advance context_switch yield_locked take_turn find_next eligible spawn initialize
    new_thread lay_stack leave_entry return_to garbage_collect keep_others wait_again
at_last = (refl, refl)

over :
    advance code step waited.shared waited.kernel
    ≡ some (waited.shared, record waited.kernel { pc = user })
unfolding run advance context_switch yield_locked take_turn find_next eligible spawn initialize
    new_thread lay_stack leave_entry return_to garbage_collect keep_others wait_again
over = refl

enough : (n m : ℕ) → n ≡ m → m < 2 ^ 63 → n + 1 < 2 ^ 64
enough n m e h = omega arith

wait_over_example : waited.shared.thread_queue ≡ []
wait_over_example =
    wait_over code waited.steps step waited.shared waited.shared waited.kernel
      (record waited.kernel { pc = user }) waited.reach
      (enough waited.steps 15 at_last.1 (omega arith)) (ap in_loop at_last.0) over refl
