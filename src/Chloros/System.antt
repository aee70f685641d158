-- ===== src/Chloros/System.antt =====
-- Kernel threads that run the library of lab1 side by side, a step at a time. A step under
-- `queue_lock` is whole; what a kernel thread does between two of them is its own.
use stanford_cs240_sp21_labs.Base.{Bool, List, Option, [], false, if◌then◌else◌, none, some, suc}
use stanford_cs240_sp21_labs.Base.{true, ℕ, ◌++◌, ◌∷◌, ◌≡◌}
use stanford_cs240_sp21_labs.Chloros.Scheduler.{Kernel, Pc, Shared, aborted, collecting}
use stanford_cs240_sp21_labs.Chloros.Scheduler.{context_switch, garbage_collect, initialize}
use stanford_cs240_sp21_labs.Chloros.Scheduler.{leave_entry, locking, return_to, spawn, switching}
use stanford_cs240_sp21_labs.Chloros.Scheduler.{user, wait_again, yield_locked}
use stanford_cs240_sp21_labs.Chloros.Thread.{Caller, from_user}

-- What the program does outside the library: the calls it makes, and the end of a thread's `fn`.
pub data Action : Type 0 where
  spawns : (fn : ℕ) (arg : ℕ) (base : ℕ) → Action
  yields : (only_ready : Bool) → Action
  waits : Action
  ends : Action

-- `Yield` where it has looked for a thread: it returns false, or goes on to switch.
unfoldable pub after_yield :
    Caller → Shared → Kernel → Option (Shared × Kernel) → Option (Shared × Kernel)
after_yield caller sh k none = some (sh, return_to caller false k)
after_yield caller sh k (some r) = some r

module _ (start_thread : ℕ) where
  -- Only a spawned thread stands below `ThreadEntry`.
  unfoldable pub act : Action → Shared → Kernel → Option (Shared × Kernel)
  act (spawns fn arg base) sh k = some (spawn start_thread fn arg base sh k)
  act (yields only_ready) sh k = some (sh, record k { pc = locking only_ready from_user })
  act waits sh k = some (sh, wait_again k)
  act ends sh k =
      if k.current_thread.is_initial_kernel_thread then none else some (sh, leave_entry k)

  unfoldable pub advance_at : Pc → Action → Shared → Kernel → Option (Shared × Kernel)
  advance_at user a sh k = act a sh k
  advance_at (locking only_ready caller) a sh k =
      after_yield caller sh k (yield_locked only_ready caller sh k)
  advance_at (switching prev) a sh k = some (sh, context_switch k)
  advance_at (collecting caller) a sh k = some (garbage_collect sh, return_to caller true k)
  advance_at aborted a sh k = none

  -- The next step of a kernel thread; outside the library the action says which.
  unfoldable pub advance : Action → Shared → Kernel → Option (Shared × Kernel)
  unfolding act after_yield advance_at
  advance a sh k = advance_at k.pc a sh k

pub record System : Type 0 where
  pub shared : Shared
  pub kernels : List Kernel

abbrev pub nothing : System
nothing = record {
  shared = record { thread_queue = []; next_id = 0; memory = λ _. 0 };
  kernels = [];
}

pub data Step (start_thread : ℕ) (s t : System) : Type 0 where
  starts :
      t ≡ record { shared = (initialize s.shared).0; kernels = (initialize s.shared).1 ∷ s.kernels }
      → Step start_thread s t
  moves :
      (a : Action) (before after : List Kernel) (k k' : Kernel) (sh : Shared)
      → s.kernels ≡ before ++ k ∷ after
      → advance start_thread a s.shared k ≡ some (sh, k')
      → t ≡ record { shared = sh; kernels = before ++ k' ∷ after }
      → Step start_thread s t

-- What `n` steps can lead to.
pub data Reach (start_thread : ℕ) : ℕ → System → Type 0 where
  begin : Reach start_thread 0 nothing
  later :
      {n : ℕ} {s t : System}
      → Reach start_thread n s
      → Step start_thread s t
      → Reach start_thread (suc n) t
