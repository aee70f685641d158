-- ===== src/Chloros/Solo.antt =====
-- One kernel thread of lab1, on which only the initial thread calls `Wait`, as chloros.h asks.
pub mod Place
pub mod Steps
pub mod Wait
use stanford_cs240_sp21_labs.Base.{Bool, List, [], arith, false, not, refl, some, suc, true, ℕ}
use stanford_cs240_sp21_labs.Base.{◌&&◌, ◌||◌, ◌∷◌, ◌≡◌}
use stanford_cs240_sp21_labs.Chloros.Machine.{start_thread}
use stanford_cs240_sp21_labs.Chloros.Scheduler.{Kernel, Pc, Shared, aborted, collecting}
use stanford_cs240_sp21_labs.Chloros.Scheduler.{initialize, keep_others, locking, switching, user}
use stanford_cs240_sp21_labs.Chloros.System.{Action, Reach, Step, advance, nothing, waits}
use stanford_cs240_sp21_labs.Chloros.Tally.{tally, tally-keep_others, tally-le-add, tally-false}
use stanford_cs240_sp21_labs.Chloros.Thread.{Resume, Thread, at_start, from_entry, from_spawn}
use stanford_cs240_sp21_labs.Chloros.Thread.{from_user, from_wait, in_yield, is_waiting}
use stanford_cs240_sp21_labs.Chloros.Thread.{is_zombie, ready, running}

-- The calls that chloros.h allows to the thread that runs.
abbrev pub Allowed : Action → Kernel → Type 0
Allowed waits k = k.current_thread.is_initial_kernel_thread ≡ true
Allowed _ k = Unit

-- What `n` steps behind `Initialize` lead to.
pub data Solo (start_thread : ℕ) : ℕ → Shared → Kernel → Type 0 where
  initialized : Solo start_thread 0 (initialize nothing.shared).0 (initialize nothing.shared).1
  stepped :
      {n : ℕ} {sh sh' : Shared} {k k' : Kernel} (a : Action)
      → Solo start_thread n sh k
      → Allowed a k
      → advance start_thread a sh k ≡ some (sh', k')
      → Solo start_thread (suc n) sh' k'

-- These are states of the system with this kernel thread alone.
pub Solo-Reach :
    {start_thread n : ℕ} {sh : Shared} {k : Kernel}
    → Solo start_thread n sh k
    → Reach start_thread (suc n) (record { shared = sh; kernels = k ∷ [] })
Solo-Reach initialized = Reach.later Reach.begin (Step.starts refl)
Solo-Reach (stepped {sh} {sh'} {k} {k'} a r _ h) =
    Reach.later (Solo-Reach r) (Step.moves a [] [] k k' sh' refl h refl)

abbrev pub is_fresh : Thread → Bool
is_fresh t = elim t.resume [ at_start ↦ true | in_yield _ ↦ false ]

abbrev pub in_wait : Resume → Bool
in_wait (in_yield from_wait) = true
in_wait _ = false

-- What the collector and the first switch are for.
abbrev pub is_dirty : Thread → Bool
is_dirty t = is_zombie t.state || is_fresh t

-- A spawned thread in `Wait`.
abbrev pub is_odd : Thread → Bool
is_odd t = not t.is_initial_kernel_thread && (is_waiting t.state || in_wait t.resume)

abbrev pub IsCalm : Thread → Type 0
IsCalm t = (not t.is_initial_kernel_thread && is_waiting t.state) ≡ false

-- The queue and the thread that runs, by where the kernel thread stands.
abbrev pub Place : Pc → Thread → List Thread → Type 0
Place user t q = (tally is_dirty q ≡ 0) × IsCalm t
Place (locking b from_user) t q = (tally is_dirty q ≡ 0) × IsCalm t
Place (locking b from_wait) t q =
    (tally is_dirty q ≡ 0) × (b ≡ true) × (t.is_initial_kernel_thread ≡ true)
Place (locking b from_entry) t q = tally is_dirty q ≡ 0
Place (locking b from_spawn) t q =
    (u : Thread) × (us : List Thread) × (q ≡ u ∷ us)
    × (tally is_dirty us ≡ 0)
    × (u.state ≡ ready)
    × (u.is_initial_kernel_thread ≡ false)
    × IsCalm t
Place (switching prev) t q =
    (tally is_fresh q ≡ 0)
    × (t.state ≡ running)
    × (is_fresh t ≡ true → tally is_dirty q ≡ 0)
    × ((not t.is_initial_kernel_thread && in_wait t.resume) ≡ false)
Place (collecting from_wait) t q = (tally is_fresh q ≡ 0) × (t.is_initial_kernel_thread ≡ true)
Place (collecting c) t q = (tally is_fresh q ≡ 0) × (t.state ≡ running)
Place aborted t q = ⊥

pub record IsSolo (sh : Shared) (k : Kernel) : Type 0 where
  pub even : tally is_odd sh.thread_queue ≡ 0
  pub place : Place k.pc k.current_thread sh.thread_queue

-- `GarbageCollect` leaves the threads that it should.
pub collect-dirty :
    (ts : List Thread) → tally is_fresh ts ≡ 0 → tally is_dirty (keep_others ts []) ≡ 0
unfolding tally
collect-dirty ts h = omega (
  arith,
  tally-keep_others is_dirty ts [],
  tally-le-add (λ t. is_dirty t && not (is_zombie t.state)) is_fresh (λ _. false)
      (λ t. ground arith) ts,
  tally-false ts,
)
