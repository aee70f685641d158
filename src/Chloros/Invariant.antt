-- ===== src/Chloros/Invariant.antt =====
-- What holds of the threads and kernel threads of lab1 however these take turns.
pub mod Steps
use mathlib.Core.Path.{subst}
use stanford_cs240_sp21_labs.Base.{All, All-middle, Bool, List, [], ap, arith, false}
use stanford_cs240_sp21_labs.Base.{if◌then◌else◌, length, length-append, ltb, not, refl, ℕ, ◌&&◌}
use stanford_cs240_sp21_labs.Base.{◌++◌, ◌+◌, ◌<◌, ◌==◌, ◌||◌, ◌∷◌, ◌≡◌, ◌≢◌, ◌≤◌}
use stanford_cs240_sp21_labs.Chloros.Advance.{HasNext}
use stanford_cs240_sp21_labs.Chloros.Effect.{Stands, StandsAt, is_id, is_initial, is_leaving}
use stanford_cs240_sp21_labs.Chloros.Effect.{is_stranger, is_unfit, load}
use stanford_cs240_sp21_labs.Chloros.Scheduler.{Kernel, Pc, Shared, aborted, collecting, eligible}
use stanford_cs240_sp21_labs.Chloros.Scheduler.{locking, switching, user}
use stanford_cs240_sp21_labs.Chloros.System.{System}
use stanford_cs240_sp21_labs.Chloros.Tally.{Taken, find_next-Taken, one, tally, tally-append}
use stanford_cs240_sp21_labs.Chloros.Tally.{tally-cons, tally-le-add}
use stanford_cs240_sp21_labs.Chloros.Thread.{State, Thread, from_entry, from_spawn, from_user}
use stanford_cs240_sp21_labs.Chloros.Thread.{from_wait, is_ready, is_running, is_waiting}
use stanford_cs240_sp21_labs.Chloros.Thread.{is_zombie, ready, running, waiting, zombie}

-- The threads that the kernel threads run.
unfoldable pub currents : List Kernel → List Thread
currents [] = []
currents (k ∷ ks) = k.current_thread ∷ currents ks

-- All threads: those of the queue, and those that run.
abbrev pub whole : System → List Thread
whole s = s.shared.thread_queue ++ currents s.kernels

pub currents-append : (ks ls : List Kernel) → currents (ks ++ ls) ≡ currents ks ++ currents ls
unfolding currents
currents-append [] ls = refl
currents-append (k ∷ ks) ls = ap (λ ts. k.current_thread ∷ ts) (currents-append ks ls)

-- A kernel thread whose initial thread's number is drawn, and no other thread's.
abbrev pub IsHome : System → Kernel → Type 0
IsHome s k =
    (k.initial_thread_id < s.shared.next_id)
    × (tally (is_stranger k.initial_thread_id) (whole s) ≡ 0)

pub record IsSound (s : System) : Type 0 where
  pub ids : (a : ℕ) → tally (is_id a) (whole s) ≤ (if ltb a s.shared.next_id then 1 else 0)
  pub initials : tally is_initial (whole s) ≡ length s.kernels
  pub fit : tally is_unfit s.shared.thread_queue ≡ 0
  pub homes : All (IsHome s) s.kernels
  pub stand : All Stands s.kernels

-- The tally of a system by the parts of its list of kernel threads.
pub tally-whole :
    (p : Thread → Bool) (s : System) (before after : List Kernel) (k : Kernel)
    → s.kernels ≡ before ++ k ∷ after
    → tally p (whole s) ≡ load p s.shared k + tally p (currents before) + tally p (currents after)
unfolding currents
tally-whole p s before after k e =
    rw (e, currents-append before (k ∷ after))
      (omega (
        arith,
        tally-append p s.shared.thread_queue (currents before ++ k.current_thread ∷ currents after),
        tally-append p (currents before) (k.current_thread ∷ currents after),
        tally-cons p k.current_thread (currents after),
      ))

pub tally-initials_le : (ks : List Kernel) → tally is_initial (currents ks) ≤ length ks
unfolding currents tally
tally-initials_le [] = omega arith
tally-initials_le (k ∷ ks) = ground (arith, tally-initials_le ks)

-- Where the thread that leaves is not initial, an initial thread of the queue passes the test.
initial_passes :
    (b : Bool) (k : Kernel)
    → b ≡ false
    → k.current_thread.id ≢ k.initial_thread_id
    → (t : Thread) → one (is_initial t) ≤ one (is_unfit t) + one (eligible b k t)
unfolding eligible
initial_passes b k e other t = rw e (
    passes t.state t.is_initial_kernel_thread (is_leaving t.resume)
      (k.current_thread.id == k.initial_thread_id) (ground arith))
  where
    passes :
        (s : State) (i l h : Bool)
        → h ≡ false
        → one i
          ≤ one (is_running s || is_zombie s && i || not (is_zombie s) && l)
            + one ((is_ready s || is_waiting s && not false) && (not h || not i))
    passes waiting i l h d = ground arith
    passes ready i l h d = ground arith
    passes running i l h d = ground arith
    passes zombie i l h d = ground arith

-- A spawned thread that ends finds a thread to go on with: an initial thread waits in the queue.
pub found_at :
    (pc : Pc) (sh : Shared) (k : Kernel)
    → StandsAt pc k.current_thread
    → tally is_unfit sh.thread_queue ≡ 0
    → (k.current_thread.is_initial_kernel_thread ≡ false
        → (k.current_thread.id ≢ k.initial_thread_id) × (1 ≤ tally is_initial sh.thread_queue))
    → HasNext sh k pc
found_at user sh k stands fit left = tt
found_at (locking b from_user) sh k stands fit left = tt
found_at (locking b from_spawn) sh k stands fit left = tt
found_at (locking b from_wait) sh k stands fit left = tt
found_at (locking b from_entry) sh k (e, _, spawned) fit left = λ lost.
    let nobody : tally (eligible b k) sh.thread_queue ≡ 0 =
      subst (Taken (eligible b k) sh.thread_queue) lost
        (find_next-Taken (eligible b k) sh.thread_queue) in
    absurd (
      omega (
        arith,
        (left spawned).1,
        tally-le-add is_initial is_unfit (eligible b k) (initial_passes b k e (left spawned).0)
            sh.thread_queue,
      ))
found_at (switching prev) sh k stands fit left = tt
found_at (collecting c) sh k stands fit left = tt
found_at aborted sh k stands fit left = tt

module _ (s : System) (before after : List Kernel) (k : Kernel)
    (e : s.kernels ≡ before ++ k ∷ after) where
  pub length_parts : length s.kernels ≡ length before + length after + 1
  length_parts = rw e (omega (arith, length-append before (k ∷ after)))

  pub initial_in_queue :
      IsSound s
      → k.current_thread.is_initial_kernel_thread ≡ false
      → (k.current_thread.id ≢ k.initial_thread_id) × (1 ≤ tally is_initial s.shared.thread_queue)
  initial_in_queue v spawned = (
    λ same.
        let home = (All-middle (IsHome s) before after k (subst (All (IsHome s)) e v.homes)).1 in
        absurd (
          ground (arith, home.1, tally-whole (is_stranger k.initial_thread_id) s before after k e)),
    ground (
      arith,
      v.initials,
      length_parts,
      tally-whole is_initial s before after k e,
      tally-initials_le before,
      tally-initials_le after,
    ),
  )
