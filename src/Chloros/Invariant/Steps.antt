-- ===== src/Chloros/Invariant/Steps.antt =====
-- The steps of the kernel threads of lab1 against the invariant on their threads.
use mathlib.Core.Path.{subst}
use stanford_cs240_sp21_labs.Base.{All, All-map, All-middle, All-replace, Bool, List, [], arith}
use stanford_cs240_sp21_labs.Base.{false, length-append, refl, sym, true, ℕ, ◌++◌, ◌+◌, ◌<◌, ◌^◌}
use stanford_cs240_sp21_labs.Base.{◌∷◌, ◌≡◌, ◌≤◌}
use stanford_cs240_sp21_labs.Chloros.Effect.{Effect, Stands, is_id, is_initial, is_stranger, load}
use stanford_cs240_sp21_labs.Chloros.Invariant.{IsHome, IsSound, currents, length_parts}
use stanford_cs240_sp21_labs.Chloros.Invariant.{tally-whole, whole}
use stanford_cs240_sp21_labs.Chloros.Scheduler.{Kernel, Shared, initialize}
use stanford_cs240_sp21_labs.Chloros.System.{System}
use stanford_cs240_sp21_labs.Chloros.Tally.{one, tally, tally-append, tally-cons}
use stanford_cs240_sp21_labs.Chloros.Thread.{Thread, new_thread, waiting}

module _ (s : System) (before after : List Kernel) (k : Kernel)
    (e : s.kernels ≡ before ++ k ∷ after) (sh : Shared) (k' : Kernel) (v : IsSound s)
    (d : Effect s.shared k sh k') where
  abbrev moved : System
  moved = record { shared = sh; kernels = before ++ k' ∷ after }

  before_it :
      (p : Thread → Bool)
      → tally p (whole s) ≡ load p s.shared k + tally p (currents before) + tally p (currents after)
  before_it p = tally-whole p s before after k e

  after_it :
      (p : Thread → Bool)
      → tally p (whole moved) ≡ load p sh k' + tally p (currents before) + tally p (currents after)
  after_it p = tally-whole p moved before after k' refl

  keeps-IsHome : (l : Kernel) → IsHome s l → IsHome moved l
  keeps-IsHome l (drawn, alone) = (
    omega (arith, d.numbers),
    omega (
      arith,
      d.strangers l.initial_thread_id drawn,
      before_it (is_stranger l.initial_thread_id),
      after_it (is_stranger l.initial_thread_id),
    ),
  )

  moved_homes : All (IsHome moved) (before ++ k' ∷ after)
  moved_homes =
      let (x, y, z) = All-middle (IsHome s) before after k (subst (All (IsHome s)) e v.homes) in
      All-replace (IsHome moved) before after k'
        (All-map (IsHome s) (IsHome moved) before keeps-IsHome x)
        (subst (λ (i : ℕ). (i < sh.next_id) × (tally (is_stranger i) (whole moved) ≡ 0))
          (sym d.home) (keeps-IsHome k y))
        (All-map (IsHome s) (IsHome moved) after keeps-IsHome z)

  moved_stand : All Stands (before ++ k' ∷ after)
  moved_stand =
      let (x, y, z) = All-middle Stands before after k (subst (All Stands) e v.stand) in
      All-replace Stands before after k' x d.stands z

  -- What the others have, by what the kernel thread `k` does.
  pub moved-IsSound : IsSound moved
  moved-IsSound = record {
    ids = λ a.
        ground
          (arith, v.ids a, d.ids a, d.numbers, d.made_le, before_it (is_id a), after_it (is_id a));
    initials = omega (
      arith,
      v.initials,
      d.initials,
      length_parts s before after k e,
      before_it is_initial,
      after_it is_initial,
      length-append before (k' ∷ after),
    );
    fit = d.fit;
    homes = moved_homes;
    stand = moved_stand;
  }

stranger_le : (a : ℕ) (ts : List Thread) → tally (is_stranger a) ts ≤ tally (is_id a) ts
unfolding tally
stranger_le a [] = omega arith
stranger_le a (t ∷ ts) = ground (arith, stranger_le a ts)

-- The thread that `Initialize` makes.
abbrev newborn : ℕ → Thread
newborn n = record (new_thread false 0 n) { state = waiting; is_initial_kernel_thread = true }

module _ (s : System) (small : s.shared.next_id + 1 < 2 ^ 64) (v : IsSound s) where
  abbrev started : System
  started = record {
    shared = (initialize s.shared).0;
    kernels = (initialize s.shared).1 ∷ s.kernels;
  }

  tally-started :
      (p : Thread → Bool)
      → tally p (whole started) ≡ tally p (whole s) + one (p (newborn s.shared.next_id))
  unfolding initialize new_thread currents
  tally-started p = omega (
    arith,
    tally-append p s.shared.thread_queue (currents s.kernels),
    tally-append p s.shared.thread_queue (newborn s.shared.next_id ∷ currents s.kernels),
    tally-cons p (newborn s.shared.next_id) (currents s.kernels),
  )

  started_keeps : (l : Kernel) → IsHome s l → IsHome started l
  unfolding initialize new_thread
  started_keeps l (drawn, alone) =
      (omega arith, ground (arith, tally-started (is_stranger l.initial_thread_id)))

  pub started-IsSound : IsSound started
  unfolding initialize new_thread
  started-IsSound = record {
    ids = λ a. ground (arith, v.ids a, tally-started (is_id a));
    initials = ground (arith, v.initials, tally-started is_initial);
    fit = v.fit;
    homes = (
      (
        omega arith,
        ground (
          arith,
          v.ids s.shared.next_id,
          tally-started (is_stranger s.shared.next_id),
          stranger_le s.shared.next_id (whole s),
        ),
      ),
      All-map (IsHome s) (IsHome started) s.kernels started_keeps v.homes,
    );
    stand = (refl, v.stand);
  }
