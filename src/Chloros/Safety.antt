-- ===== src/Chloros/Safety.antt =====
-- What kernel threads of lab1 never do, whatever the program calls and in whatever order they take
-- their steps.
use mathlib.Core.Path.{subst}
use stanford_cs240_sp21_labs.Base.{All, All-middle, arith}
use stanford_cs240_sp21_labs.Base.{refl, ℕ, ◌+◌, ◌<◌, ◌^◌}
use stanford_cs240_sp21_labs.Base.{◌≤◌}
use stanford_cs240_sp21_labs.Chloros.Advance.{HasNext, advance-Effect}
use stanford_cs240_sp21_labs.Chloros.Effect.{Effect, Stands}
use stanford_cs240_sp21_labs.Chloros.Invariant.{IsSound, currents, found_at, initial_in_queue}
use stanford_cs240_sp21_labs.Chloros.Invariant.Steps.{moved-IsSound, started-IsSound}
use stanford_cs240_sp21_labs.Chloros.Machine.{start_thread}
use stanford_cs240_sp21_labs.Chloros.Scheduler.{initialize}
use stanford_cs240_sp21_labs.Chloros.System.{Reach, Step, System, begin, later, moves, nothing}
use stanford_cs240_sp21_labs.Chloros.System.{starts}
use stanford_cs240_sp21_labs.Chloros.Tally.{tally}
use stanford_cs240_sp21_labs.Chloros.Thread.{Thread}

module _ (start_thread : ℕ) where
  -- One step keeps the invariant, and makes one thread at most.
  Step-IsSound :
      (s t : System)
      → s.shared.next_id + 1 < 2 ^ 64
      → IsSound s
      → Step start_thread s t
      → IsSound t × (t.shared.next_id ≤ s.shared.next_id + 1)
  unfolding initialize
  Step-IsSound s t small v (starts e) = rw e (started-IsSound s small v, omega arith)
  Step-IsSound s t small v (moves a before after k k' sh e h e') =
      let stands : Stands k = (All-middle Stands before after k (subst (All Stands) e v.stand)).1 in
      let next : HasNext s.shared k k.pc =
        found_at k.pc s.shared k stands v.fit (initial_in_queue s before after k e v) in
      let d : Effect s.shared k sh k' =
        advance-Effect start_thread a s.shared sh k k' small v.fit stands next h in
      rw e' (moved-IsSound s before after k e sh k' v d, omega (arith, d.numbers, d.made_le))

  nothing-IsSound : IsSound nothing
  unfolding tally currents
  nothing-IsSound = record {
    ids = λ a. ground arith;
    initials = refl;
    fit = refl;
    homes = tt;
    stand = tt;
  }

  pub Reach-IsSound :
      {n : ℕ} {s : System}
      → Reach start_thread n s
      → n < 2 ^ 64
      → IsSound s × (s.shared.next_id ≤ n)
  Reach-IsSound begin small = (nothing-IsSound, omega arith)
  Reach-IsSound (later {n} {s} {t} r st) small =
      let (v, drawn) = Reach-IsSound r (omega arith) in
      let (w, more) = Step-IsSound s t (omega arith) v st in (w, omega arith)
