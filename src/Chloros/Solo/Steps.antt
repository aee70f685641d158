-- ===== src/Chloros/Solo/Steps.antt =====
-- Every step of a kernel thread of lab1 that is alone, with its state before and behind it.
use mathlib.Core.Path.{subst}
use stanford_cs240_sp21_labs.Base.{Bool, List, Option, [], ap, arith, false, if◌then◌else◌, inl}
use stanford_cs240_sp21_labs.Base.{none, not, refl, some, sym, true, ℕ, ◌&&◌, ◌++◌, ◌∙◌, ◌∷◌, ◌≡◌}
use stanford_cs240_sp21_labs.Chloros.Advance.{HasNext}
use stanford_cs240_sp21_labs.Chloros.Effect.{Stands, StandsAt, kept_le}
use stanford_cs240_sp21_labs.Chloros.Machine.{start_thread}
use stanford_cs240_sp21_labs.Chloros.Scheduler.{Kernel, Pc, Shared, aborted, collecting}
use stanford_cs240_sp21_labs.Chloros.Scheduler.{context_switch, eligible, find_next}
use stanford_cs240_sp21_labs.Chloros.Scheduler.{garbage_collect, keep_others, lay_stack}
use stanford_cs240_sp21_labs.Chloros.Scheduler.{leave_entry, leave_state, left_behind, locking}
use stanford_cs240_sp21_labs.Chloros.Scheduler.{resume_at, return_to, spawn, switching, take_turn}
use stanford_cs240_sp21_labs.Chloros.Scheduler.{user, wait_again, yield_locked}
use stanford_cs240_sp21_labs.Chloros.Solo.{Allowed, IsCalm, IsSolo, Place, collect-dirty, in_wait}
use stanford_cs240_sp21_labs.Chloros.Solo.{is_dirty, is_odd}
use stanford_cs240_sp21_labs.Chloros.Solo.Place.{clean-IsSolo, fresh_le, left_even, taken-IsSolo}
use stanford_cs240_sp21_labs.Chloros.System.{Action, act, advance, advance_at, after_yield, ends}
use stanford_cs240_sp21_labs.Chloros.System.{spawns, waits, yields}
use stanford_cs240_sp21_labs.Chloros.Tally.{Taken, find_next-Taken, tally, tally-cons, tally-snoc}
use stanford_cs240_sp21_labs.Chloros.Thread.{Caller, Resume, State, Thread, at_start, from_entry}
use stanford_cs240_sp21_labs.Chloros.Thread.{from_spawn, from_user, from_wait, in_yield}
use stanford_cs240_sp21_labs.Chloros.Thread.{is_zombie, new_thread, ready, running, waiting}
use stanford_cs240_sp21_labs.Chloros.Thread.{zombie}
use stanford_cs240_sp21_labs.Chloros.Turns.{eligible-MayRun}

abbrev pub Kept : Option (Shared × Kernel) → Type 0
Kept none = Unit
Kept (some (sh, k)) = IsSolo sh k

-- The first thread of the queue is taken, if it passes the test.
found_first :
    (test : Thread → Bool) (u : Thread) (us : List Thread)
    → test u ≡ true
    → find_next test (u ∷ us) ≡ some (u, us)
unfolding find_next
found_first test u us h = rw h refl

left_clean :
    (us : List Thread) (t : Thread)
    → tally is_dirty us ≡ 0
    → is_zombie t.state ≡ false
    → tally is_dirty (us ++ left_behind from_spawn t ∷ []) ≡ 0
left_clean us t clean alive =
    ground (arith, tally-snoc is_dirty us (left_behind from_spawn t), lives t.state alive)
  where
    lives : (s : State) → is_zombie s ≡ false → is_zombie (leave_state s) ≡ false
    lives waiting h = refl
    lives ready h = refl
    lives running h = refl
    lives zombie h = h

-- A thread that runs is not waiting.
running-IsCalm : (t : Thread) → t.state ≡ running → IsCalm t
running-IsCalm t h = rw h (no_case t.is_initial_kernel_thread)
  where
    no_case : (i : Bool) → (not i && false) ≡ false
    no_case true = refl
    no_case false = refl

-- A thread in `Wait` is initial.
home_of : (i : Bool) → (not i && true) ≡ false → i ≡ true
home_of true h = refl
home_of false h = cc

kept_even : (ts : List Thread) → tally is_odd ts ≡ 0 → tally is_odd (keep_others ts []) ≡ 0
kept_even ts h = omega (arith, kept_le is_odd ts)

locked-Kept :
    (b : Bool) (c : Caller) (sh : Shared) (k : Kernel) (m : Option (Thread × List Thread))
    → find_next (eligible b k) sh.thread_queue ≡ m
    → Taken (eligible b k) sh.thread_queue m
    → tally is_odd sh.thread_queue ≡ 0
    → Place (locking b c) k.current_thread sh.thread_queue
    → StandsAt (locking b c) k.current_thread
    → HasNext sh k (locking b c)
    → Kept (after_yield c sh k (take_turn c sh k m))
unfolding after_yield take_turn return_to
locked-Kept b from_user sh k none e taken even place stands next = record {
  even = even;
  place = place;
}
locked-Kept b from_user sh k (some (t, us)) e (_, counts) even (clean, calm) stands next =
    clean-IsSolo from_user sh k t us even counts
      (left_even from_user k.current_thread calm (λ q. cc)) clean
locked-Kept b from_wait sh k none e taken even (clean, _, initial) stands next = record {
  even = even;
  place = (clean, rw initial refl);
}
locked-Kept b from_wait sh k (some (t, us)) e (_, counts) even (clean, _, initial) stands next =
    clean-IsSolo from_wait sh k t us even counts
      (left_even from_wait k.current_thread (rw initial refl) (λ _. initial)) clean
locked-Kept b from_entry sh k none e taken even place stands next = absurd (next e)
locked-Kept b from_entry sh k (some (t, us)) e (_, counts) even clean (_, dead, _) next =
    clean-IsSolo from_entry sh k t us even counts
      (left_even from_entry k.current_thread (ground arith) (λ q. cc)) clean
locked-Kept b from_spawn sh k m e taken even (u, us, q, clean, is, spawned, calm) stands next =
    let first : eligible b k u ≡ true = (eligible-MayRun b k u).1 (inl is, λ _. spawned) in
    let found : m ≡ some (u, us) =
      sym e ∙ ap (find_next (eligible b k)) q ∙ found_first (eligible b k) u us first in
    subst
      (λ (r : Option (Thread × List Thread)).
        Kept (after_yield from_spawn sh k (take_turn from_spawn sh k r)))
      (sym found)
      (taken-IsSolo from_spawn sh k u us even (λ p. ap (tally p) q ∙ tally-cons p u us)
        (left_even from_spawn k.current_thread calm (λ w. cc)) (omega (arith, fresh_le us))
        (λ _. left_clean us k.current_thread clean stands))

switch-Kept :
    (r : Resume) (prev : ℕ) (sh : Shared) (k : Kernel)
    → k.current_thread.resume ≡ r
    → tally is_odd sh.thread_queue ≡ 0
    → Place (switching prev) k.current_thread sh.thread_queue
    → IsSolo sh (resume_at r k)
unfolding resume_at
switch-Kept at_start prev sh k e even (fresh, runs, clean, home) = record {
  even = even;
  place = (clean (rw e refl), running-IsCalm k.current_thread runs);
}
switch-Kept (in_yield from_wait) prev sh k e even (fresh, runs, clean, home) = record {
  even = even;
  place = (
    fresh,
    home_of k.current_thread.is_initial_kernel_thread (
        subst (λ (r : Resume). (not k.current_thread.is_initial_kernel_thread && in_wait r) ≡ false)
          e home),
  );
}
switch-Kept (in_yield from_user) prev sh k e even (fresh, runs, clean, home) = record {
  even = even;
  place = (fresh, runs);
}
switch-Kept (in_yield from_spawn) prev sh k e even (fresh, runs, clean, home) = record {
  even = even;
  place = (fresh, runs);
}
switch-Kept (in_yield from_entry) prev sh k e even (fresh, runs, clean, home) = record {
  even = even;
  place = (fresh, runs);
}

collect-Kept :
    (c : Caller) (sh : Shared) (k : Kernel)
    → tally is_odd sh.thread_queue ≡ 0
    → Place (collecting c) k.current_thread sh.thread_queue
    → StandsAt (collecting c) k.current_thread
    → IsSolo (garbage_collect sh) (return_to c true k)
unfolding return_to garbage_collect wait_again
collect-Kept from_user sh k even (fresh, runs) stands = record {
  even = kept_even sh.thread_queue even;
  place = (collect-dirty sh.thread_queue fresh, running-IsCalm k.current_thread runs);
}
collect-Kept from_spawn sh k even (fresh, runs) stands = record {
  even = kept_even sh.thread_queue even;
  place = (collect-dirty sh.thread_queue fresh, running-IsCalm k.current_thread runs);
}
collect-Kept from_wait sh k even (fresh, home) stands = record {
  even = kept_even sh.thread_queue even;
  place = (collect-dirty sh.thread_queue fresh, refl, home);
}
collect-Kept from_entry sh k even (fresh, runs) stands = absurd stands

ends-Kept :
    (i : Bool) (sh : Shared) (k : Kernel)
    → tally is_odd sh.thread_queue ≡ 0
    → tally is_dirty sh.thread_queue ≡ 0
    → Kept (if i then none else some (sh, leave_entry k))
unfolding leave_entry
ends-Kept true sh k even clean = tt
ends-Kept false sh k even clean = record { even = even; place = clean }

act-Kept :
    (start_thread : ℕ) (a : Action) (sh : Shared) (k : Kernel)
    → Allowed a k
    → tally is_odd sh.thread_queue ≡ 0
    → Place user k.current_thread sh.thread_queue
    → Kept (act start_thread a sh k)
unfolding act spawn new_thread lay_stack wait_again leave_entry tally
act-Kept start_thread (spawns fn arg base) sh k may even (clean, calm) = record {
  even = omega arith;
  place = (_, sh.thread_queue, refl, clean, refl, refl, calm);
}
act-Kept start_thread (yields b) sh k may even (clean, calm) = record {
  even = even;
  place = (clean, calm);
}
act-Kept start_thread waits sh k may even (clean, calm) = record {
  even = even;
  place = (clean, refl, may);
}
act-Kept start_thread ends sh k may even (clean, calm) =
    ends-Kept k.current_thread.is_initial_kernel_thread sh k even clean

advance-Kept :
    (start_thread : ℕ) (pc : Pc) (a : Action) (sh : Shared) (k : Kernel)
    → k.pc ≡ pc
    → Allowed a k
    → tally is_odd sh.thread_queue ≡ 0
    → Place pc k.current_thread sh.thread_queue
    → StandsAt pc k.current_thread
    → HasNext sh k pc
    → Kept (advance_at start_thread pc a sh k)
unfolding advance_at yield_locked context_switch
advance-Kept start_thread user a sh k at may even place stands next =
    act-Kept start_thread a sh k may even place
advance-Kept start_thread (locking b c) a sh k at may even place stands next =
    locked-Kept b c sh k _ refl (find_next-Taken (eligible b k) sh.thread_queue) even place stands
      next
advance-Kept start_thread (switching prev) a sh k at may even place stands next =
    switch-Kept k.current_thread.resume prev sh k refl even place
advance-Kept start_thread (collecting c) a sh k at may even place stands next =
    collect-Kept c sh k even place stands
advance-Kept start_thread aborted a sh k at may even place stands next = absurd place

pub advance-IsSolo :
    (start_thread : ℕ) (a : Action) (sh sh' : Shared) (k k' : Kernel)
    → Allowed a k
    → IsSolo sh k
    → Stands k
    → HasNext sh k k.pc
    → advance start_thread a sh k ≡ some (sh', k')
    → IsSolo sh' k'
unfolding advance
advance-IsSolo start_thread a sh sh' k k' may v stands next h =
    subst Kept h (advance-Kept start_thread k.pc a sh k refl may v.even v.place stands next)
