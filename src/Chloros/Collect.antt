-- ===== src/Chloros/Collect.antt =====
-- `GarbageCollect` and `GetThreadCount` of lab1/src/chloros.cpp against the list of the threads
-- that have not ended.
use mathlib.Core.List.{append-nil, append_assoc, filter}
use mathlib.Core.Logic.{if_neg, if_pos}
use stanford_cs240_sp21_labs.Base.{Bool, Bool-cases, List, [], arith, inl, inr, not, refl, sym}
use stanford_cs240_sp21_labs.Base.{true, ℕ, ◌&&◌, ◌++◌, ◌+◌, ◌↔◌, ◌∙◌, ◌∷◌, ◌≡◌}
use stanford_cs240_sp21_labs.Chloros.Scheduler.{Shared, count_loop, garbage_collect}
use stanford_cs240_sp21_labs.Chloros.Scheduler.{get_thread_count, keep_others}
use stanford_cs240_sp21_labs.Chloros.Tally.{tally, tally-keep_others}
use stanford_cs240_sp21_labs.Chloros.Thread.{State, Thread, is_zombie, ready, running, waiting}
use stanford_cs240_sp21_labs.Chloros.Thread.{zombie}

State-discrete : Discrete State
State-discrete = hlevel

pub unfinished : (t : Thread) → Dec (¬ (t.state ≡ zombie))
unfinished t = elim (State-discrete t.state zombie) [
  | yes e ↦ no (λ other. other e)
  | no other ↦ yes other
]

abbrev is_alive : Thread → Bool
is_alive t = not (is_zombie t.state)

abbrev is_dead : Thread → Bool
is_dead t = is_zombie t.state

zombie_iff : (s : State) → (is_zombie s ≡ true) ↔ (s ≡ zombie)
zombie_iff waiting = (λ h. cc, λ h. cc)
zombie_iff ready = (λ h. cc, λ h. cc)
zombie_iff running = (λ h. cc, λ h. cc)
zombie_iff zombie = (λ h. refl, λ h. refl)

keep_others-filter : (ts us : List Thread) → keep_others ts us ≡ us ++ filter unfinished ts
unfolding keep_others unfinished
keep_others-filter [] us = sym (append-nil us)
keep_others-filter (t ∷ ts) us = elim (Bool-cases (is_zombie t.state)) [
  | inl e ↦
      rw (e, if_neg (unfinished t) (λ no. no ((zombie_iff t.state).0 e))) (keep_others-filter ts us)
  | inr e ↦
      rw
        (
          e,
          if_pos (unfinished t)
              (λ is. let dead : is_zombie t.state ≡ true = (zombie_iff t.state).1 is in cc),
        )
        (keep_others-filter ts (us ++ t ∷ []) ∙ append_assoc us (t ∷ []) (filter unfinished ts))
]

count_loop-tally :
    (ts : List Thread) (live dead : ℕ)
    → count_loop ts live dead ≡ (live + tally is_alive ts, dead + tally is_dead ts)
unfolding count_loop tally
count_loop-tally [] live dead = ground arith
count_loop-tally (t ∷ ts) live dead = elim (Bool-cases (is_zombie t.state)) [
  | inl e ↦ rw e (ground (arith, count_loop-tally ts live (dead + 1)))
  | inr e ↦ rw e (ground (arith, count_loop-tally ts (live + 1) dead))
]

no_dead : (ts : List Thread) → tally (λ t. is_dead t && not (is_zombie t.state)) ts ≡ 0
unfolding tally
no_dead [] = refl
no_dead (t ∷ ts) = ground (arith, no_dead ts)

all_alive :
    (ts : List Thread) → tally (λ t. is_alive t && not (is_zombie t.state)) ts ≡ tally is_alive ts
unfolding tally
all_alive [] = refl
all_alive (t ∷ ts) = ground (arith, all_alive ts)

-- The collector leaves the threads that have not ended, in their order, and no others; then the
-- count is that of before for the threads that have not ended, and 0 for those that have.
pub garbage_collect-filter :
    (sh : Shared)
    → ((garbage_collect sh).thread_queue ≡ filter unfinished sh.thread_queue)
      × (get_thread_count (garbage_collect sh) ≡ ((get_thread_count sh).0, 0))
unfolding garbage_collect get_thread_count tally
garbage_collect-filter sh = (
  keep_others-filter sh.thread_queue [],
  rw (count_loop-tally (keep_others sh.thread_queue []) 0 0, count_loop-tally sh.thread_queue 0 0)
      (ground (
        arith,
        tally-keep_others is_alive sh.thread_queue [],
        all_alive sh.thread_queue,
        tally-keep_others is_dead sh.thread_queue [],
        no_dead sh.thread_queue,
      )),
)
