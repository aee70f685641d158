-- ===== src/Chloros/Solo/Place.antt =====
-- The steps of a kernel thread of lab1 that is alone, and the places of the threads.
use stanford_cs240_sp21_labs.Base.{Bool, List, [], arith, false, not, refl, true, ◌&&◌, ◌++◌, ◌+◌}
use stanford_cs240_sp21_labs.Base.{◌||◌, ◌∷◌, ◌≡◌, ◌≤◌}
use stanford_cs240_sp21_labs.Chloros.Scheduler.{Kernel, Shared, leave_state, left_behind}
use stanford_cs240_sp21_labs.Chloros.Scheduler.{switching}
use stanford_cs240_sp21_labs.Chloros.Solo.{IsCalm, IsSolo, in_wait, is_dirty, is_fresh, is_odd}
use stanford_cs240_sp21_labs.Chloros.Tally.{one, tally, tally-snoc}
use stanford_cs240_sp21_labs.Chloros.Thread.{Caller, State, Thread, from_entry, from_spawn}
use stanford_cs240_sp21_labs.Chloros.Thread.{from_user, from_wait, in_yield, is_waiting, ready}
use stanford_cs240_sp21_labs.Chloros.Thread.{running, waiting, zombie}

pub left_even :
    (c : Caller) (t : Thread)
    → IsCalm t
    → (c ≡ from_wait → t.is_initial_kernel_thread ≡ true)
    → is_odd (left_behind c t) ≡ false
left_even c t calm initial = even_at c t.state t.is_initial_kernel_thread calm initial
  where
    even_at :
        (c : Caller) (s : State) (i : Bool)
        → (not i && is_waiting s) ≡ false
        → (c ≡ from_wait → i ≡ true)
        → (not i && (is_waiting (leave_state s) || in_wait (in_yield c))) ≡ false
    even_at c s true h w = refl
    even_at from_wait s false h w = let no : false ≡ true = w refl in cc
    even_at from_user waiting false h w = h
    even_at from_user ready false h w = refl
    even_at from_user running false h w = refl
    even_at from_user zombie false h w = refl
    even_at from_spawn waiting false h w = h
    even_at from_spawn ready false h w = refl
    even_at from_spawn running false h w = refl
    even_at from_spawn zombie false h w = refl
    even_at from_entry waiting false h w = h
    even_at from_entry ready false h w = refl
    even_at from_entry running false h w = refl
    even_at from_entry zombie false h w = refl

pub fresh_le : (ts : List Thread) → tally is_fresh ts ≤ tally is_dirty ts
unfolding tally
fresh_le [] = omega arith
fresh_le (t ∷ ts) = ground (arith, fresh_le ts)

-- `Yield` takes a thread out of an even queue.
module _ (c : Caller) (sh : Shared) (k : Kernel) (t : Thread) (us : List Thread) where
  pub taken-IsSolo :
      tally is_odd sh.thread_queue ≡ 0
      → ((p : Thread → Bool) → tally p sh.thread_queue ≡ one (p t) + tally p us)
      → is_odd (left_behind c k.current_thread) ≡ false
      → tally is_fresh us ≡ 0
      → (is_fresh t ≡ true → tally is_dirty (us ++ left_behind c k.current_thread ∷ []) ≡ 0)
      → IsSolo
          (record sh { thread_queue = us ++ left_behind c k.current_thread ∷ [] })
          (record k {
            current_thread = record t { state = running };
            pc = switching k.current_thread.id;
          })
  taken-IsSolo even counts left fresh dirty = record {
    even =
        ground (arith, counts is_odd, left, tally-snoc is_odd us (left_behind c k.current_thread));
    place = (
      omega (arith, fresh, tally-snoc is_fresh us (left_behind c k.current_thread)),
      refl,
      dirty,
      ground (arith, counts is_odd),
    );
  }

  -- The queue is clean.
  pub clean-IsSolo :
      tally is_odd sh.thread_queue ≡ 0
      → ((p : Thread → Bool) → tally p sh.thread_queue ≡ one (p t) + tally p us)
      → is_odd (left_behind c k.current_thread) ≡ false
      → tally is_dirty sh.thread_queue ≡ 0
      → IsSolo
          (record sh { thread_queue = us ++ left_behind c k.current_thread ∷ [] })
          (record k {
            current_thread = record t { state = running };
            pc = switching k.current_thread.id;
          })
  clean-IsSolo even counts left clean =
      taken-IsSolo even counts left (omega (arith, counts is_dirty, fresh_le us))
        (λ h. absurd (ground (arith, counts is_dirty)))
