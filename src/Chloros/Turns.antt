-- ===== src/Chloros/Turns.antt =====
-- Whose turn it is: `Yield`, `Spawn` and `GarbageCollect` of lab1/src/chloros.cpp on the queue.
use stanford_cs240_sp21_labs.Base.{==_iff, All, All-map, Bool, Bool-cases, List, Option, [], ap}
use stanford_cs240_sp21_labs.Base.{arith, false, inl, inr, none, not, refl, some, true, ℕ, ◌&&◌}
use stanford_cs240_sp21_labs.Base.{◌++◌, ◌+◌, ◌-◌, ◌==◌, ◌||◌, ◌↔◌, ◌∷◌, ◌≡◌, ◌≢◌, ◌⊎◌}
use stanford_cs240_sp21_labs.Chloros.Machine.{start_thread}
use stanford_cs240_sp21_labs.Chloros.Scheduler.{Kernel, Shared, context_switch, eligible}
use stanford_cs240_sp21_labs.Chloros.Scheduler.{find_next, lay_stack, left_behind, locking}
use stanford_cs240_sp21_labs.Chloros.Scheduler.{resume_at, spawn, switching, take_turn, user}
use stanford_cs240_sp21_labs.Chloros.Scheduler.{yield_locked}
use stanford_cs240_sp21_labs.Chloros.Thread.{Caller, State, Thread, from_spawn, is_ready}
use stanford_cs240_sp21_labs.Chloros.Thread.{is_waiting, k_stack_size, new_thread, ready, running}
use stanford_cs240_sp21_labs.Chloros.Thread.{waiting, zombie}

-- The threads that a kernel thread may go on with.
abbrev pub MayRun : Bool → Kernel → Thread → Type 0
MayRun only_ready k t =
    ((t.state ≡ ready) ⊎ (t.state ≡ waiting) × (only_ready ≡ false))
    × (k.current_thread.id ≡ k.initial_thread_id → t.is_initial_kernel_thread ≡ false)

state_passes :
    (s : State) (b : Bool)
    → ((is_ready s || is_waiting s && not b) ≡ true) ↔ ((s ≡ ready) ⊎ (s ≡ waiting) × (b ≡ false))
state_passes waiting true = (λ h. cc, λ h. elim h [ inl e ↦ cc | inr e ↦ cc ])
state_passes waiting false = (λ h. inr (refl, refl), λ h. refl)
state_passes ready b = (λ h. inl refl, λ h. refl)
state_passes running b = (λ h. cc, λ h. elim h [ inl e ↦ cc | inr e ↦ cc ])
state_passes zombie b = (λ h. cc, λ h. elim h [ inl e ↦ cc | inr e ↦ cc ])

home_passes : (a b : ℕ) (i : Bool) → ((not (a == b) || not i) ≡ true) ↔ (a ≡ b → i ≡ false)
home_passes a b true = (
  λ h e. ground arith,
  λ h. elim (Bool-cases (a == b)) [
    | inl e ↦ let no : true ≡ false = h ((==_iff a b).0 e) in cc
    | inr e ↦ rw e refl
  ],
)
home_passes a b false = (λ h e. refl, λ h. ground arith)

&&-true : (a b : Bool) → ((a && b) ≡ true) ↔ (a ≡ true) × (b ≡ true)
&&-true true b = (λ h. (refl, h), λ h. h.1)
&&-true false b = (λ h. cc, λ h. h.0)

pub eligible-MayRun : (b : Bool) (k : Kernel) (t : Thread) → (eligible b k t ≡ true) ↔ MayRun b k t
unfolding eligible
eligible-MayRun b k t =
    let state = state_passes t.state b in
    let home = home_passes k.current_thread.id k.initial_thread_id t.is_initial_kernel_thread in
    (
      λ h. let both = (&&-true _ _).0 h in (state.0 both.0, home.0 both.1),
      λ h. (&&-true _ _).1 (state.1 h.0, home.1 h.1),
    )

-- The threads that the loop passes over may not run.
passed_over :
    (b : Bool) (k : Kernel) (ts : List Thread)
    → All (λ t. eligible b k t ≡ false) ts
    → All (λ t. ¬ (MayRun b k t)) ts
passed_over b k ts =
    All-map (λ t. eligible b k t ≡ false) (λ t. ¬ (MayRun b k t)) ts
      λ t e may. let passes : eligible b k t ≡ true = (eligible-MayRun b k t).1 may in cc

-- What the test of the loop says of the threads it passes over, and of the one it stops at.
abbrev Stops : (Thread → Bool) → List Thread → Option (Thread × List Thread) → Type 0
Stops test ts none = All (λ t. test t ≡ false) ts
Stops test ts (some (t, us)) =
    (before : List Thread) × (after : List Thread) × (ts ≡ before ++ t ∷ after)
    × (us ≡ before ++ after)
    × All (λ u. test u ≡ false) before
    × (test t ≡ true)

find_next-Stops : (test : Thread → Bool) (ts : List Thread) → Stops test ts (find_next test ts)
unfolding find_next
find_next-Stops test [] = tt
find_next-Stops test (t ∷ ts) = elim (Bool-cases (test t)) [
  | inl e ↦ rw e ([], ts, refl, refl, tt, e)
  | inr e ↦ rw e (stops_later (find_next test ts) e (find_next-Stops test ts))
]
  where
    stops_later :
        (m : Option (Thread × List Thread))
        → test t ≡ false
        → Stops test ts m
        → Stops test (t ∷ ts) (elim m [ none ↦ none | some (u, us) ↦ some (u, t ∷ us) ])
    stops_later none e h = (e, h)
    stops_later (some (u, us)) e (before, after, p, q, skipped, stop) =
        (t ∷ before, after, ap (λ l. t ∷ l) p, ap (λ l. t ∷ l) q, (e, skipped), stop)

-- What `Yield` does, in the terms of the queue.
abbrev pub Turn : Bool → Caller → Shared → Kernel → Option (Shared × Kernel) → Type 0
Turn only_ready caller sh k none = All (λ t. ¬ (MayRun only_ready k t)) sh.thread_queue
Turn only_ready caller sh k (some (sh', k')) =
    (before : List Thread) × (after : List Thread) × (next : Thread) × (sh.thread_queue
      ≡ before ++ next ∷ after)
    × All (λ t. ¬ (MayRun only_ready k t)) before
    × MayRun only_ready k next
    × (k'.current_thread ≡ record next { state = running })
    × (sh'.thread_queue ≡ (before ++ after) ++ left_behind caller k.current_thread ∷ [])

turn_of :
    (b : Bool) (c : Caller) (sh : Shared) (k : Kernel) (m : Option (Thread × List Thread))
    → Stops (eligible b k) sh.thread_queue m
    → Turn b c sh k (take_turn c sh k m)
unfolding take_turn
turn_of b c sh k none h = passed_over b k sh.thread_queue h
turn_of b c sh k (some (t, us)) (before, after, e, rest, skipped, stop) = (
  before,
  after,
  t,
  e,
  passed_over b k before skipped,
  (eligible-MayRun b k t).0 stop,
  refl,
  rw rest refl,
)

-- `Yield` returns false only if no thread of the queue may run. Otherwise the first thread of the
-- queue that may run is taken out of it and runs, and the thread that called is put behind the others,
-- whose order stays.
pub yield_locked-Turn :
    (only_ready : Bool) (caller : Caller) (sh : Shared) (k : Kernel)
    → Turn only_ready caller sh k (yield_locked only_ready caller sh k)
unfolding yield_locked
yield_locked-Turn b c sh k = turn_of b c sh k _ (find_next-Stops (eligible b k) sh.thread_queue)

-- `Spawn` up to where `fn` starts: the kernel thread comes to run the new thread, without looking
-- at the others; the thread that called is behind them, ready if it was running. The stack pointer
-- of the new thread leads to `start_thread`, `fn` and `arg`.
pub spawn-runs :
    (start_thread fn arg base : ℕ) (sh : Shared) (k : Kernel)
    → (sh' : Shared) × (k' : Kernel) × (yield_locked true from_spawn
          (spawn start_thread fn arg base sh k).0
          (spawn start_thread fn arg base sh k).1
        ≡ some (sh', k'))
      × (sh'.thread_queue ≡ sh.thread_queue ++ left_behind from_spawn k.current_thread ∷ [])
      × (k'.current_thread.id ≡ sh.next_id)
      × (k'.current_thread.state ≡ running)
      × ((context_switch k').pc ≡ user)
      × (sh'.memory k'.current_thread.context.rsp ≡ start_thread)
      × (sh'.memory (k'.current_thread.context.rsp + 8) ≡ fn)
      × (sh'.memory (k'.current_thread.context.rsp + 16) ≡ arg)
unfolding spawn yield_locked take_turn find_next new_thread lay_stack context_switch resume_at
spawn-runs start_thread fn arg base sh k =
    let t : Thread = record (new_thread true base sh.next_id) {
      context = record (new_thread true base sh.next_id).context { rsp = base + k_stack_size - 32 };
      state = ready;
    } in
    let first : eligible true (record k { pc = locking true from_spawn }) t ≡ true =
      (eligible-MayRun true (record k { pc = locking true from_spawn }) t).1
        (inl refl, λ _. refl) in
    (
      record (spawn start_thread fn arg base sh k).0 {
        thread_queue = sh.thread_queue ++ left_behind from_spawn k.current_thread ∷ [];
      },
      record k {
        current_thread = record t { state = running };
        pc = switching k.current_thread.id;
      },
      rw first refl,
      refl,
      refl,
      refl,
      refl,
      ground arith,
      ground arith,
      ground arith,
    )

-- Where a kernel thread does not run its own initial thread, and calls `Yield` without
-- `only_ready`: an initial thread of another kernel thread that waits at the head of the queue goes
-- on on this one.
pub yield_locked-foreign :
    (caller : Caller) (sh : Shared) (k : Kernel) (t : Thread) (ts : List Thread)
    → sh.thread_queue ≡ t ∷ ts
    → k.current_thread.id ≢ k.initial_thread_id
    → t.state ≡ waiting
    → t.is_initial_kernel_thread ≡ true
    → t.id ≢ k.initial_thread_id
    → (sh' : Shared) × (k' : Kernel) × (yield_locked false caller sh k ≡ some (sh', k'))
      × (k'.current_thread.is_initial_kernel_thread ≡ true)
      × (k'.current_thread.id ≢ k'.initial_thread_id)
unfolding yield_locked take_turn find_next
yield_locked-foreign caller sh k t ts q away still initial other =
    let may : eligible false k t ≡ true =
      (eligible-MayRun false k t).1 (inr (still, refl), λ home. absurd (away home)) in
    (
      record sh { thread_queue = ts ++ left_behind caller k.current_thread ∷ [] },
      record k {
        current_thread = record t { state = running };
        pc = switching k.current_thread.id;
      },
      rw (q, may) refl,
      initial,
      other,
    )
