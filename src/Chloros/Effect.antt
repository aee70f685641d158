-- ===== src/Chloros/Effect.antt =====
-- What one step of a kernel thread does to the threads that it can reach: those of the queue, and
-- its own.
use stanford_cs240_sp21_labs.Base.{Bool, List, [], arith, false, if◌then◌else◌, not, refl, some}
use stanford_cs240_sp21_labs.Base.{true, ℕ, ◌&&◌, ◌++◌, ◌+◌, ◌<◌, ◌==◌, ◌^◌, ◌||◌, ◌∷◌, ◌≡◌, ◌≤◌}
use stanford_cs240_sp21_labs.Chloros.Scheduler.{Kernel, Pc, Shared, aborted, collecting, eligible}
use stanford_cs240_sp21_labs.Chloros.Scheduler.{garbage_collect, keep_others, lay_stack}
use stanford_cs240_sp21_labs.Chloros.Scheduler.{leave_state, left_behind, locking, spawn}
use stanford_cs240_sp21_labs.Chloros.Scheduler.{switching, user}
use stanford_cs240_sp21_labs.Chloros.Tally.{Taken, one, tally, tally-false, tally-keep_others}
use stanford_cs240_sp21_labs.Chloros.Tally.{tally-le-add, tally-snoc}
use stanford_cs240_sp21_labs.Chloros.Thread.{Caller, Resume, State, Thread, from_entry}
use stanford_cs240_sp21_labs.Chloros.Thread.{from_spawn, from_user, from_wait, in_yield, is_ready}
use stanford_cs240_sp21_labs.Chloros.Thread.{is_running, is_waiting, is_zombie, new_thread, ready}
use stanford_cs240_sp21_labs.Chloros.Thread.{running, waiting, zombie}

abbrev pub is_id : ℕ → Thread → Bool
is_id a t = t.id == a

abbrev pub is_initial : Thread → Bool
is_initial t = t.is_initial_kernel_thread

-- A thread that has a given number, and is not initial.
abbrev pub is_stranger : ℕ → Thread → Bool
is_stranger a t = t.id == a && not t.is_initial_kernel_thread

abbrev pub is_leaving : Resume → Bool
is_leaving (in_yield from_entry) = true
is_leaving _ = false

-- What no thread of the queue is: running, an initial thread at its end, or a thread that goes on
-- behind the last `Yield` of its `ThreadEntry`.
abbrev pub is_unfit : Thread → Bool
is_unfit t =
    is_running t.state
    || is_zombie t.state && t.is_initial_kernel_thread
    || not (is_zombie t.state) && is_leaving t.resume

-- What the thread of a kernel thread is, by where the kernel thread stands.
abbrev pub StandsAt : Pc → Thread → Type 0
StandsAt user t = is_zombie t.state ≡ false
StandsAt (locking only_ready from_entry) t =
    (only_ready ≡ false) × (t.state ≡ zombie) × (t.is_initial_kernel_thread ≡ false)
StandsAt (locking only_ready _) t = is_zombie t.state ≡ false
StandsAt (switching prev) t = (is_zombie t.state ≡ false) × (is_leaving t.resume ≡ false)
StandsAt (collecting from_entry) t = ⊥
StandsAt (collecting _) t = is_zombie t.state ≡ false
StandsAt aborted t = ⊥

abbrev pub Stands : Kernel → Type 0
Stands k = StandsAt k.pc k.current_thread

-- The threads with a property that a kernel thread reaches.
abbrev pub load : (Thread → Bool) → Shared → Kernel → ℕ
load p sh k = tally p sh.thread_queue + one (p k.current_thread)

pub record Effect (sh : Shared) (k : Kernel) (sh' : Shared) (k' : Kernel) : Type 0 where
  pub made : ℕ
  pub made_le : made ≤ 1
  pub numbers : sh'.next_id ≡ sh.next_id + made
  pub ids :
      (a : ℕ) → load (is_id a) sh' k' ≤ load (is_id a) sh k + (if a == sh.next_id then made else 0)
  pub strangers : (a : ℕ) → a < sh.next_id → load (is_stranger a) sh' k' ≤ load (is_stranger a) sh k
  pub initials : load is_initial sh' k' ≡ load is_initial sh k
  pub fit : tally is_unfit sh'.thread_queue ≡ 0
  pub home : k'.initial_thread_id ≡ k.initial_thread_id
  pub stands : Stands k'

module _ (start_thread : ℕ) where
  pub spawn-Effect :
      (fn arg base : ℕ) (sh : Shared) (k : Kernel)
      → sh.next_id + 1 < 2 ^ 64
      → tally is_unfit sh.thread_queue ≡ 0
      → is_zombie k.current_thread.state ≡ false
      → Effect sh k (spawn start_thread fn arg base sh k).0 (spawn start_thread fn arg base sh k).1
  unfolding spawn new_thread lay_stack tally
  spawn-Effect fn arg base sh k small fit alive = record {
    made = 1;
    made_le = omega arith;
    numbers = omega arith;
    ids = λ a. ground arith;
    strangers = λ a h. ground arith;
    initials = omega arith;
    fit = omega arith;
    home = refl;
    stands = alive;
  }

left_fit :
    (i : Bool) (s : State)
    → is_zombie s ≡ false
    → (is_running (leave_state s)
        || is_zombie (leave_state s) && i
        || not (is_zombie (leave_state s)) && false)
      ≡ false
left_fit i waiting h = refl
left_fit i ready h = refl
left_fit i running h = refl
left_fit i zombie h = cc

left_behind_fit :
    (only_ready : Bool) (c : Caller) (t : Thread)
    → StandsAt (locking only_ready c) t
    → is_unfit (left_behind c t) ≡ false
left_behind_fit b from_entry t h = ground arith
left_behind_fit b from_user t h = left_fit _ t.state h
left_behind_fit b from_spawn t h = left_fit _ t.state h
left_behind_fit b from_wait t h = left_fit _ t.state h

alive : (b : Bool) (s : State) → (is_ready s || is_waiting s && not b) ≡ true → is_zombie s ≡ false
alive b waiting h = refl
alive b ready h = refl
alive b running h = refl
alive b zombie h = cc

&&-left : (a b : Bool) → (a && b) ≡ true → a ≡ true
&&-left true b h = refl
&&-left false b h = cc

-- A thread that passes the test of `Yield` is no zombie.
eligible-alive :
    (b : Bool) (k : Kernel) (t : Thread) → eligible b k t ≡ true → is_zombie t.state ≡ false
unfolding eligible
eligible-alive b k t h = alive b t.state (&&-left _ _ h)

pub yield_locked-Effect :
    (b : Bool) (c : Caller) (sh : Shared) (k : Kernel) (t : Thread) (us : List Thread)
    → tally is_unfit sh.thread_queue ≡ 0
    → StandsAt (locking b c) k.current_thread
    → Taken (eligible b k) sh.thread_queue (some (t, us))
    → Effect sh k
        (record sh { thread_queue = us ++ left_behind c k.current_thread ∷ [] })
        (record k {
          current_thread = record t { state = running };
          pc = switching k.current_thread.id;
        })
yield_locked-Effect b c sh k t us fit stands (test, counts) = record {
  made = 0;
  made_le = omega arith;
  numbers = omega arith;
  ids = λ a.
      omega (arith, counts (is_id a), tally-snoc (is_id a) us (left_behind c k.current_thread));
  strangers = λ a h. omega (
    arith,
    counts (is_stranger a),
    tally-snoc (is_stranger a) us (left_behind c k.current_thread),
  );
  initials =
      omega (arith, counts is_initial, tally-snoc is_initial us (left_behind c k.current_thread));
  fit = ground (
    arith,
    counts is_unfit,
    tally-snoc is_unfit us (left_behind c k.current_thread),
    left_behind_fit b c k.current_thread stands,
  );
  home = refl;
  stands = (refl, ground (arith, counts is_unfit, eligible-alive b k t test));
}

-- A step that leaves the queue alone, and the thread's number and kind.
pub same_threads :
    {sh : Shared} {k k' : Kernel}
    → tally is_unfit sh.thread_queue ≡ 0
    → k'.current_thread.id ≡ k.current_thread.id
    → k'.current_thread.is_initial_kernel_thread ≡ k.current_thread.is_initial_kernel_thread
    → k'.initial_thread_id ≡ k.initial_thread_id
    → Stands k'
    → Effect sh k sh k'
same_threads {sh} {k} {k'} fit e i home stands = record {
  made = 0;
  made_le = omega arith;
  numbers = omega arith;
  ids = λ a. rw e (omega arith);
  strangers = λ a h. rw (e, i) (omega arith);
  initials = rw i refl;
  fit = fit;
  home = home;
  stands = stands;
}

pub kept_le : (p : Thread → Bool) (ts : List Thread) → tally p (keep_others ts []) ≤ tally p ts
unfolding tally
kept_le p ts = omega (
  arith,
  tally-keep_others p ts [],
  tally-le-add (λ t. p t && not (is_zombie t.state)) p (λ _. false) (λ t. ground arith) ts,
  tally-false ts,
)

-- No initial thread of a fit queue is a zombie.
kept_initials :
    (ts : List Thread)
    → tally is_unfit ts ≡ 0
    → tally is_initial (keep_others ts []) ≡ tally is_initial ts
kept_initials ts fit = omega (
  arith,
  kept_le is_initial ts,
  tally-keep_others is_initial ts [],
  tally-le-add is_initial (λ t. is_initial t && not (is_zombie t.state)) is_unfit
      (λ t. ground arith) ts,
)

-- `GarbageCollect` in a queue without unfit threads.
pub collect-Effect :
    {sh : Shared} {k k' : Kernel}
    → tally is_unfit sh.thread_queue ≡ 0
    → k'.current_thread.id ≡ k.current_thread.id
    → k'.current_thread.is_initial_kernel_thread ≡ k.current_thread.is_initial_kernel_thread
    → k'.initial_thread_id ≡ k.initial_thread_id
    → Stands k'
    → Effect sh k (garbage_collect sh) k'
unfolding garbage_collect
collect-Effect {sh} {k} {k'} fit e i home stands = record {
  made = 0;
  made_le = omega arith;
  numbers = omega arith;
  ids = λ a. rw e (omega (arith, kept_le (is_id a) sh.thread_queue));
  strangers = λ a h. rw (e, i) (omega (arith, kept_le (is_stranger a) sh.thread_queue));
  initials = rw i (omega (arith, kept_initials sh.thread_queue fit));
  fit = omega (arith, kept_le is_unfit sh.thread_queue);
  home = home;
  stands = stands;
}
