-- ===== src/Chloros/Thread.antt =====
-- lab1/include/chloros.h, and the constructor `Thread::Thread` of lab1/src/chloros.cpp.
use stanford_cs240_sp21_labs.Base.{Bool, false, if◌then◌else◌, true, ℕ, ◌+◌, ◌^◌}

-- `Thread::State`.
pub data State : Type 0 where
  waiting : State
  ready : State
  running : State
  zombie : State

-- The registers that `context_switch` saves.
pub record Context : Type 0 where
  pub rsp : ℕ
  pub r15 : ℕ
  pub r14 : ℕ
  pub r13 : ℕ
  pub r12 : ℕ
  pub rbx : ℕ
  pub rbp : ℕ
  pub mxcsr : ℕ
  pub x87 : ℕ

-- The function whose frame on a thread's stack has called `Yield`.
pub data Caller : Type 0 where
  from_user : Caller
  from_spawn : Caller
  from_wait : Caller
  from_entry : Caller

-- What the top of the stack of a thread that does not run returns to: `start_thread`, or the rest
-- of `Yield` below its caller.
pub data Resume : Type 0 where
  at_start : Resume
  in_yield : Caller → Resume

pub record Thread : Type 0 where
  pub id : ℕ
  pub state : State
  pub context : Context
  pub stack : ℕ
  pub is_initial_kernel_thread : Bool
  pub resume : Resume

-- 2 MB.
abbrev pub k_stack_size : ℕ
k_stack_size = 2 ^ 21

abbrev zeroed : Context
zeroed = record {
  rsp = 0;
  r15 = 0;
  r14 = 0;
  r13 = 0;
  r12 = 0;
  rbx = 0;
  rbp = 0;
  mxcsr = 0x1f80;
  x87 = 0x37f;
}

-- The constructor, with the number it draws and the block that `aligned_alloc` gives.
unfoldable pub new_thread : Bool → ℕ → ℕ → Thread
new_thread create_stack base next_id = record {
  id = next_id;
  state = waiting;
  context = zeroed;
  stack = if create_stack then base + k_stack_size else 0;
  is_initial_kernel_thread = false;
  resume = at_start;
}

-- The state tests of `Yield` and of the collector.
abbrev pub is_ready : State → Bool
is_ready ready = true
is_ready _ = false

abbrev pub is_waiting : State → Bool
is_waiting waiting = true
is_waiting _ = false

abbrev pub is_running : State → Bool
is_running running = true
is_running _ = false

abbrev pub is_zombie : State → Bool
is_zombie zombie = true
is_zombie _ = false
