-- ===== src/Chloros/Switch.antt =====
-- The switch between two threads of lab1, in registers and memory.
use stanford_cs240_sp21_labs.Base.{ap, arith, inl, inr, refl, ℕ, ◌%◌, ◌+◌, ◌-◌, ◌<◌, ◌^◌, ◌∙◌}
use stanford_cs240_sp21_labs.Base.{◌≡◌, ◌≤◌, ◌⊎◌}
use stanford_cs240_sp21_labs.Chloros.Machine.{Cpu, load_context, push, ret, save_context}
use stanford_cs240_sp21_labs.Chloros.Machine.{start_thread, switch_registers}
use stanford_cs240_sp21_labs.Chloros.Scheduler.{lay_stack}
use stanford_cs240_sp21_labs.Chloros.Thread.{Context, k_stack_size}

-- Two contexts of 64 bytes that share no byte.
abbrev pub Apart : ℕ → ℕ → Type 0
Apart a b = (a + 0x40 ≤ b) ⊎ (b + 0x40 ≤ a)

-- An address outside a context.
abbrev pub Outside : ℕ → ℕ → Type 0
Outside x a = (x < a) ⊎ (a + 0x40 ≤ x)

-- A context is stored in its own bytes.
save_context-other :
    (a : ℕ) (r : Context) (m : ℕ → ℕ) (x : ℕ) → Outside x a → save_context a r m x ≡ m x
unfolding save_context
save_context-other a r m x h = ground arith

-- What is stored is what is loaded.
load_save :
    (a : ℕ) (r : Context) (m : ℕ → ℕ)
    → load_context a (save_context a r m) ≡ record r { x87 = r.x87 % 2 ^ 16 }
unfolding load_context save_context
load_save a r m = ground arith

-- Two memories agree on the bytes of a context.
abbrev pub SameContext : ℕ → (ℕ → ℕ) → (ℕ → ℕ) → Type 0
SameContext a m m' = (x : ℕ) → a ≤ x → x < a + 0x40 → m x ≡ m' x

load_same : (a : ℕ) (m m' : ℕ → ℕ) → SameContext a m m' → load_context a m ≡ load_context a m'
unfolding load_context
load_same a m m' h = ground (
  arith,
  h a,
  h (a + 8),
  h (a + 0x10),
  h (a + 0x18),
  h (a + 0x20),
  h (a + 0x28),
  h (a + 0x30),
  h (a + 0x38),
  h (a + 0x3c),
)

within_one : {a b x : ℕ} → Apart a b → b ≤ x → x < b + 0x40 → Outside x a
within_one (inl h) low high = inr (omega arith)
within_one (inr h) low high = inl (omega arith)

-- A switch away from the thread with its context at `a`, and any later switch back to it: if the
-- context and the return address have not been written between the two, and the contexts are apart,
-- then `context_switch` returns to its caller with the saved registers, the stack pointer and the
-- control words that the thread had, of the x87 control word the 16 bits that it has.
pub switch_registers-back :
    (c d : Cpu)
    → Outside c.saved.rsp c.rdi
    → SameContext c.rdi d.memory (switch_registers c).memory
    → d.memory c.saved.rsp ≡ (switch_registers c).memory c.saved.rsp
    → d.rsi ≡ c.rdi
    → Apart d.rdi c.rdi
    → Outside c.saved.rsp d.rdi
    → ((switch_registers d).rip ≡ c.memory c.saved.rsp)
      × ((switch_registers d).saved
          ≡ record c.saved { rsp = c.saved.rsp + 8; x87 = c.saved.x87 % 2 ^ 16 })
unfolding switch_registers ret
switch_registers-back c d own same kept back apart clear =
    let m = save_context d.rdi d.saved d.memory in
    let agree : SameContext c.rdi m (switch_registers c).memory = λ x low high.
      save_context-other d.rdi d.saved d.memory x (within_one apart low high) ∙ same x low high in
    let loaded : load_context d.rsi m ≡ record c.saved { x87 = c.saved.x87 % 2 ^ 16 } =
      rw back
        (load_same c.rdi m (switch_registers c).memory agree ∙ load_save c.rdi c.saved c.memory) in
    (
      ap (λ (r : Context). m r.rsp) loaded
          ∙ save_context-other d.rdi d.saved d.memory c.saved.rsp clear
          ∙ kept
          ∙ save_context-other c.rdi c.saved c.memory c.saved.rsp own,
      ap (λ (r : Context). record r { rsp = r.rsp + 8 }) loaded,
    )

-- `Spawn` lays the stack of a thread whose block is on a bound of 16 bytes, and a kernel thread
-- switches to it, where the stack pointer in its context and the bytes of the block are as they
-- were, and both are apart from the context that is saved: then `start_thread` runs, and calls `thread_entry` with `fn` and `arg`, with
-- the return address on top of the stack, which is on a bound of 16 bytes but for that address,
-- and within the block.
pub start_thread-entry :
    (c : Cpu) (base fn arg code entry back : ℕ) (memory : ℕ → ℕ)
    → base % 16 ≡ 0
    → Apart c.rdi c.rsi
    → c.rdi + 0x40 ≤ base ⊎ base + k_stack_size ≤ c.rdi
    → c.memory c.rsi ≡ (lay_stack (base + k_stack_size) fn arg code memory).1
    → ((x : ℕ)
        → base ≤ x
        → x < base + k_stack_size
        → c.memory x ≡ (lay_stack (base + k_stack_size) fn arg code memory).0 x)
    → let c' = switch_registers c in
      let c'' = start_thread entry back c' in
      (c'.rip ≡ code)
      × (c''.rip ≡ entry)
      × (c''.rdi ≡ fn)
      × (c''.rsi ≡ arg)
      × (c''.memory c''.saved.rsp ≡ back)
      × ((c''.saved.rsp + 8) % 16 ≡ 0)
      × (base ≤ c''.saved.rsp)
unfolding switch_registers start_thread ret push lay_stack
start_thread-entry c base fn arg code entry back memory even apart away top laid =
    let m = save_context c.rdi c.saved c.memory in
    let rsp : m c.rsi ≡ base + k_stack_size - 32 =
      save_context-other c.rdi c.saved c.memory c.rsi (within_one apart (omega arith) (omega arith))
      ∙ top in
    let outside : (x : ℕ) → base ≤ x → x < base + k_stack_size → Outside x c.rdi =
      λ x low high. elim away [ inl h ↦ inr (omega arith) | inr h ↦ inl (omega arith) ] in
    let word : (x : ℕ)
        → base ≤ x
        → x < base + k_stack_size
        → m x ≡ (lay_stack (base + k_stack_size) fn arg code memory).0 x =
      λ x low high.
        save_context-other c.rdi c.saved c.memory x (outside x low high) ∙ laid x low high in
    let start : m (base + k_stack_size - 32) ≡ code =
      word (base + k_stack_size - 32) (omega arith) (omega arith) ∙ ground arith in
    let first : m (base + k_stack_size - 24) ≡ fn =
      word (base + k_stack_size - 24) (omega arith) (omega arith) ∙ ground arith in
    let second : m (base + k_stack_size - 16) ≡ arg =
      word (base + k_stack_size - 16) (omega arith) (omega arith) ∙ ground arith in
    rw rsp (start, refl, ground arith, ground arith, ground arith, omega arith, omega arith)
