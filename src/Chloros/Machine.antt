-- ===== src/Chloros/Machine.antt =====
-- lab1/src/context_switch.S: `context_switch` and `start_thread`, on registers and a memory whose
-- cells are what one store writes.
use stanford_cs240_sp21_labs.Base.{ℕ, ◌%◌, ◌+◌, ◌-◌, ◌^◌}
use stanford_cs240_sp21_labs.Chloros.Scheduler.{write_word}
use stanford_cs240_sp21_labs.Chloros.Thread.{Context}

-- The registers that the two routines touch, and the address of the next instruction.
pub record Cpu : Type 0 where
  pub rip : ℕ
  pub rdi : ℕ
  pub rsi : ℕ
  pub saved : Context
  pub memory : ℕ → ℕ

-- The stores of `context_switch`. `fnstcw` stores the 16 bits of the control word.
unfoldable pub save_context : ℕ → Context → (ℕ → ℕ) → ℕ → ℕ
save_context a r memory = write_word (a + 0x3c) (r.x87 % 2 ^ 16) (
    write_word (a + 0x38) r.mxcsr (
      write_word (a + 0x30) r.rbp (
        write_word (a + 0x28) r.rbx (
          write_word (a + 0x20) r.r12 (
            write_word (a + 0x18) r.r13 (
              write_word (a + 0x10) r.r14
                (write_word (a + 8) r.r15 (write_word a r.rsp memory))))))))

-- The loads.
unfoldable pub load_context : ℕ → (ℕ → ℕ) → Context
load_context a memory = record {
  rsp = memory a;
  r15 = memory (a + 8);
  r14 = memory (a + 0x10);
  r13 = memory (a + 0x18);
  r12 = memory (a + 0x20);
  rbx = memory (a + 0x28);
  rbp = memory (a + 0x30);
  mxcsr = memory (a + 0x38);
  x87 = memory (a + 0x3c) % 2 ^ 16;
}

-- `ret`: to the address on the stack.
unfoldable pub ret : Cpu → Cpu
ret c = record c { rip = c.memory c.saved.rsp; saved = record c.saved { rsp = c.saved.rsp + 8 } }

unfoldable pub push : ℕ → Cpu → Cpu
push v c = record c {
  saved = record c.saved { rsp = c.saved.rsp - 8 };
  memory = write_word (c.saved.rsp - 8) v c.memory;
}

unfoldable pub switch_registers : Cpu → Cpu
unfolding save_context load_context ret
switch_registers c =
    let memory' = save_context c.rdi c.saved c.memory in
    ret (record c { saved = load_context c.rsi memory'; memory = memory' })

-- `start_thread`, up to the first instruction of `thread_entry`. `back` is the address of the
-- `hlt` behind the call.
unfoldable pub start_thread : ℕ → ℕ → Cpu → Cpu
unfolding push
start_thread thread_entry back c =
    let c1 = push c.saved.rbp c in
    let rbp = c1.saved.rsp in
    let c2 = record c1 {
      saved = record c1.saved { rbp = rbp };
      rdi = c1.memory (rbp + 8);
      rsi = c1.memory (rbp + 0x10);
    } in
    record (push back c2) { rip = thread_entry }
