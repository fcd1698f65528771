-- ===== src/Ctsw.antt =====
-- c/ctsw.c behind its assembly: what a trap leaves in the registers, and what the C code does with it.
use bkernel.Base.{ℕ, not, ◌==◌, if◌then◌else◌}
use bkernel.Kernel.{Pcb, Cmd, ◌>>◌, pure, when, modify, with_rc}

-- The static variables that the assembly fills when a trap enters the kernel, and the ports of the
-- keyboard.
pub record Trap : Type 0 where
  pub esp : ℕ
  pub rc : ℕ
  pub interrupt : ℕ
  pub args : ℕ
  pub port_status : ℕ
  pub port_code : ℕ

abbrev pub with_args : ℕ → Pcb → Pcb
with_args a r = record r { args = a }

abbrev pub with_esp : ℕ → Pcb → Pcb
with_esp a r = record r { esp = a }

-- `contextswitch(p)`: the process has run, and the trap is the one that ended its run.
unfoldable pub context_switch : ℕ → Trap → Cmd ℕ
context_switch p t = do
  when (not (t.interrupt == 0)) (modify p (with_rc t.rc))
  when (not (t.args == 0)) (modify p (with_args t.args))
  modify p (with_esp t.esp)
  pure (if t.interrupt == 0 then t.rc else t.interrupt)
