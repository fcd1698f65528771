-- ===== src/Init.antt =====
-- `initproc` of c/init.c: how the kernel comes up, until it enters the dispatcher.
use bkernel.Base.{ℕ, zero, suc, ◌+◌}
use bkernel.Kernel.{Image, proc_sz, proc_stack, Cmd, ◌>>◌, skip}
use bkernel.Mem.Alloc.{kmeminit}
use bkernel.Kbd.Driver.{kbd_init}
use bkernel.Disp.{stop}
use bkernel.Create.{create}

-- `for (i = 0; i < PROC_SZ; i++) stop(&proc_table[i]);` from slot `i` on, with `n` slots to go.
stop_all : ℕ → ℕ → Cmd (Unit {0})
stop_all zero i = skip
stop_all (suc n) i = do stop (i + 1); stop_all n (i + 1)

unfoldable pub initproc : Image → Cmd (Unit {0})
unfolding stop_all
initproc image = do
  kmeminit
  kbd_init
  stop_all proc_sz 0
  create image image.idleproc proc_stack
  create image image.root proc_stack
  skip
