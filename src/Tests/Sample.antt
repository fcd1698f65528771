-- ===== src/Tests/Sample.antt =====
-- A small kernel state that the examples share: the idle process and process 2 are ready, process 3
-- sleeps, process 4 runs with process 5 blocked on it, and the slots 6 and 7 are stopped.
use bkernel.Base.{ℕ, ◌+◌, refl, [], ◌∷◌, false, replicate, neg, arith}
use bkernel.Kernel.{Pcb, Kernel, Image, invalid_pid, idle_proc_pid, sig_sz, fd_sz, sig_on, update}
use bkernel.Queue.Chain.{nil, cons}
use bkernel.Queue.Valid.{IsQueue}

abbrev pub blank : Pcb
blank = record {
  pid = invalid_pid;
  state = 1;
  esp = 0x8000;
  mem = 0;
  args = 0;
  rc = 0;
  sig_table = replicate sig_sz 0;
  sig_pend_mask = 0;
  sig_install_mask = 0;
  sig_ignore_mask = sig_on;
  delta_slice = 0;
  ptr = 0;
  fd_table = replicate fd_sz (neg 1);
  blocked_senders = 0;
  blocked_receivers = 0;
  next = 0;
}

abbrev pub table : ℕ → Pcb
table =
    update
      (update
        (update
          (update
            (update (update (λ a. blank) 1 (record blank { pid = idle_proc_pid; next = 2 })) 2
              (record blank { pid = 2 }))
            3 (record blank { pid = 3; delta_slice = 100 }))
          4 (record blank { pid = 4; delta_slice = 10; blocked_senders = 5 }))
        5 (record blank { pid = 5 }))
      6 (record blank { next = 7 })

abbrev pub kernel : Kernel
kernel = record {
  proc = table;
  ready_q = 1;
  stop_q = 6;
  sleep_q = 3;
  kbd_q = 0;
  slice_elapsed = 50;
  min_pid = 2;
  max_pid = 5;
  next_pid = 6;
  freemem = 0x10000;
  mem_slot = 0;
  word = λ a. 0;
  byte = λ a. 0;
  dev_table = record { dvowner = 0; dvnum = 0 } ∷ record { dvowner = 0; dvnum = 1 } ∷ [];
  kbd = record {
    kbd_buf = replicate 5 0;
    kbd_buf_i = 0;
    kbd_eof = 4;
    kbd_free = 4;
    kbd_echo_flag = false;
    kbd_eof_flag = false;
    kbd_irq = false;
  };
  scan = record {
    inctl = false;
    inshift = false;
    capslock = false;
    inmeta = false;
    extended = false;
  };
  console = [];
}

abbrev pub image : Image
image = record {
  cs = 8;
  sysstop = 0x500;
  idleproc = 0x600;
  root = 0x700;
  sigtramp = 0x800;
  send_pid = 0x900;
  dev_addr = λ i. 0x1000 + i;
  indeterminate = 0;
  strncpy = λ dst src n. src;
  sprintf = λ m dst src. update m dst (m src);
  strncpy_empty = λ m dst n. update m dst 0;
  strcat = λ m dst s. m;
  strncat = λ m dst s n. m;
}

pub ready-IsQueue : IsQueue kernel.proc kernel.ready_q (1 ∷ 2 ∷ [])
ready-IsQueue = record {
  chain = cons refl (omega arith) (cons refl (omega arith) (nil refl));
  distinct = omega arith;
  slots = omega arith;
}

pub stop-IsQueue : IsQueue kernel.proc kernel.stop_q (6 ∷ 7 ∷ [])
stop-IsQueue = record {
  chain = cons refl (omega arith) (cons refl (omega arith) (nil refl));
  distinct = omega arith;
  slots = omega arith;
}

pub senders-IsQueue : IsQueue kernel.proc 5 (5 ∷ [])
senders-IsQueue = record {
  chain = cons refl (omega arith) (nil refl);
  distinct = omega arith;
  slots = omega arith;
}
