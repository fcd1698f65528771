-- ===== src/Kernel/State.antt =====
-- The data of h/xeroskernel.h and the global variables of c/*.c as one record. A `pcb_t *` is a
-- number: 0 is NULL and i + 1 is `&proc_table[i]`. Words of memory (headers of the memory manager,
-- ipc and keyboard requests, user stacks, out-parameters) lie in `word`, by address; the bytes of
-- user strings and buffers lie in `byte`.
use bkernel.Base.{ℕ, ◌-◌, ◌^◌, Bool, List, neg}

abbrev pub null : ℕ
null = 0

-- Return codes, as bit patterns.
abbrev pub sys_err : ℕ
sys_err = neg 1

abbrev pub sys_ok : ℕ
sys_ok = 0

abbrev pub err_pid : ℕ
err_pid = neg 1

abbrev pub err_loopback : ℕ
err_loopback = neg 2

abbrev pub err_ipc : ℕ
err_ipc = neg 3

abbrev pub sig_success : ℕ
sig_success = 0

abbrev pub err_sigkill_sig_no : ℕ
err_sigkill_sig_no = neg 3

abbrev pub err_sigkill_proc_no : ℕ
err_sigkill_proc_no = neg 18

abbrev pub err_signal_proc_no : ℕ
err_signal_proc_no = neg 1

abbrev pub err_signal_sig_no : ℕ
err_signal_sig_no = neg 2

abbrev pub err_signal_handler_sig_no : ℕ
err_signal_handler_sig_no = neg 1

abbrev pub err_signal_handler : ℕ
err_signal_handler = neg 2

abbrev pub err_signal_unblock_syscall : ℕ
err_signal_unblock_syscall = neg 128

-- Process states.
abbrev pub running_state : ℕ
running_state = 0

abbrev pub ready_state : ℕ
ready_state = 1

abbrev pub sleep_state : ℕ
sleep_state = 2

abbrev pub block_on_send_state : ℕ
block_on_send_state = 3

abbrev pub block_on_recv_state : ℕ
block_on_recv_state = 4

abbrev pub block_on_sig_state : ℕ
block_on_sig_state = 5

abbrev pub block_on_dev_state : ℕ
block_on_dev_state = 6

abbrev pub stop_state : ℕ
stop_state = 7

-- Process constants.
abbrev pub invalid_pid : ℕ
invalid_pid = 1

abbrev pub min_pid_bound : ℕ
min_pid_bound = 1

abbrev pub max_pid_bound : ℕ
max_pid_bound = 65536

abbrev pub proc_sz : ℕ
proc_sz = 32

abbrev pub sig_sz : ℕ
sig_sz = 32

abbrev pub fd_sz : ℕ
fd_sz = 4

abbrev pub dev_sz : ℕ
dev_sz = 2

abbrev pub receive_any_pid : ℕ
receive_any_pid = 0

abbrev pub idle_proc_pid : ℕ
idle_proc_pid = 65536

abbrev pub proc_stack : ℕ
proc_stack = 4096

abbrev pub min_stack : ℕ
min_stack = 1024

abbrev pub sig_on : ℕ
sig_on = 2 ^ 32 - 1

abbrev pub sig_off : ℕ
sig_off = 0

abbrev pub kbd_necho : ℕ
kbd_necho = 0

abbrev pub kbd_echo : ℕ
kbd_echo = 1

abbrev pub set_eof : ℕ
set_eof = 100

-- `struct pcb`; `fd_table` holds the `dvmajor` of each entry.
pub record Pcb : Type 0 where
  pub pid : ℕ
  pub state : ℕ
  pub esp : ℕ
  pub mem : ℕ
  pub args : ℕ
  pub rc : ℕ
  pub sig_table : List ℕ
  pub sig_pend_mask : ℕ
  pub sig_install_mask : ℕ
  pub sig_ignore_mask : ℕ
  pub delta_slice : ℕ
  pub ptr : ℕ
  pub fd_table : List ℕ
  pub blocked_senders : ℕ
  pub blocked_receivers : ℕ
  pub next : ℕ

-- `struct devsw`: the fields that change. The function pointers are those of `kbd_init`.
pub record Devsw : Type 0 where
  pub dvowner : ℕ
  pub dvnum : ℕ

-- The static variables of c/kbd.c, and whether IRQ 1 is enabled.
pub record Kbd : Type 0 where
  pub kbd_buf : List ℕ
  pub kbd_buf_i : ℕ
  pub kbd_eof : ℕ
  pub kbd_free : ℕ
  pub kbd_echo_flag : Bool
  pub kbd_eof_flag : Bool
  pub kbd_irq : Bool

-- The bits of the static variable `state` of c/scanToASCII.c. No other bit is ever set.
pub record ScanState : Type 0 where
  pub inctl : Bool
  pub inshift : Bool
  pub capslock : Bool
  pub inmeta : Bool
  pub extended : Bool

-- What the kernel prints: the string at an address, a key, or the text of `kbd_error`.
pub data Output : Type 0 where
  text : ℕ → Output
  key : ℕ → Output
  unsupported : Output

pub record Kernel : Type 0 where
  pub proc : ℕ → Pcb
  pub ready_q : ℕ
  pub stop_q : ℕ
  pub sleep_q : ℕ
  pub kbd_q : ℕ
  pub slice_elapsed : ℕ
  pub min_pid : ℕ
  pub max_pid : ℕ
  pub next_pid : ℕ
  pub freemem : ℕ
  pub mem_slot : ℕ
  pub word : ℕ → ℕ
  pub byte : ℕ → ℕ
  pub dev_table : List Devsw
  pub kbd : Kbd
  pub scan : ScanState
  pub console : List Output
