-- ===== src/Signal.antt =====
-- c/signal.c: signals between processes, delivered on the stack of the target.
pub mod Mask
pub mod Highest
pub mod Restore
pub mod Deliver
use bkernel.Base.{
  ℕ, ◌+◌, ◌-◌, Option, none, some, Bool, true, false, not, ◌&&◌, ◌||◌, ◌==◌, if◌then◌else◌, ltb,
  leb, is_neg, sub32, get_or, set, neg, bit_and, bit_or,
}
use bkernel.Kernel.{
  Pcb, Kernel, Image, null, proc_sz, sig_sz, ready_state, sleep_state, block_on_send_state,
  block_on_recv_state, block_on_sig_state, block_on_dev_state, sig_success, err_signal_proc_no,
  err_signal_sig_no, err_signal_handler_sig_no, err_signal_handler, err_signal_unblock_syscall, Cmd,
  ◌>>=◌, ◌>>◌, pure, get, ended, put, skip, when, load, modify, with_state, with_rc, load_word,
  store_word,
}
use bkernel.Signal.Mask.{not32, double, fill, highest, mask_rounds}
use bkernel.Disp.{get_proc, ready, Side, senders, receivers}
use bkernel.Create.{frame_size, initial_eflags}
use bkernel.Sleep.{wake_early}
use bkernel.Msg.{ipc_pid, ipc_pid_ptr, unblock}
use bkernel.Kbd.Queue.{kbd_dequeue}

abbrev pub sig_arg_size : ℕ
sig_arg_size = 20

-- `sig_no < 0 || sig_no >= SIG_SZ`
abbrev pub bad_signal : ℕ → Bool
bad_signal sig_no = is_neg sig_no || leb sig_sz sig_no

module _ (image : Image) where
  -- The arguments of `sigtramp`, a `sig_arg_t` at `base`.
  unfoldable pub push_sig_arg : ℕ → ℕ → Pcb → Cmd (Unit {0})
  push_sig_arg base sig_no r = do
    store_word base 12 r.rc
    store_word base 8 r.esp
    store_word base 4 r.esp
    store_word base 0 (get_or r.sig_table sig_no 0)
    store_word base 16 r.sig_ignore_mask

  -- The frame that the context switch starts `sigtramp` with.
  unfoldable pub push_frame : ℕ → Cmd (Unit {0})
  push_frame base = do
    store_word base 36 image.cs
    store_word base 32 image.sigtramp
    store_word base 12 base
    store_word base 8 base
    store_word base 40 initial_eflags

  unfoldable pub sigdeliver : ℕ → ℕ → Cmd ℕ
  sigdeliver pid sig_no = if bad_signal sig_no then pure err_signal_sig_no else do
    p ← get_proc pid
    if p == null then pure err_signal_proc_no else do
      r ← load p
      let args = sub32 r.esp sig_arg_size
      push_sig_arg args sig_no r
      modify p
          (λ r. record r { sig_ignore_mask = bit_and r.sig_ignore_mask (not32 (fill sig_no 1)) })
      let frame = sub32 args frame_size
      push_frame frame
      modify p (λ r. record r { esp = frame })
      pure sig_success

  unfoldable pub sighigh : ℕ → Cmd ℕ
  sighigh p = do
    r ← load p
    sig_no ← ended (highest mask_rounds r.sig_pend_mask (neg 1))
    if sig_no == neg 1 then pure err_signal_sig_no else do
      modify p (λ r. record r { sig_pend_mask = bit_and r.sig_pend_mask (not32 (double sig_no 1)) })
      sigdeliver r.pid sig_no

unfoldable pub siginstall : ℕ → ℕ → ℕ → ℕ → Cmd ℕ
siginstall p sig_no new_handler old_handler = do
  freemem ← get (λ k. k.freemem)
  if new_handler == 0
      then pure err_signal_handler
      else if bad_signal sig_no
      then pure err_signal_handler_sig_no
      else if ltb freemem new_handler
      then pure err_signal_handler
      else do
        r ← load p
        store_word old_handler 0 (get_or r.sig_table sig_no 0)
        modify p (λ r. record r {
          sig_table = set r.sig_table sig_no new_handler;
          sig_install_mask = bit_or r.sig_install_mask (double sig_no 1);
        })
        pure sig_success

-- The `switch` of `signal`: which process is taken off the queue that it is blocked on.
leave_queue : ℕ → ℕ → ℕ → ℕ → Cmd ℕ
leave_queue p state comm pid =
    if comm == null
    then pure p
    else if state == block_on_recv_state
    then (do
      pid_ptr ← load_word comm ipc_pid_ptr
      from ← load_word pid_ptr 0
      if from == 0 then pure p else do ipc ← get_proc from; unblock receivers ipc pid)
    else (do
      to ← load_word comm ipc_pid
      if to == 0 then pure p else do ipc ← get_proc to; unblock senders ipc pid)

-- The steps of `signal` that wake the target, one for each `if`. Each says which process it left
-- in the variable `p`.
wake_sleeper : ℕ → Cmd (Unit {0})
wake_sleeper p = do r ← load p; when (r.state == sleep_state) (wake_early p)

wake_reader : ℕ → Cmd (Unit {0})
wake_reader p = do
  r ← load p
  when (r.state == block_on_dev_state)
      (do kbd_dequeue; modify p (with_rc err_signal_unblock_syscall))

wake_blocked : ℕ → ℕ → Cmd ℕ
unfolding leave_queue
wake_blocked p pid = do
  r ← load p
  if r.state == block_on_recv_state || r.state == block_on_send_state
      then (do
        p ← leave_queue p r.state r.ptr pid
        modify p (with_state ready_state)
        modify p (with_rc err_signal_unblock_syscall)
        ready p
        pure p)
      else pure p

-- `p->state == READY_STATE;` is a comparison, so the state stays as it is.
wake_waiting : ℕ → ℕ → Cmd (Unit {0})
wake_waiting p sig_no = do
  r ← load p
  when (r.state == block_on_sig_state) (do modify p (with_rc sig_no); ready p)

-- `indeterminate` is what the caller reads after the `return;` that gives no value.
unfoldable pub signal : ℕ → ℕ → ℕ → Cmd ℕ
unfolding wake_sleeper wake_reader wake_blocked wake_waiting
signal indeterminate pid sig_no =
    if is_neg sig_no || leb proc_sz sig_no then pure err_signal_sig_no else do
      p ← get_proc pid
      if p == null then pure err_signal_proc_no else do
        r ← load p
        let bit_mask = bit_and (double sig_no 1) r.sig_install_mask
        if bit_mask == 0 then pure indeterminate else do
          wake_sleeper p
          wake_reader p
          p ← wake_blocked p pid
          wake_waiting p sig_no
          modify p (λ r. record r { sig_pend_mask = bit_or r.sig_pend_mask bit_mask })
          pure sig_success

-- The mask that `sigcease` restores.
unfoldable pub ceased_mask : ℕ → ℕ → ℕ → ℕ
ceased_mask ignore sig_no oim = bit_or ignore (sub32 (fill sig_no 1) (not32 oim))

unfoldable pub sigcease : ℕ → ℕ → Cmd (Unit {0})
sigcease p oim = do
  r ← load p
  sig_no ← ended (highest mask_rounds (not32 r.sig_ignore_mask) (neg 1))
  if sig_no == neg 1
      then skip
      else modify p (λ r. record r { sig_ignore_mask = ceased_mask r.sig_ignore_mask sig_no oim })
