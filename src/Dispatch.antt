-- ===== src/Dispatch.antt =====
-- The dispatcher of c/disp.c: one round of its loop, with the request that the process makes when
-- the context switch of c/ctsw.c comes back to the kernel.
pub mod Rounds
pub mod Turns
pub mod Ticks
pub mod Alarms
pub mod Interrupt
pub mod Layout
pub mod Slices
pub mod Rings
pub mod Service
pub mod Nap
pub mod System
pub mod Loop
use bkernel.Base.{
  ℕ, ◌%◌, Bool, true, false, not, ◌&&◌, ◌==◌, if◌then◌else◌, ltb, [], ◌∷◌, ◌++◌, bit_and,
}
use bkernel.Kernel.{
  Image, Output, null, idle_proc_pid, running_state, ready_state, sleep_state, block_on_sig_state,
  block_on_dev_state, stop_state, sys_err, err_signal_proc_no, err_signal_sig_no,
  err_sigkill_proc_no, err_sigkill_sig_no, Cmd, ◌>>=◌, ◌>>◌, put, skip, when, load, modify,
  with_state, with_rc,
}
use bkernel.Calls.{
  Request, timer_int, kbd_int, create_proc, yield_proc, stop_proc, get_pid, puts, sleep_ms, send_to,
  recv_from, sig_handler, sig_return, sig_kill, sig_wait, dev_open, dev_close, dev_write, dev_read,
  dev_ioctl, no_case, read_request,
}
use bkernel.Ctsw.{Trap, context_switch}
use bkernel.Disp.{next_ready, ready, count, stop, release, senders, receivers}
use bkernel.Mem.Free.{kfree}
use bkernel.Create.{create, set_max_pid, set_min_pid}
use bkernel.Sleep.{sleep_to_slice, sleep, wake, tick, sleeper, with_delta}
use bkernel.Msg.{send, recv}
use bkernel.Signal.{sighigh, siginstall, signal, sigcease}
use bkernel.Devices.{di_open, di_close, di_write, di_read, di_ioctl}
use bkernel.Kbd.Driver.{kbd_iint}

-- `p->state = READY_STATE; ready(p);`
pub back_to_ready : ℕ → Cmd (Unit {0})
back_to_ready p = do modify p (with_state ready_state); ready p

-- `p->rc = rc; p->state = READY_STATE; ready(p);`
pub return_code : ℕ → ℕ → Cmd (Unit {0})
unfolding back_to_ready
return_code p rc = do modify p (with_rc rc); back_to_ready p

-- `if(sleeper() > 0 && tick()) wake();`
unfoldable pub timer_tick : Cmd (Unit {0})
timer_tick = do n ← sleeper; if ltb 0 n then (do due ← tick; when due wake) else skip

pub serve_timer : ℕ → Cmd (Unit {0})
unfolding back_to_ready
serve_timer p = do timer_tick; back_to_ready p

serve_sleep : ℕ → ℕ → Cmd (Unit {0})
unfolding return_code
serve_sleep p ms = do
  let slices = sleep_to_slice ms
  modify p (with_delta slices)
  if slices == 0 then return_code p 0 else do
    slept ← sleep p
    if slept == 0 then return_code p 0 else modify p (with_state sleep_state)

serve_stop : ℕ → ℕ → Cmd (Unit {0})
serve_stop indeterminate p = do
  release senders p
  release receivers p
  modify p (with_state stop_state)
  stop p
  set_max_pid
  set_min_pid
  r ← load p
  kfree indeterminate r.mem

serve_kill : ℕ → ℕ → ℕ → ℕ → Cmd (Unit {0})
serve_kill indeterminate p pid sig_no = do
  rc ← signal indeterminate pid sig_no
  let rc' = if rc == err_signal_proc_no then err_sigkill_proc_no else rc
  modify p (with_rc (if rc' == err_signal_sig_no then err_sigkill_sig_no else rc'))
  ready p

serve_sig_return : ℕ → ℕ → ℕ → ℕ → Cmd (Unit {0})
unfolding back_to_ready
serve_sig_return p osp orc oim = do
  modify p (λ r. record r { esp = osp; rc = orc })
  sigcease p oim
  back_to_ready p

serve_read : Image → ℕ → ℕ → ℕ → ℕ → Cmd (Unit {0})
unfolding back_to_ready
serve_read image p fd buf buflen = do
  rc ← di_read image p fd buf buflen
  modify p (with_rc rc)
  if rc == sys_err then back_to_ready p else modify p (with_state block_on_dev_state)

-- What the process asks for, with the arguments that `p->args` points to.
unfoldable pub take_request : ℕ → Trap → Cmd Request
take_request p t = do
  code ← context_switch p t
  r ← load p
  read_request r.args t.port_status t.port_code code

module _ (image : Image) where
  -- The `switch` of `dispatch`. Its variable for the end-of-file key is an `unsigned char`.
  unfoldable pub serve : ℕ → Request → Cmd (Unit {0})
  unfolding back_to_ready return_code serve_timer serve_sleep serve_stop serve_kill serve_sig_return
      serve_read
  serve p timer_int = serve_timer p
  serve p (kbd_int status code) = do kbd_iint image status code; back_to_ready p
  serve p (create_proc func stack) = do rc ← create image func stack; return_code p rc
  serve p yield_proc = back_to_ready p
  serve p stop_proc = serve_stop image.indeterminate p
  serve p get_pid = do r ← load p; return_code p r.pid
  serve p (puts str) = do
    when (not (str == null)) (put (λ k. record k { console = k.console ++ (Output.text str ∷ []) }))
    back_to_ready p
  serve p (sleep_ms ms) = serve_sleep p ms
  serve p (send_to pid buffer buffer_len) = send image p pid buffer buffer_len
  serve p (recv_from pid_ptr buffer buffer_len) = recv image p pid_ptr buffer buffer_len
  serve p (sig_handler sig_no new_handler old_handler) = do
    rc ← siginstall p sig_no new_handler old_handler
    modify p (with_rc rc)
    ready p
  serve p (sig_return osp orc oim) = serve_sig_return p osp orc oim
  serve p (sig_kill pid sig_no) = serve_kill image.indeterminate p pid sig_no
  serve p sig_wait = modify p (with_state block_on_sig_state)
  serve p (dev_open dev_no) = do rc ← di_open p dev_no; return_code p rc
  serve p (dev_close fd_no) = do rc ← di_close p fd_no; return_code p rc
  serve p (dev_write fd_no buffer buffer_len) = do
    rc ← di_write p fd_no buffer buffer_len
    return_code p rc
  serve p (dev_read fd_no buffer buffer_len) = serve_read image p fd_no buffer buffer_len
  serve p (dev_ioctl fd_no cmd eof) = do rc ← di_ioctl p fd_no cmd (eof % 256); return_code p rc
  serve p no_case = skip

  -- One round of the loop of `dispatch`: `next` is taken off the ready queue and runs until it
  -- comes back with `t`; the idle process gives way to any other.
  unfoldable pub dispatch_round : Trap → Cmd (Unit {0})
  dispatch_round t = do
    p ← next_ready
    r ← load p
    n ← count
    if r.pid == idle_proc_pid && ltb 0 n then ready p else do
      when (not (bit_and r.sig_pend_mask r.sig_ignore_mask == 0))
          (do rc ← sighigh image p; modify p (with_rc rc))
      modify p (with_state running_state)
      request ← take_request p t
      serve p request
