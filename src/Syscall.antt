-- ===== src/Syscall.antt =====
-- c/syscall.c: the stubs by which a process asks the kernel for something.
pub mod Requests
use bkernel.Base.{ℕ, ◌+◌, List, [], ◌∷◌}
use bkernel.Kernel.{Cmd, ◌>>=◌, ◌>>◌, pure, skip, store_word}
use bkernel.Calls.{
  create_request, yield_request, stop_request, getpid_request, puts_request, sleep_request,
  send_request, recv_request, sig_handler_request, sig_return_request, sig_kill_request,
  sig_wait_request, dev_open_request, dev_close_request, dev_write_request, dev_read_request,
  dev_ioctl_request,
}
use bkernel.Ctsw.{Trap}

-- The caller puts the arguments of a function with a variable number of them on its stack, one word
-- behind the other.
unfoldable pub push_args : ℕ → List ℕ → Cmd (Unit {0})
push_args ap [] = skip
push_args ap (a ∷ rest) = do store_word ap 0 a; push_args (ap + 4) rest

-- The interrupt that `syscall` causes. What does not depend on the request is given by `u`: where
-- `va_start` puts the list of arguments, and the stack pointer.
unfoldable pub syscall : Trap → ℕ → List ℕ → Cmd Trap
syscall u call args = do push_args u.args args; pure (record u { rc = call; interrupt = 0 })

module _ (u : Trap) where
  unfoldable pub syscreate : ℕ → ℕ → Cmd Trap
  syscreate func stack = syscall u create_request (func ∷ stack ∷ [])

  unfoldable pub sysyield : Cmd Trap
  sysyield = syscall u yield_request []

  unfoldable pub sysstop : Cmd Trap
  sysstop = syscall u stop_request []

  unfoldable pub sysgetpid : Cmd Trap
  sysgetpid = syscall u getpid_request []

  unfoldable pub sysputs : ℕ → Cmd Trap
  sysputs str = syscall u puts_request (str ∷ [])

  unfoldable pub syssleep : ℕ → Cmd Trap
  syssleep milliseconds = syscall u sleep_request (milliseconds ∷ [])

  unfoldable pub syssend : ℕ → ℕ → ℕ → Cmd Trap
  syssend dest_pid buffer buffer_len = syscall u send_request (dest_pid ∷ buffer ∷ buffer_len ∷ [])

  unfoldable pub sysrecv : ℕ → ℕ → ℕ → Cmd Trap
  sysrecv from_pid buffer buffer_len = syscall u recv_request (from_pid ∷ buffer ∷ buffer_len ∷ [])

  unfoldable pub syssighandler : ℕ → ℕ → ℕ → Cmd Trap
  syssighandler sig_no new_handler old_handler =
      syscall u sig_handler_request (sig_no ∷ new_handler ∷ old_handler ∷ [])

  unfoldable pub sigreturn : ℕ → ℕ → ℕ → Cmd Trap
  sigreturn old_sp old_rc old_im = syscall u sig_return_request (old_sp ∷ old_rc ∷ old_im ∷ [])

  unfoldable pub syskill : ℕ → ℕ → Cmd Trap
  syskill pid sig_no = syscall u sig_kill_request (pid ∷ sig_no ∷ [])

  unfoldable pub syssigwait : Cmd Trap
  syssigwait = syscall u sig_wait_request []

  unfoldable pub sysopen : ℕ → Cmd Trap
  sysopen device_no = syscall u dev_open_request (device_no ∷ [])

  unfoldable pub sysclose : ℕ → Cmd Trap
  sysclose fd = syscall u dev_close_request (fd ∷ [])

  unfoldable pub syswrite : ℕ → ℕ → ℕ → Cmd Trap
  syswrite fd buff bufflen = syscall u dev_write_request (fd ∷ buff ∷ bufflen ∷ [])

  unfoldable pub sysread : ℕ → ℕ → ℕ → Cmd Trap
  sysread fd buff bufflen = syscall u dev_read_request (fd ∷ buff ∷ bufflen ∷ [])

  unfoldable pub sysioctl : ℕ → ℕ → ℕ → Cmd Trap
  sysioctl fd command eof = syscall u dev_ioctl_request (fd ∷ command ∷ eof ∷ [])
