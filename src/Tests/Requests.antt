-- ===== src/Tests/Requests.antt =====
-- An example for the stubs of c/syscall.c: process 4 asks, with its arguments at 0x6000.
use bkernel.Base.{ℕ, [], ◌∷◌, arith}
use bkernel.Syscall.{
  syscreate, sysyield, sysstop, sysgetpid, sysputs, syssleep, syssend, sysrecv, syssighandler,
  sigreturn, syskill, syssigwait, sysopen, sysclose, syswrite, sysread, sysioctl,
}
use bkernel.Calls.{
  create_proc, yield_proc, stop_proc, get_pid, puts, sleep_ms, send_to, recv_from, sig_handler,
  sig_return, sig_kill, sig_wait, dev_open, dev_close, dev_write, dev_read, dev_ioctl,
}
use bkernel.Syscall.Requests.{Asks, take_request-syscall}
use bkernel.Ctsw.{Trap}
use bkernel.Tests.Sample.{kernel}

abbrev caller : Trap
caller = record {
  esp = 0x7000;
  rc = 0;
  interrupt = 0;
  args = 0x6000;
  port_status = 0;
  port_code = 0;
}

take_request-syscall_example :
    ((func stack : ℕ)
      → Asks kernel 4 caller
          (syscreate caller func stack)
          (func ∷ stack ∷ [])
          (create_proc func stack))
    × Asks kernel 4 caller (sysyield caller) [] yield_proc
    × Asks kernel 4 caller (sysstop caller) [] stop_proc
    × Asks kernel 4 caller (sysgetpid caller) [] get_pid
    × ((str : ℕ) → Asks kernel 4 caller (sysputs caller str) (str ∷ []) (puts str))
    × ((milliseconds : ℕ)
        → Asks kernel 4 caller
            (syssleep caller milliseconds)
            (milliseconds ∷ [])
            (sleep_ms milliseconds))
    × ((dest_pid buffer buffer_len : ℕ)
        → Asks kernel 4 caller
            (syssend caller dest_pid buffer buffer_len)
            (dest_pid ∷ buffer ∷ buffer_len ∷ [])
            (send_to dest_pid buffer buffer_len))
    × ((from_pid buffer buffer_len : ℕ)
        → Asks kernel 4 caller
            (sysrecv caller from_pid buffer buffer_len)
            (from_pid ∷ buffer ∷ buffer_len ∷ [])
            (recv_from from_pid buffer buffer_len))
    × ((sig_no new_handler old_handler : ℕ)
        → Asks kernel 4 caller
            (syssighandler caller sig_no new_handler old_handler)
            (sig_no ∷ new_handler ∷ old_handler ∷ [])
            (sig_handler sig_no new_handler old_handler))
    × ((old_sp old_rc old_im : ℕ)
        → Asks kernel 4 caller
            (sigreturn caller old_sp old_rc old_im)
            (old_sp ∷ old_rc ∷ old_im ∷ [])
            (sig_return old_sp old_rc old_im))
    × ((pid sig_no : ℕ)
        → Asks kernel 4 caller
            (syskill caller pid sig_no)
            (pid ∷ sig_no ∷ [])
            (sig_kill pid sig_no))
    × Asks kernel 4 caller (syssigwait caller) [] sig_wait
    × ((device_no : ℕ)
        → Asks kernel 4 caller (sysopen caller device_no) (device_no ∷ []) (dev_open device_no))
    × ((fd : ℕ) → Asks kernel 4 caller (sysclose caller fd) (fd ∷ []) (dev_close fd))
    × ((fd buff bufflen : ℕ)
        → Asks kernel 4 caller
            (syswrite caller fd buff bufflen)
            (fd ∷ buff ∷ bufflen ∷ [])
            (dev_write fd buff bufflen))
    × ((fd buff bufflen : ℕ)
        → Asks kernel 4 caller
            (sysread caller fd buff bufflen)
            (fd ∷ buff ∷ bufflen ∷ [])
            (dev_read fd buff bufflen))
    × ((fd command eof : ℕ)
        → Asks kernel 4 caller
            (sysioctl caller fd command eof)
            (fd ∷ command ∷ eof ∷ [])
            (dev_ioctl fd command eof))
take_request-syscall_example = take_request-syscall kernel 4 caller (omega arith) (omega arith)
