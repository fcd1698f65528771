-- ===== src/Syscall/Requests.antt =====
-- The dispatcher of c/disp.c reads from each stub of c/syscall.c the request that it stands for.
use bkernel.Base.{ℕ, ◌+◌, ◌≡◌, ◌≢◌, refl, ◌∙◌, List, [], ◌∷◌, arith}
use bkernel.Kernel.{Kernel, null, update, Cmd, ◌>>=◌, Returns, done-Returns, done}
use bkernel.Queue.Chain.{Procs}
use bkernel.Calls.{
  Request, create_proc, yield_proc, stop_proc, get_pid, puts, sleep_ms, send_to, recv_from,
  sig_handler, sig_return, sig_kill, sig_wait, dev_open, dev_close, dev_write, dev_read, dev_ioctl,
  read_request, process_request, signal_request, device_request, one_arg, two_args, three_args,
  create_request, yield_request, stop_request, getpid_request, puts_request, sleep_request,
  send_request, recv_request, sig_handler_request, sig_return_request, sig_kill_request,
  sig_wait_request, dev_open_request, dev_close_request, dev_write_request, dev_read_request,
  dev_ioctl_request,
}
use bkernel.Ctsw.{Trap, with_args, with_esp, context_switch}
use bkernel.Dispatch.{take_request}
use bkernel.Syscall.{
  push_args, syscall, syscreate, sysyield, sysstop, sysgetpid, sysputs, syssleep, syssend, sysrecv,
  syssighandler, sigreturn, syskill, syssigwait, sysopen, sysclose, syswrite, sysread, sysioctl,
}

-- The table when the kernel has taken the request: the process keeps its stack pointer and the
-- address of the arguments.
abbrev pub taken : Kernel → ℕ → Trap → Procs
taken k p u =
    let f = update k.proc p (with_args u.args (k.proc p)) in update f p (with_esp u.esp (f p))

-- Memory with the arguments in it, one word behind the other from the address `ap`.
pub placed : ℕ → List ℕ → (ℕ → ℕ) → ℕ → ℕ
placed ap [] w = w
placed ap (a ∷ rest) w = placed (ap + 4) rest (update w (ap + 0) a)

-- The kernel takes the request `r` from what the stub leaves, and nothing changes but the block of
-- the process and the words of the arguments.
abbrev pub Asks : Kernel → ℕ → Trap → Cmd Trap → List ℕ → Request → Type 0
Asks k p u stub args r =
    Returns
      (λ got k'.
        (got ≡ r) × (k' ≡ record k { proc = taken k p u; word = placed u.args args k.word }))
      ((do t ← stub; take_request p t) k)

push_args-placed :
    (args : List ℕ) (ap : ℕ) (k : Kernel)
    → ap ≢ null
    → push_args ap args k ≡ done tt (record k { word = placed ap args k.word })
unfolding push_args placed
push_args-placed [] ap k h = refl
push_args-placed (a ∷ rest) ap k h =
    ground (arith, push_args-placed rest (ap + 4) (record k { word = update k.word (ap + 0) a }))

module _ (k : Kernel) (p : ℕ) (u : Trap) (some_proc : p ≢ null) (some_stack : u.args ≢ null) where
  -- The state in which the dispatcher reads the arguments.
  asked : List ℕ → Kernel
  asked args = record k { proc = taken k p u; word = placed u.args args k.word }

  -- The dispatcher reads from it where the arguments are.
  take_run :
      (call : ℕ) (args : List ℕ)
      → (do t ← syscall u call args; take_request p t) k
        ≡ read_request u.args u.port_status u.port_code call (asked args)
  unfolding syscall take_request context_switch asked
  take_run call args = ground (arith, push_args-placed args u.args k some_stack)

  module _ (a : ℕ) where
    one_run : (f : ℕ → Request) → one_arg u.args f (asked (a ∷ [])) ≡ done (f a) (asked (a ∷ []))
    unfolding one_arg asked placed
    one_run f = ground arith

    two_run :
        (b : ℕ) (f : ℕ → ℕ → Request)
        → two_args u.args f (asked (a ∷ b ∷ [])) ≡ done (f a b) (asked (a ∷ b ∷ []))
    unfolding two_args asked placed
    two_run b f = ground arith

    three_run :
        (b c : ℕ) (f : ℕ → ℕ → ℕ → Request)
        → three_args u.args f (asked (a ∷ b ∷ c ∷ [])) ≡ done (f a b c) (asked (a ∷ b ∷ c ∷ []))
    unfolding three_args asked placed
    three_run b c f = ground arith

  -- A stub asks for `r` if that is what the `switch` finds.
  asks :
      (call : ℕ) (args : List ℕ) (r : Request)
      → read_request u.args u.port_status u.port_code call (asked args) ≡ done r (asked args)
      → Asks k p u (syscall u call args) args r
  unfolding asked
  asks call args r e = done-Returns (take_run call args ∙ e) (refl, refl)

  -- A process whose stack is not at address 0 calls a stub, and the kernel takes the request: it is
  -- the one that the stub is named for, with the stub's arguments, for each of the 17 stubs. The
  -- block of the process changes in its stack pointer and its argument pointer, and memory is as
  -- before but for the arguments, one word behind the other from the argument pointer. Nothing else
  -- changes.
  pub take_request-syscall :
      ((func stack : ℕ)
        → Asks k p u (syscreate u func stack) (func ∷ stack ∷ []) (create_proc func stack))
      × Asks k p u (sysyield u) [] yield_proc
      × Asks k p u (sysstop u) [] stop_proc
      × Asks k p u (sysgetpid u) [] get_pid
      × ((str : ℕ) → Asks k p u (sysputs u str) (str ∷ []) (puts str))
      × ((milliseconds : ℕ)
          → Asks k p u (syssleep u milliseconds) (milliseconds ∷ []) (sleep_ms milliseconds))
      × ((dest_pid buffer buffer_len : ℕ)
          → Asks k p u
              (syssend u dest_pid buffer buffer_len)
              (dest_pid ∷ buffer ∷ buffer_len ∷ [])
              (send_to dest_pid buffer buffer_len))
      × ((from_pid buffer buffer_len : ℕ)
          → Asks k p u
              (sysrecv u from_pid buffer buffer_len)
              (from_pid ∷ buffer ∷ buffer_len ∷ [])
              (recv_from from_pid buffer buffer_len))
      × ((sig_no new_handler old_handler : ℕ)
          → Asks k p u
              (syssighandler u sig_no new_handler old_handler)
              (sig_no ∷ new_handler ∷ old_handler ∷ [])
              (sig_handler sig_no new_handler old_handler))
      × ((old_sp old_rc old_im : ℕ)
          → Asks k p u
              (sigreturn u old_sp old_rc old_im)
              (old_sp ∷ old_rc ∷ old_im ∷ [])
              (sig_return old_sp old_rc old_im))
      × ((pid sig_no : ℕ)
          → Asks k p u (syskill u pid sig_no) (pid ∷ sig_no ∷ []) (sig_kill pid sig_no))
      × Asks k p u (syssigwait u) [] sig_wait
      × ((device_no : ℕ) → Asks k p u (sysopen u device_no) (device_no ∷ []) (dev_open device_no))
      × ((fd : ℕ) → Asks k p u (sysclose u fd) (fd ∷ []) (dev_close fd))
      × ((fd buff bufflen : ℕ)
          → Asks k p u
              (syswrite u fd buff bufflen)
              (fd ∷ buff ∷ bufflen ∷ [])
              (dev_write fd buff bufflen))
      × ((fd buff bufflen : ℕ)
          → Asks k p u
              (sysread u fd buff bufflen)
              (fd ∷ buff ∷ bufflen ∷ [])
              (dev_read fd buff bufflen))
      × ((fd command eof : ℕ)
          → Asks k p u
              (sysioctl u fd command eof)
              (fd ∷ command ∷ eof ∷ [])
              (dev_ioctl fd command eof))
  unfolding syscreate sysyield sysstop sysgetpid sysputs syssleep syssend sysrecv syssighandler
      sigreturn syskill syssigwait sysopen sysclose syswrite sysread sysioctl read_request
      process_request signal_request device_request
  take_request-syscall = (
    λ func stack.
        asks create_request (func ∷ stack ∷ []) (create_proc func stack)
          (two_run func stack create_proc),
    asks yield_request [] yield_proc refl,
    asks stop_request [] stop_proc refl,
    asks getpid_request [] get_pid refl,
    λ str. asks puts_request (str ∷ []) (puts str) (one_run str puts),
    λ milliseconds.
        asks sleep_request (milliseconds ∷ []) (sleep_ms milliseconds)
          (one_run milliseconds sleep_ms),
    λ dest_pid buffer buffer_len.
        asks send_request (dest_pid ∷ buffer ∷ buffer_len ∷ []) (send_to dest_pid buffer buffer_len)
          (three_run dest_pid buffer buffer_len send_to),
    λ from_pid buffer buffer_len.
        asks recv_request (from_pid ∷ buffer ∷ buffer_len ∷ [])
          (recv_from from_pid buffer buffer_len) (three_run from_pid buffer buffer_len recv_from),
    λ sig_no new_handler old_handler.
        asks sig_handler_request (sig_no ∷ new_handler ∷ old_handler ∷ [])
          (sig_handler sig_no new_handler old_handler)
          (three_run sig_no new_handler old_handler sig_handler),
    λ old_sp old_rc old_im.
        asks sig_return_request (old_sp ∷ old_rc ∷ old_im ∷ []) (sig_return old_sp old_rc old_im)
          (three_run old_sp old_rc old_im sig_return),
    λ pid sig_no.
        asks sig_kill_request (pid ∷ sig_no ∷ []) (sig_kill pid sig_no)
          (two_run pid sig_no sig_kill),
    asks sig_wait_request [] sig_wait refl,
    λ device_no.
        asks dev_open_request (device_no ∷ []) (dev_open device_no) (one_run device_no dev_open),
    λ fd. asks dev_close_request (fd ∷ []) (dev_close fd) (one_run fd dev_close),
    λ fd buff bufflen.
        asks dev_write_request (fd ∷ buff ∷ bufflen ∷ []) (dev_write fd buff bufflen)
          (three_run fd buff bufflen dev_write),
    λ fd buff bufflen.
        asks dev_read_request (fd ∷ buff ∷ bufflen ∷ []) (dev_read fd buff bufflen)
          (three_run fd buff bufflen dev_read),
    λ fd command eof.
        asks dev_ioctl_request (fd ∷ command ∷ eof ∷ []) (dev_ioctl fd command eof)
          (three_run fd command eof dev_ioctl),
  )
